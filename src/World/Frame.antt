-- ===== src/World/Frame.antt =====
-- What the calls of World.antt leave alone. `Quiet` is a call that only counts; `Frame` may also
-- write the inodes that `writes` names, remove the entries that `removes` names, and add files.
use moon_mqtt_client.Base.{ℕ, String, ◌≡◌, refl, ◌∙◌, sym, some}
use moon_mqtt_client.Paths.{FilePath}
use moon_mqtt_client.Exec.{Outcome, storage, sqlite}
use moon_mqtt_client.Exec.Rules.{
  IsPreorder, Step, step_rules, Meets, Meets-then, Meets-bind, Meets-or_raise, Meets-step,
}
use moon_mqtt_client.World.{
  Env, World, Act, Fault, fine, call, sql, draw, gets, raise_storage, raise_sqlite, type_error,
  maybe_fail, sha256_file, existing_path, connect_sqlite, sqlite_connect, query, query_journal,
  pragma, outcome_of, exit, as_journal, as_database,
}

pub record Quiet (w w' : World) : Type 0 where
  pub entry_eq : w'.entry ≡ w.entry
  pub content_eq : w'.content ≡ w.content
  pub fresh_eq : w'.fresh ≡ w.fresh
  pub exchanges_eq : w'.exchanges ≡ w.exchanges

pub Quiet-IsPreorder : IsPreorder Quiet
Quiet-IsPreorder = record {
  same = λ w. record { entry_eq = refl; content_eq = refl; fresh_eq = refl; exchanges_eq = refl };
  next = λ s t u p q. record {
    entry_eq = q.entry_eq ∙ p.entry_eq;
    content_eq = q.content_eq ∙ p.content_eq;
    fresh_eq = q.fresh_eq ∙ p.fresh_eq;
    exchanges_eq = q.exchanges_eq ∙ p.exchanges_eq;
  };
}

pub Quiet-gets : {A : Type 0} (f : World → A) → Step Quiet (gets f)
Quiet-gets f = record { at = λ w. Quiet-IsPreorder.same w }

pub Quiet-raise_storage : {A : Type 0} → Step Quiet (raise_storage {A = A})
Quiet-raise_storage = record { at = λ w. Quiet-IsPreorder.same w }

pub Quiet-raise_sqlite : {A : Type 0} → Step Quiet (raise_sqlite {A = A})
Quiet-raise_sqlite = record { at = λ w. Quiet-IsPreorder.same w }

pub Quiet-type_error : {A : Type 0} → Step Quiet (type_error {A = A})
Quiet-type_error = record { at = λ w. Quiet-IsPreorder.same w }

pub Quiet-exit : Step Quiet exit
Quiet-exit = record { at = λ w. Quiet-IsPreorder.same w }

pub Quiet-draw : Step Quiet draw
unfolding draw
Quiet-draw = record {
  at = λ w. record { entry_eq = refl; content_eq = refl; fresh_eq = refl; exchanges_eq = refl };
}

pub ruleset quiet_base = (
  step_rules, Quiet-IsPreorder, Quiet-gets, Quiet-raise_storage, Quiet-raise_sqlite,
  Quiet-type_error, Quiet-exit, Quiet-draw,
)

module _ (env : Env) where
  Quiet-outcome : (r : Outcome (Unit {0})) (f : Fault) → Step Quiet (outcome_of env r f)
  Quiet-outcome r fine = record { at = λ w. Quiet-IsPreorder.same w }
  Quiet-outcome r _ = record { at = λ w. Quiet-IsPreorder.same w }

  pub Quiet-call : Step Quiet (call env)
  unfolding call
  Quiet-call = record {
    at = λ w.
        Quiet-IsPreorder.next w (record w { now = ℕ.suc w.now }) _
          (record { entry_eq = refl; content_eq = refl; fresh_eq = refl; exchanges_eq = refl })
          ((Quiet-outcome storage (env.fault w.now)).at (record w { now = ℕ.suc w.now }));
  }

  pub Quiet-sql : Step Quiet (sql env)
  unfolding sql
  Quiet-sql = record {
    at = λ w.
        Quiet-IsPreorder.next w (record w { now = ℕ.suc w.now }) _
          (record { entry_eq = refl; content_eq = refl; fresh_eq = refl; exchanges_eq = refl })
          ((Quiet-outcome sqlite (env.fault w.now)).at (record w { now = ℕ.suc w.now }));
  }

  pub Quiet-maybe_fail : (name : String) → Step Quiet (maybe_fail env name)
  unfolding maybe_fail
  Quiet-maybe_fail name = search quiet_base

  pub Quiet-sha256_file : (p : FilePath) → Step Quiet (sha256_file env p)
  unfolding sha256_file
  Quiet-sha256_file p = search (quiet_base, Quiet-call) depth 9

  pub Quiet-existing_path : (p : FilePath) (label : String) → Step Quiet (existing_path env p label)
  unfolding existing_path
  Quiet-existing_path p label = search (quiet_base, Quiet-call) depth 12

  pub Quiet-connect_sqlite : (p : FilePath) → Step Quiet (connect_sqlite env p)
  unfolding connect_sqlite
  Quiet-connect_sqlite p = search (quiet_base, Quiet-sql) depth 12

  pub Quiet-sqlite_connect : (p : FilePath) → Step Quiet (sqlite_connect env p)
  unfolding sqlite_connect
  Quiet-sqlite_connect p = search (quiet_base, Quiet-sql) depth 12

  pub Quiet-query : (i : ℕ) → Step Quiet (query env i)
  unfolding query
  Quiet-query i = search (quiet_base, Quiet-sql) depth 12

  pub Quiet-query_journal : (i : ℕ) → Step Quiet (query_journal env i)
  unfolding query_journal
  Quiet-query_journal i = search (quiet_base, Quiet-sql) depth 12

  pub Quiet-pragma : (reason : String) → Step Quiet (pragma env reason)
  unfolding pragma
  Quiet-pragma reason = search (quiet_base, Quiet-sql) depth 12

pub ruleset quiet_rules = (
  quiet_base, Quiet-call, Quiet-sql, Quiet-maybe_fail, Quiet-sha256_file, Quiet-existing_path,
  Quiet-connect_sqlite, Quiet-sqlite_connect, Quiet-query, Quiet-query_journal, Quiet-pragma,
)

module _ (env : Env) {P : World → Type 0} (keep : (w w' : World) → Quiet w w' → P w → P w') where
  pub kept : {A : Type 0} (m : Act A) → Step Quiet m → Meets P m (λ _. P) P
  kept m km = Meets-step keep m km

  -- What a statement reads stands in the file of the connection.
  pub query_journal-reads :
      (i : ℕ) → Meets P (query_journal env i) (λ db w. P w × (as_journal (w.content i) ≡ some db)) P
  unfolding query_journal
  query_journal-reads i = Meets-then P _ _ (kept (sql env) (Quiet-sql env)) (
      Meets-bind (λ found w. P w × (found ≡ as_journal (w.content i))) _ _
        (record { at = λ w h. (h, refl) })
        λ found.
          Meets-or_raise found raise_sqlite (record { at = λ w h. h.0 })
            λ db w e h. (h.0, sym h.1 ∙ e))

  pub query-reads :
      (i : ℕ) → Meets P (query env i) (λ db w. P w × (as_database (w.content i) ≡ some db)) P
  unfolding query
  query-reads i = Meets-then P _ _ (kept (sql env) (Quiet-sql env)) (
      Meets-bind (λ found w. P w × (found ≡ as_database (w.content i))) _ _
        (record { at = λ w h. (h, refl) })
        λ found.
          Meets-or_raise found raise_sqlite (record { at = λ w h. h.0 })
            λ db w e h. (h.0, sym h.1 ∙ e))
