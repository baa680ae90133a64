-- ===== src/Replacement/Placed.antt =====
-- A new store passes the checks of the target: scripts/durable_recovery.py, `verify_target`.
use moon_mqtt_client.Base.{ℕ, Bool, String, ◌≡◌, refl, some, str_eq_refl}
use moon_mqtt_client.Paths.{FilePath}
use moon_mqtt_client.Exec.Gives.{
  Gives, Gives-or_raise, Gives-sqlite_as, Gives-require, Gives-when, Gives-bind, Gives-then,
}
use moon_mqtt_client.World.{
  Env, World, durable, follow, sql, gets, query, existing_path, connect_sqlite, sha256_file,
}
use moon_mqtt_client.World.Frame.{Quiet}
use moon_mqtt_client.World.Calm.{
  calm, Gives-sql, Gives-gets, Gives-existing_path, Gives-sha256_file,
}
use moon_mqtt_client.Inspect.{require_schema, singletons}
use moon_mqtt_client.Replacement.{new_database, check_target, check_empty, verify_target}

-- A new store is at `p`.
pub record Placed (p : FilePath) (identity : String) (i page : ℕ) (w : World) : Type 0 where
  pub at_entry : w.entry p ≡ some i
  pub at_content : w.content i ≡ durable (new_database identity) page

module _ (env : Env) (p : FilePath) (identity : String) (i page : ℕ) where
  abbrev Here : World → Type 0
  Here = Placed p identity i page

  Here-keep : (w w' : World) → Quiet w w' → Here w → Here w'
  Here-keep w w' q h = record {
    at_entry = rw q.entry_eq h.at_entry;
    at_content = rw q.content_eq h.at_content;
  }

  sql-Here : Gives Here (sql (calm env)) tt
  sql-Here = Gives-sql env Here-keep

  gets-Here :
      {A : Type 0} (f : World → A) (v : A)
      → ((w : World) → Here w → f w ≡ v)
      → Gives Here (gets f) v
  gets-Here = Gives-gets env Here-keep

  existing : Gives Here (existing_path (calm env) p "target") p
  existing =
      Gives-existing_path env Here-keep p i (λ w h. h.at_entry) "target"
        (λ w h. rw h.at_content refl)

  connected : Gives Here (connect_sqlite (calm env) p) i
  unfolding connect_sqlite
  connected = Gives-then _ _ _ _ (Gives-sqlite_as _ _ _ sql-Here) (
      Gives-bind _ _ (some i) _
        (gets-Here _ _ (λ w h. rw (h.at_entry, follow) (rw h.at_content refl)))
        (Gives-or_raise _ _ _ refl))

  pub queried : Gives Here (query (calm env) i) (new_database identity)
  unfolding query
  queried = Gives-then _ _ _ _ sql-Here (
      Gives-bind _ _ (some (new_database identity)) _ (gets-Here _ _ (λ w h. rw h.at_content refl))
        (Gives-or_raise _ _ _ refl))

  pub hashed :
      Gives Here (sha256_file (calm env) p) (env.digest (durable (new_database identity) page))
  hashed =
      Gives-sha256_file env Here-keep p i (λ w h. h.at_entry)
        (λ w h. rw (h.at_content, follow) refl) _ (λ w h. rw h.at_content refl)

  pub schema : Gives Here (require_schema (calm env) i) tt
  unfolding require_schema new_database
  schema = Gives-sqlite_as _ _ _ (
      Gives-bind _ _ _ _ queried (
        Gives-then _ _ _ _ (Gives-require _ _ refl) (
          Gives-bind _ _ _ _ queried (
            Gives-then _ _ _ _ (Gives-require _ _ refl) (
              Gives-bind _ _ _ _ queried (
                Gives-then _ _ _ _ (Gives-require _ _ refl) (
                  Gives-then _ _ _ _ (Gives-require _ _ refl) (
                    Gives-bind _ _ _ _ queried
                      (Gives-bind _ _ _ _ queried (Gives-require _ _ refl))))))))))

  pub whole :
      (require_empty : Bool) → Gives Here (verify_target (calm env) p identity require_empty) tt
  unfolding verify_target check_target check_empty new_database singletons
  whole require_empty = Gives-bind _ _ _ _ existing (
      Gives-bind _ _ _ _ connected (
        Gives-then _ _ _ _ schema (
          Gives-bind _ _ _ _ queried (
            Gives-then _ _ _ _ (Gives-require _ _ (str_eq_refl identity)) (
              Gives-when _ _ (
                Gives-then _ _ _ _ (Gives-require _ _ refl)
                  (Gives-bind _ _ _ _ queried (Gives-require _ _ refl))))))))
