-- ===== src/Commands/Resolved.antt =====
-- What a whole run of `resolve` in scripts/durable_recovery.py leaves alone, from the preparation to the
-- last phase: `run_resolution`.
use moon_mqtt_client.Base.{
  some_injective, ℕ, ◌<◌, ◌==◌, ◌||◌, Bool, true, ◌≡◌, refl, ◌∙◌, sym, ap, str_eq, Option, none,
  some, String,
}
use moon_mqtt_client.Paths.{FilePath}
use moon_mqtt_client.Durable.{Snapshot}
use moon_mqtt_client.Phase.{JournalRow}
use moon_mqtt_client.Bundle.{SourceFile}
use moon_mqtt_client.Request.{Request, journal_path}
use moon_mqtt_client.Exec.{◌>>=◌, ◌>>◌, pure, refuse, require}
use moon_mqtt_client.Exec.Rules.{
  Step, Meets, Meets-bind, Meets-then, Meets-step, Meets-always, Meets-weaken, Meets-errors,
  Meets-or_raise, Meets-pure, Meets-assume,
}
use moon_mqtt_client.World.{
  Env, World, Act, Content, link, follow, is_regular, existing_path, connect_sqlite,
}
use moon_mqtt_client.World.Frame.{Quiet, Quiet-call, Quiet-sql, Quiet-gets, quiet_rules, kept}
use moon_mqtt_client.World.Changes.{Frame, Frame-IsPreorder, Frame-Quiet}
use moon_mqtt_client.Archive.{Zip, verify_archive}
use moon_mqtt_client.Journal.{open_journal}
use moon_mqtt_client.Resolution.{advance_resolution}
use moon_mqtt_client.Resolution.Isolation.{is_stage, advance_resolution-Frame}
use moon_mqtt_client.Reads.{Quiet-validate_journal}
use moon_mqtt_client.Effects.Temporary.{Intact, no_inode, no_name}
use moon_mqtt_client.Commands.{run_resolution, Report}
use moon_mqtt_client.Commands.Beside.{intact_rules, prepared, archive_checked}

module _ (env : Env) {P : World → Type 0} (keep : (w w' : World) → Quiet w w' → P w → P w') where
  keeps : {A : Type 0} (m : Act A) → Step Quiet m → Meets P m (λ _. P) P
  keeps = kept env keep

  existing_path-same :
      (p : FilePath) (label : String) → Meets P (existing_path env p label) (λ q w. P w × (q ≡ p)) P
  unfolding existing_path
  existing_path-same p label = Meets-then P _ _ (keeps _ (Quiet-call env)) (
      Meets-bind (λ _. P) _ _ (keeps _ (Quiet-gets _))
        λ found.
          Meets-bind (λ _. P) _ _ (keeps _ (search quiet_rules))
            λ i.
              Meets-bind (λ _. P) _ _ (keeps _ (Quiet-gets _))
                λ regular.
                  Meets-then P _ _ (keeps _ (search quiet_rules)) (Meets-pure p (λ w h. (h, refl))))

  -- A connection is the inode that the path leads to.
  connect_sqlite-follow :
      (p : FilePath)
      → Meets P (connect_sqlite env p) (λ c w. P w × (follow w (w.entry p) ≡ some c)) P
  unfolding connect_sqlite
  connect_sqlite-follow p = Meets-then P _ _ (keeps _ (search (quiet_rules, Quiet-sql))) (
      Meets-bind (λ found w. P w × (found ≡ follow w (w.entry p))) _ _
        (record { at = λ w h. (h, refl) })
        λ found.
          Meets-or_raise found (refuse "cannot open SQLite") (record { at = λ w h. h.0 })
            λ c w e h. (h.0, sym h.1 ∙ e))

module _ (env : Env) {P : World → Type 0} (keep : (w w' : World) → Quiet w w' → P w → P w') where
  abbrev Opened : FilePath → ℕ → World → Type 0
  Opened p c w = P w × (follow w (w.entry p) ≡ some c)

  Opened-keep : (p : FilePath) (c : ℕ) (w w' : World) → Quiet w w' → Opened p c w → Opened p c w'
  Opened-keep p c w w' q h = (keep w w' q h.0, rw (q.entry_eq, q.content_eq) h.1)

  -- What follows keeps the connection and only reads.
  opened :
      {A : Type 0} (p : FilePath) (c : ℕ) (m : Act A)
      → Step Quiet m
      → Meets (Opened p c) m (λ _. Opened p c) P
  opened p c m km = Meets-errors (λ w h. h.0) (kept env (Opened-keep p c) m km)

  open_journal-follow :
      (request : Request)
      → Meets {A = ℕ × JournalRow} P
          (open_journal env request)
          (λ x w. P w × (follow w (w.entry (journal_path request)) ≡ some x.0))
          P
  unfolding open_journal
  open_journal-follow request =
      let final = journal_path request in
      Meets-bind (λ q w. P w × (q ≡ final)) _ _ (existing_path-same env keep final "journal")
        λ q.
          Meets-assume (q ≡ final) _ (λ w h. h.1)
            λ same.
              Meets-bind (Opened final) _ _
                (Meets-weaken _ (λ w h. h.0) (λ c w h. (h.0, rw (sym same) h.1))
                  (connect_sqlite-follow env keep q))
                λ c. Meets-then (Opened final c) _ _ (opened final c _ (search quiet_rules)) (
                  Meets-bind (λ _. Opened final c) _ _
                    (opened final c _ (Quiet-validate_journal env c))
                    λ x. Meets-then (Opened final c) _ _ (opened final c _ (search quiet_rules)) (
                      Meets-then (Opened final c) _ _ (opened final c _ (search quiet_rules)) (
                        Meets-then (Opened final c) _ _ (opened final c _ (search quiet_rules))
                          (Meets-pure {A = ℕ × JournalRow} _ (λ w h. h)))))

-- The inodes that a run may write: the source's and, for a journal that is there, the one that its path
-- names.
pub IsJournal : Request → World → ℕ → Type 0
IsJournal request w c =
    (j : ℕ)
    → w.entry (journal_path request) ≡ some j
    → j < w.fresh
    → is_regular (w.content j) ≡ true
    → c ≡ j

pub record IsKept (request : Request) (source : ℕ) (w w' : World) : Type 0 where
  pub journal : ℕ
  pub is_journal : IsJournal request w journal
  pub frame : Frame (λ i. i == source || i == journal) (is_stage request.target) w w'

Frame-widen :
    (writes : ℕ → Bool) (removes : FilePath → Bool) (w w' : World)
    → Intact w w'
    → Frame writes removes w w'
Frame-widen writes removes w w' h = record {
  fresh_le = h.fresh_le;
  content_kept = λ i lt k. h.content_kept i lt refl;
  entry_kept = λ p i k e. h.entry_kept p i refl e;
  history = h.history;
}

Intact-IsKept :
    (request : Request) (source : ℕ) (w w' : World) → Intact w w' → IsKept request source w w'
unfolding IsJournal
Intact-IsKept request source w w' h = record {
  journal = elim (w.entry (journal_path request)) [ none ↦ source | some j ↦ j ];
  is_journal = λ j e lt r. rw e refl;
  frame = Frame-widen _ _ w w' h;
}

regular_followed :
    (c : Content) (j : ℕ)
    → is_regular c ≡ true
    → elim c as (λ x. Option ℕ) [ link target ↦ target | _ ↦ some j ] ≡ some j
regular_followed (link target) j h = absurd cc
regular_followed _ j h = refl

follow-IsJournal :
    (request : Request) (w w' : World) (c : ℕ)
    → Intact w w'
    → follow w' (w'.entry (journal_path request)) ≡ some c
    → IsJournal request w c
unfolding IsJournal
follow-IsJournal request w w' c h e j at_entry lt regular =
    let there : w'.entry (journal_path request) ≡ some j = h.entry_kept _ j refl at_entry in
    let same : w'.content j ≡ w.content j = h.content_kept j lt refl in
    let found : follow w' (some j) ≡ some j =
      rw (follow, same) (regular_followed (w.content j) j regular) in
    some_injective (sym e ∙ ap (follow w') there ∙ found)

module _ (env : Env) (zip : Zip) (tmpdir : String) (request : Request) (source : ℕ)
    (w : World) where
  abbrev Done : World → Type 0
  Done = IsKept request source w

  before : {A : Type 0} (m : Act A) → Step Intact m → Meets (Intact w) m (λ _. Intact w) Done
  before m km =
      Meets-errors (λ v h. Intact-IsKept request source w v h)
        (Meets-step (λ s t f h. (Frame-IsPreorder no_inode no_name).next w s t h f) m km)

  -- A part that writes the source and the journal.
  from_now :
      {A : Type 0} (c : ℕ)
      → IsJournal request w c
      → (m : Act A) → Step (Frame (λ i. i == source || i == c) (is_stage request.target)) m
      → Meets (Intact w) m (λ _. Done) Done
  from_now c named m km =
      let writes : ℕ → Bool = λ i. i == source || i == c in
      let removes = is_stage request.target in
      let done : (v : World) → Frame writes removes w v → Done v =
        λ v h. record { journal = c; is_journal = named; frame = h } in
      Meets-weaken m (λ v h. Frame-widen writes removes w v h) (λ a v h. done v h)
        (Meets-errors done
          (Meets-step (λ s t f h. (Frame-IsPreorder writes removes).next w s t h f) m km))

  -- Once the journal is open.
  advanced :
      (value : Snapshot) (file : SourceFile) (c : ℕ) (j : JournalRow)
      → IsJournal request w c
      → Meets
          (Intact w)
          (existing_path env request.archive "archive" >>= (λ path.
            verify_archive env zip tmpdir path (some "resolution") (some request.document) >>= (λ x.
              require (str_eq x.1 j.archive_sha256) "archive bytes differ from the prepared journal"
              >> (advance_resolution env request source c value j x.0 file >>= (λ result.
                  pure {A = Report} (record {
                    operation_id = result.operation_id;
                    phase = result.phase;
                    source = request.source;
                    archive = request.archive;
                    target = request.target;
                  }))))))
          (λ _. Done)
          Done
  advanced value file c j named =
      Meets-bind (λ _. Intact w) _ _ (before _ (search intact_rules))
        λ path.
          Meets-bind (λ _. Intact w) _ _ (before _ (archive_checked env zip tmpdir path _ _))
            λ x. Meets-then (Intact w) _ _ (before _ (search intact_rules)) (
              Meets-bind (λ _. Done) _ _
                (from_now c named _ (record {
                  at = λ v. advance_resolution-Frame env request source c value j x.0 file v;
                }))
                λ result. Meets-pure _ (λ v h. h))

  run_resolution-Done :
      (value : Snapshot) (file : SourceFile)
      → Meets (Intact w) (run_resolution env zip tmpdir request source value file) (λ _. Done) Done
  unfolding run_resolution
  run_resolution-Done value file =
      Meets-bind (λ _. Intact w) _ _ (before _ (search intact_rules))
        λ there.
          Meets-then (Intact w) _ _ (before _ (search (intact_rules, prepared env zip tmpdir))) (
            Meets-bind (λ x v. Intact w v × IsJournal request w x.0) _ _
              (Meets-errors (λ v h. Intact-IsKept request source w v h)
                (Meets-weaken _ (λ v h. h)
                  (λ x v h. (h.0, follow-IsJournal request w v x.0 h.0 h.1))
                  (open_journal-follow env
                    (λ s t q h.
                      (Frame-IsPreorder no_inode no_name).next w s t h
                        (Frame-Quiet no_inode no_name s t q))
                    request)))
              λ x.
                Meets-assume (IsJournal request w x.0) _ (λ v h. h.1)
                  λ named.
                    Meets-weaken _ (λ v h. h.0) (λ r v h. h) (advanced value file x.0 x.1 named))

-- However a run of `resolve` ends after it has the source, whatever fails and whatever the broker answers:
-- of the files that were there, it writes at most the source and one more, which is the journal if its path
-- led to a regular file; it neither removes nor replaces a directory entry, but for those with the name of a
-- staging file of the target; and the history of exchanges with the broker only grows.
pub run_resolution-IsKept :
    (env : Env) (zip : Zip) (tmpdir : String) (request : Request) (source : ℕ) (value : Snapshot)
    (file : SourceFile) (w : World)
    → IsKept request source w (run_resolution env zip tmpdir request source value file w).1
run_resolution-IsKept env zip tmpdir request source value file w =
    Meets-always _ (run_resolution-Done env zip tmpdir request source w value file) (λ r v h. h) w
      ((Frame-IsPreorder no_inode no_name).same w)
