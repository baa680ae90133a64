-- ===== src/Journal/Atomic.antt =====
-- A phase is recorded wholly or not at all: scripts/durable_recovery.py, `update_phase`.
use moon_mqtt_client.Base.{
  none, some, [], ◌∷◌, true, false, ◌==◌, ==_refl, sym, subst, some_injective, if_true, ℕ, String,
  ◌≡◌, refl, ◌∙◌, ap, ◌⊎◌, inl, inr, Option,
}
use moon_mqtt_client.Paths.{FilePath}
use moon_mqtt_client.Phase.{Phase, JournalRow, JournalDb}
use moon_mqtt_client.Exec.{Outcome}
use moon_mqtt_client.Exec.Rules.{
  Step, Post, Meets, Meets-bind, Meets-then, Meets-step, Meets-errors, Meets-or_raise,
  Meets-except_raise,
}
use moon_mqtt_client.World.{Env, World, Act, Content, journal, fill, change, as_journal, type_error}
use moon_mqtt_client.World.Frame.{Quiet, quiet_rules, Quiet-sql, Quiet-draw, query_journal-reads}
use moon_mqtt_client.Journal.{
  coalesce, update_row, update_content, first_singleton, commit_phase, refresh_journal,
  update_phase,
}

-- An argument that is given replaces the column, and the column stays where it is `None`.
abbrev pub IsGiven : {A : Type 0} → Option A → Option A → Option A → Type 0
IsGiven none before after = after ≡ before
IsGiven (some a) before after = after ≡ some a

-- The row has the phase and the staging file that are recorded, and all else as before but its time.
pub record Updates (phase : Phase) (target : Option FilePath) (sha : Option String)
    (old new : JournalRow) : Type 0 where
  pub phase_eq : new.phase ≡ phase
  pub target_given : IsGiven target old.staged_target new.staged_target
  pub sha_given : IsGiven sha old.staged_target_sha256 new.staged_target_sha256
  pub singleton_eq : new.singleton ≡ old.singleton
  pub version_eq : new.schema_version ≡ old.schema_version
  pub operation_eq : new.operation_id ≡ old.operation_id
  pub request_eq : new.request_json ≡ old.request_json
  pub request_hash : new.request_sha256 ≡ old.request_sha256
  pub archive_eq : new.archive_path ≡ old.archive_path
  pub archive_hash : new.archive_sha256 ≡ old.archive_sha256
  pub fingerprint_eq : new.source_snapshot_sha256 ≡ old.source_snapshot_sha256
  pub device_eq : new.source_device ≡ old.source_device
  pub inode_eq : new.source_inode ≡ old.source_inode
  pub old_eq : new.old_identity ≡ old.old_identity
  pub target_eq : new.target_identity ≡ old.target_identity
  pub retired_eq : new.retired_identity ≡ old.retired_identity
  pub created_eq : new.created_at ≡ old.created_at

coalesce-IsGiven :
    {A : Type 0} (given before : Option A) → IsGiven given before (coalesce given before)
coalesce-IsGiven none before = refl
coalesce-IsGiven (some a) before = refl

update_row-Updates :
    (phase : Phase) (target : Option FilePath) (sha : Option String) (time : String)
    (old : JournalRow)
    → Updates phase target sha old (update_row phase target sha time old)
update_row-Updates phase target sha time old = record {
  phase_eq = refl;
  target_given = coalesce-IsGiven target old.staged_target;
  sha_given = coalesce-IsGiven sha old.staged_target_sha256;
  singleton_eq = refl;
  version_eq = refl;
  operation_eq = refl;
  request_eq = refl;
  request_hash = refl;
  archive_eq = refl;
  archive_hash = refl;
  fingerprint_eq = refl;
  device_eq = refl;
  inode_eq = refl;
  old_eq = refl;
  target_eq = refl;
  retired_eq = refl;
  created_eq = refl;
}

-- The file of a journal with one row.
abbrev pub with_row : JournalDb → JournalRow → ℕ → Content
with_row db row page = journal (record db { rows = row ∷ [] }) page

-- No file has changed.
abbrev pub Unchanged : World → World → Type 0
Unchanged w0 w = (w.entry ≡ w0.entry) × (w.content ≡ w0.content)

-- The journal has the row, which is the old one with the update, and no other file has changed.
pub record Stored (connection : ℕ) (phase : Phase) (target : Option FilePath) (sha : Option String)
    (db : JournalDb) (old : JournalRow) (w0 : World) (row : JournalRow) (w : World) : Type 0 where
  pub same_entries : w.entry ≡ w0.entry
  pub same_files : (i : ℕ) → (connection == i) ≡ false → w.content i ≡ w0.content i
  pub page : ℕ
  pub stored : w.content connection ≡ with_row db row page
  pub updates : Updates phase target sha old row

module _ (env : Env) (connection : ℕ) (phase : Phase) (target : Option FilePath)
    (sha : Option String) (db : JournalDb) (old : JournalRow) (w0 : World) where
  abbrev pub StoredAs : JournalRow → World → Type 0
  StoredAs = Stored connection phase target sha db old w0

  abbrev StoredSome : World → Type 0
  StoredSome w = (row : JournalRow) × StoredAs row w

  abbrev pub Either : World → Type 0
  Either w = Unchanged w0 w ⊎ ((row : JournalRow) × StoredAs row w)

  Unchanged-Quiet : (w w' : World) → Quiet w w' → Unchanged w0 w → Unchanged w0 w'
  Unchanged-Quiet w w' q h = (q.entry_eq ∙ h.0, q.content_eq ∙ h.1)

  StoredSome-Quiet : (w w' : World) → Quiet w w' → StoredSome w → StoredSome w'
  StoredSome-Quiet w w' q (row, h) = (
    row,
    record {
      same_entries = q.entry_eq ∙ h.same_entries;
      same_files = λ i k. rw q.content_eq (h.same_files i k);
      page = h.page;
      stored = rw q.content_eq h.stored;
      updates = h.updates;
    },
  )

  Either-Quiet : (w w' : World) → Quiet w w' → Either w → Either w'
  Either-Quiet w w' q (inl h) = inl (Unchanged-Quiet w w' q h)
  Either-Quiet w w' q (inr h) = inr (StoredSome-Quiet w w' q h)

  before :
      {A : Type 0} (m : Act A) → Step Quiet m → Meets (Unchanged w0) m (λ _. Unchanged w0) Either
  before m km = Meets-errors (λ w h. inl h) (Meets-step Unchanged-Quiet m km)

  module _ (page : ℕ) (held : w0.content connection ≡ with_row db old page)
      (single : old.singleton ≡ 1) where
    update_content-with_row :
        (time : String) (page' : ℕ)
        → update_content phase target sha time page' (w0.content connection)
          ≡ with_row db (update_row phase target sha time old) page'
    update_content-with_row time page' = rw held (rw single refl)

    filled :
        (time : String) (page' : ℕ) (w : World)
        → Unchanged w0 w
        → StoredAs
            (update_row phase target sha time old)
            (fill connection (update_content phase target sha time page' (w.content connection)) w)
    filled time page' w h = record {
      same_entries = h.0;
      same_files = λ i k. rw k (ap (λ (f : ℕ → Content). f i) h.1);
      page = page';
      stored = rw (==_refl connection) (
          ap (λ (f : ℕ → Content). update_content phase target sha time page' (f connection)) h.1
          ∙ update_content-with_row time page');
      updates = update_row-Updates phase target sha time old;
    }

    commit_phase-Stored :
        Meets (Unchanged w0) (commit_phase env connection phase target sha) (λ _. StoredSome) Either
    unfolding commit_phase change
    commit_phase-Stored = Meets-then (Unchanged w0) _ _ (before _ (Quiet-sql env)) (
        Meets-bind (λ _. Unchanged w0) _ _ (before _ Quiet-draw)
          λ time. Meets-then (Unchanged w0) _ _ (before _ (Quiet-sql env)) (
            Meets-bind (λ _. Unchanged w0) _ _ (before _ Quiet-draw)
              λ page'. record {
                at = λ w h. (
                  update_row phase target sha (env.stamp time) old,
                  filled (env.stamp time) page' w h,
                );
              }))

    -- The SELECT reads the row that is stored.
    read_back :
        (read : JournalDb) (row : JournalRow) (w : World)
        → StoredSome w
        → as_journal (w.content connection) ≡ some read
        → first_singleton read.rows ≡ some row
        → StoredAs row w
    read_back read row w (new, h) reads first =
        let here : some (record db { rows = new ∷ [] }) ≡ some read =
          sym (ap as_journal h.stored) ∙ reads in
        let one : (new.singleton == 1) ≡ true = rw (h.updates.singleton_eq ∙ single) refl in
        let same : new ≡ row = some_injective (
          sym (if_true (some new) none one)
          ∙ ap (λ (d : JournalDb). first_singleton d.rows) (some_injective here)
          ∙ first) in
        subst (λ r. StoredAs r w) same h

    refresh_journal-Stored : Meets StoredSome (refresh_journal env connection) StoredAs Either
    unfolding refresh_journal
    refresh_journal-Stored =
        Meets-bind (λ read w. StoredSome w × (as_journal (w.content connection) ≡ some read)) _ _
          (Meets-errors (λ w h. inr h) (query_journal-reads env StoredSome-Quiet connection))
          λ read.
            Meets-or_raise (first_singleton read.rows) type_error (record { at = λ w h. inr h.0 })
              λ row w e h. read_back read row w h.0 h.1 e

    update_phase-Stored :
        Meets (Unchanged w0) (update_phase env connection phase target sha) StoredAs Either
    unfolding update_phase
    update_phase-Stored = Meets-then (Unchanged w0) _ _ (before _ (search quiet_rules)) (
        Meets-then (Unchanged w0) _ _ (before _ (Quiet-sql env)) (
          Meets-then StoredSome _ _
            (Meets-except_raise _ _ commit_phase-Stored (Meets-step Either-Quiet _ (Quiet-sql env))
              (λ w h. h))
            refresh_journal-Stored))

-- What is so after a run of `update_phase`, by how it has ended.
abbrev pub IsAtomic :
    ℕ
    → Phase
    → Option FilePath
    → Option String
    → JournalDb
    → JournalRow
    → World
    → Outcome JournalRow
    → World
    → Type 0
IsAtomic connection phase target sha db old w r w' =
    Post (Stored connection phase target sha db old w)
      (λ v.
        Unchanged w v ⊎ ((row : JournalRow) × Stored connection phase target sha db old w row v))
      r w'

-- On a journal with one row, where `update_phase` returns a row, this row is in the journal's file: it has
-- the phase, the staging file and hash that were given or else those that it had, and all other columns
-- but the time as before; and neither another file nor a directory entry has changed. However else it
-- ends, it is so for some row, or no file and no directory entry has changed.
pub update_phase-IsAtomic :
    (env : Env) (connection : ℕ) (phase : Phase) (target : Option FilePath) (sha : Option String)
    (db : JournalDb) (old : JournalRow) (page : ℕ) (w : World)
    → w.content connection ≡ with_row db old page
    → old.singleton ≡ 1
    → IsAtomic connection phase target sha db old w
        (update_phase env connection phase target sha w).0
        (update_phase env connection phase target sha w).1
update_phase-IsAtomic env connection phase target sha db old page w held single =
    (update_phase-Stored env connection phase target sha db old w page held single).at w
      (refl, refl)
