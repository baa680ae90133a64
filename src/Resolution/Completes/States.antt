-- ===== src/Resolution/Completes/States.antt =====
-- The states of the journal's row from which a resolution goes on: scripts/durable_recovery.py,
-- `advance_resolution`.
use moon_mqtt_client.Base.{ℕ, String, ◌≡◌, none, some, arith}
use moon_mqtt_client.Paths.{FilePath}
use moon_mqtt_client.Base.{◌≤◌}
use moon_mqtt_client.Phase.{
  Phase, rank, replacement_ready, replacement_published, complete, JournalRow,
}
use moon_mqtt_client.Journal.Completes.{At, At-Quiet}
use moon_mqtt_client.Request.{Request}
use moon_mqtt_client.World.{Env, World, Content}
use moon_mqtt_client.World.Frame.{Quiet}
use moon_mqtt_client.Effects.Staging.{IsStage}
use moon_mqtt_client.Replacement.Completes.{Clear}
use moon_mqtt_client.Resolution.Completes.Stations.{
  Linked, Published, Recorded, new_digest, StagedAs, Clear-keep, Staged-keep, Linked-keep,
  Published-keep,
}

-- The states of a journal's row and of the world.
module _ (env : Env) (request : Request) (connection : ℕ) (identity : String) where
  abbrev pub ClearAs : Content → World → Type 0
  ClearAs = Clear env request.target connection

  abbrev pub StagedIn : FilePath → ℕ → ℕ → Content → World → Type 0
  StagedIn p i page = StagedAs request.target connection p identity i page

  abbrev pub LinkedIn : FilePath → ℕ → ℕ → Content → World → Type 0
  LinkedIn p i page = Linked request.target connection p identity i page

  -- The staging file `p` is recorded and not yet linked.
  pub record Ready (p : FilePath) (j : JournalRow) (w : World) : Type 0 where
    pub i : ℕ
    pub page : ℕ
    pub at_row : At (StagedIn p i page) j w
    pub recorded : Recorded j p identity (new_digest env identity page)

  -- Another link is at the target: what the row says of it.
  pub record LinkedAt (p : FilePath) (w : World) : Type 0 where
    pub i : ℕ
    pub page : ℕ
    pub row : JournalRow
    pub at_row : At (LinkedIn p i page) row w
    pub identity_eq : row.target_identity ≡ identity

  abbrev pub PublishedIn : ℕ → ℕ → Content → World → Type 0
  PublishedIn i page = Published request.target connection identity i page

  -- The target is published, and the journal's row is `row`.
  pub record PublishedRow (q : Phase) (row : JournalRow) (w : World) : Type 0 where
    pub i : ℕ
    pub page : ℕ
    pub at_row : At (PublishedIn i page) row w
    pub identity_eq : row.target_identity ≡ identity
    pub phase_is : row.phase ≡ q

  -- The journal's row is `j`, with a rank of `n` to 5, and nothing of the target is there.
  pub record Early (n : ℕ) (j : JournalRow) (w : World) : Type 0 where
    pub at_row : At ClearAs j w
    pub from : n ≤ rank j.phase
    pub below : rank j.phase ≤ 5
    pub identity_eq : j.target_identity ≡ identity

  -- The staging file of a row: linked or not, or gone before it was linked.
  pub data IsPublishable (p : FilePath) (j : JournalRow) (w : World) : Type 0 where
    staged :
        (i page : ℕ)
        → At (StagedIn p i page) j w
        → Recorded j p identity (new_digest env identity page)
        → IsPublishable p j w
    linked :
        (i page : ℕ)
        → At (LinkedIn p i page) j w
        → Recorded j p identity (new_digest env identity page)
        → IsPublishable p j w
    lost :
        At (ClearAs) j w
        → w.entry p ≡ none
        → IsStage request.target p
        → j.target_identity ≡ identity
        → IsPublishable p j w

  -- The row records a staging file.
  pub record Publishable (j : JournalRow) (w : World) : Type 0 where
    pub p : FilePath
    pub is_staged : j.staged_target ≡ some p
    pub phase_is : j.phase ≡ replacement_ready
    pub state : IsPublishable p j w

  -- Where a run may start: at any phase after the source's retirement.
  pub data IsResumable (j : JournalRow) (w : World) : Type 0 where
    early : Early 1 j w → IsResumable j w
    publishing : Publishable j w → IsResumable j w
    published : PublishedRow replacement_published j w → IsResumable j w
    completed : PublishedRow complete j w → IsResumable j w

  pub IsResumable-rank : (j : JournalRow) (w : World) → IsResumable j w → 1 ≤ rank j.phase
  IsResumable-rank j w (early h) = h.from
  IsResumable-rank j w (publishing h) = rw h.phase_is (omega arith)
  IsResumable-rank j w (published h) = rw h.phase_is (omega arith)
  IsResumable-rank j w (completed h) = rw h.phase_is (omega arith)

  IsPublishable-Quiet :
      (p : FilePath) (j : JournalRow) (w w' : World)
      → Quiet w w'
      → IsPublishable p j w
      → IsPublishable p j w'
  IsPublishable-Quiet p j w w' q (staged i page h r) =
      staged i page
        (At-Quiet _ j (Staged-keep request.target connection p identity i page) w w' q h) r
  IsPublishable-Quiet p j w w' q (linked i page h r) =
      linked i page
        (At-Quiet _ j (Linked-keep request.target connection p identity i page) w w' q h) r
  IsPublishable-Quiet p j w w' q (lost h gone named same) =
      lost (At-Quiet _ j (Clear-keep env request.target connection) w w' q h) (rw q.entry_eq gone)
        named same

  Publishable-Quiet :
      (j : JournalRow) (w w' : World) → Quiet w w' → Publishable j w → Publishable j w'
  Publishable-Quiet j w w' q h = record {
    p = h.p;
    is_staged = h.is_staged;
    phase_is = h.phase_is;
    state = IsPublishable-Quiet h.p j w w' q h.state;
  }

  PublishedRow-Quiet :
      (phase : Phase) (j : JournalRow) (w w' : World)
      → Quiet w w'
      → PublishedRow phase j w
      → PublishedRow phase j w'
  PublishedRow-Quiet phase j w w' q h = record {
    i = h.i;
    page = h.page;
    at_row =
        At-Quiet _ j (Published-keep request.target connection identity h.i h.page) w w' q h.at_row;
    identity_eq = h.identity_eq;
    phase_is = h.phase_is;
  }

  pub IsResumable-Quiet :
      (j : JournalRow) (w w' : World) → Quiet w w' → IsResumable j w → IsResumable j w'
  IsResumable-Quiet j w w' q (early h) = early (record {
    at_row = At-Quiet _ j (Clear-keep env request.target connection) w w' q h.at_row;
    from = h.from;
    below = h.below;
    identity_eq = h.identity_eq;
  })
  IsResumable-Quiet j w w' q (publishing h) = publishing (Publishable-Quiet j w w' q h)
  IsResumable-Quiet j w w' q (published h) =
      published (PublishedRow-Quiet replacement_published j w w' q h)
  IsResumable-Quiet j w w' q (completed h) = completed (PublishedRow-Quiet complete j w w' q h)
