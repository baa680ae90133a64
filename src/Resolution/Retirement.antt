-- ===== src/Resolution/Retirement.antt =====
-- What a run of `advance_resolution`, scripts/durable_recovery.py, leaves in the source's file.
use moon_mqtt_client.Base.{ℕ, ◌≤◌, ◌<◌, ◌==◌, Bool, false, ◌≡◌, ◌⊎◌}
use moon_mqtt_client.Paths.{FilePath}
use moon_mqtt_client.Phase.{JournalRow}
use moon_mqtt_client.Request.{Request}
use moon_mqtt_client.World.{Env, World}
use moon_mqtt_client.World.Changes.{Frame}
use moon_mqtt_client.Source.{retire_content}
use moon_mqtt_client.Resolution.Isolation.{is_stage}

-- The source's file holds what it held, or that with the row of the old identity retired.
abbrev pub KeptOrRetired : ℕ → JournalRow → World → World → Type 0
KeptOrRetired source j w w' =
    (w'.content source ≡ w.content source)
    ⊎ ((page : ℕ) × (w'.content source
          ≡ retire_content j.old_identity j.retired_identity page (w.content source)))

module _ (env : Env) (request : Request) (source connection : ℕ) (j : JournalRow) (w0 : World)
    (in_use : source < w0.fresh) (apart : (connection == source) ≡ false) where
  abbrev writes : ℕ → Bool
  writes i = i == connection

  abbrev removes : FilePath → Bool
  removes = is_stage request.target

  abbrev Kept : World → Type 0
  Kept w = (w0.fresh ≤ w.fresh) × (w.content source ≡ w0.content source)

  abbrev Either : World → Type 0
  Either w = (w0.fresh ≤ w.fresh) × KeptOrRetired source j w0 w
