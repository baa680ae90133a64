-- ===== src/Resolution/Completes/Publication.antt =====
-- The replacement is published in calls that work, whether it is still to be staged, staged or linked:
-- scripts/durable_recovery.py, `advance_resolution`.
use Prim.Native.String.{◌++◌ as ◌<>◌}
use package.text.Mathlib.Text.{starts_with}
use moon_mqtt_client.Base.{
  ℕ, String, Bool, true, false, ◌&&◌, ◌≡◌, refl, none, str_eq, str_eq_refl, inl, inr, if◌then◌else◌,
  ==_refl,
}
use moon_mqtt_client.Paths.{FilePath}
use moon_mqtt_client.Phase.{Phase, replacement_published, in_phases, JournalRow}
use moon_mqtt_client.Request.{Request}
use moon_mqtt_client.Exec.{pure, ◌>>=◌, ◌>>◌}
use moon_mqtt_client.Exec.Rules.{
  Meets, Meets-bind, Meets-then, Meets-pure, Meets-weaken, Meets-assume,
}
use moon_mqtt_client.Exec.Gives.{Gives-require, Meets-gives, Meets-gives_then, Meets-of_gives}
use moon_mqtt_client.World.{Env, World, Content, change, call, follow, lexists, unlink}
use moon_mqtt_client.World.Frame.{Quiet}
use moon_mqtt_client.World.Calm.{calm, Gives-call, Gives-gets, Gives-existing_path}
use moon_mqtt_client.Effects.Staging.{IsStage}
use moon_mqtt_client.Journal.{update_phase}
use moon_mqtt_client.Journal.Completes.{At, At-Quiet, update_phase-At}
use moon_mqtt_client.Replacement.{same_inode}
use moon_mqtt_client.Replacement.Completes.{IsStage-apart}
use moon_mqtt_client.Resolution.{check_published, restage, publish_target, publish_from}
use moon_mqtt_client.Resolution.Completes.Stations.{
  Cooperates, Recorded, new_digest, Clear-keep, Staged-keep, Linked-keep, Published-keep,
  Published-refill,
}
use moon_mqtt_client.Resolution.Completes.States.{
  ClearAs, StagedIn, LinkedIn, PublishedIn, Ready, LinkedAt, PublishedRow, IsPublishable, staged,
  linked, lost,
}
use moon_mqtt_client.Resolution.Completes.Staging.{
  stage_replacement-Ready, link_target-Linked, Gives-verify_target, Gives-digest, sha_known,
}

module _ (env : Env) (request : Request) (source connection : ℕ) (identity : String)
    (works : Cooperates env request) where
  pub published_update :
      (i page : ℕ) (j : JournalRow) (q : Phase) {E : World → Type 0}
      → in_phases q ≡ true
      → j.target_identity ≡ identity
      → Meets
          (At (PublishedIn env request connection identity i page) j)
          (update_phase (calm env) connection q none none)
          (PublishedRow env request connection identity q)
          E
  published_update i page j q known same =
      Meets-weaken _ (λ w k. k)
        (λ row w k. record {
          i = i;
          page = page;
          at_row = k.0;
          identity_eq = rw k.1.updated same;
          phase_is = rw k.1.updated refl;
        })
        (update_phase-At env connection (PublishedIn env request connection identity i page)
          (Published-keep request.target connection identity i page) (λ c w k. k.held)
          (Published-refill request.target connection identity i page) j q none none known)

  -- The staging file's name is removed, and the phase is recorded.
  finished :
      (p : FilePath) {E : World → Type 0}
      → Meets
          (LinkedAt env request connection identity p)
          (unlink (calm env) p
            >> (call (calm env)
                >> update_phase (calm env) connection replacement_published none none))
          (PublishedRow env request connection identity replacement_published)
          E
  unfolding unlink change
  finished p = record {
    at = λ w h.
        let still =
          At-Quiet (LinkedIn env request connection identity p h.i h.page) h.row
            (Linked-keep request.target connection p identity h.i h.page) in
        let kept =
          At-Quiet (PublishedIn env request connection identity h.i h.page) h.row
            (Published-keep request.target connection identity h.i h.page) in
        (Meets-then (At (PublishedIn env request connection identity h.i h.page) h.row)
            (unlink (calm env) p) _
            (Meets-gives_then _ _ tt (Gives-call env still) (record {
              at = λ v k. record {
                content = k.content;
                here = record {
                  placed = record {
                    at_entry =
                        rw (IsStage-apart request.target p k.here.named) k.here.placed.at_entry;
                    at_content = k.here.placed.at_content;
                  };
                  apart = k.here.apart;
                  held = k.here.held;
                };
                is_row = k.is_row;
              };
            }))
            (Meets-gives_then _ _ tt (Gives-call env kept)
              (published_update h.i h.page h.row replacement_published refl h.identity_eq))).at
          w h.at_row;
  }

  -- What `check_published` compares.
  same_file :
      (p : FilePath) (i page : ℕ) (c : Content) (w : World)
      → LinkedIn env request connection identity p i page c w
      → (if lexists p w
          then same_inode (follow w (w.entry p)) (follow w (w.entry request.target))
          else true)
        ≡ true
  same_file p i page c w h = elim h.staging [
    | inl e ↦ rw (e, h.placed.at_entry, follow) (rw h.placed.at_content (==_refl i))
    | inr e ↦ rw e refl
  ]

  module _ (p : FilePath) (i page : ℕ) (j : JournalRow)
      (r : Recorded j p identity (new_digest env identity page)) where
    abbrev Here : World → Type 0
    Here = At (LinkedIn env request connection identity p i page) j

    keep : (w w' : World) → Quiet w w' → Here w → Here w'
    keep = At-Quiet _ j (Linked-keep request.target connection p identity i page)

    check_published-Linked :
        {E : World → Type 0}
        → Meets Here
            (check_published (calm env) request source connection p j)
            (λ _. LinkedAt env request connection identity p)
            E
    unfolding check_published
    check_published-Linked {E} =
        Meets-gives_then _ _ tt
          (Gives-verify_target env request source connection identity Here keep request.target i
            page (λ w h. h.here.placed) _ true r.identity_eq)
          (Meets-gives _ _ (new_digest env identity page)
            (Gives-digest env request source connection identity Here keep request.target i page
              (λ w h. h.here.placed))
            (Meets-gives_then _ _ tt
              (Gives-require _ _
                (sha_known env request source connection identity works p i page j r))
              (Meets-bind (λ b w. Here w × (b ≡ lexists p w)) _ _ (record { at = λ w h. (h, refl) })
                λ b.
                  Meets-bind (λ s w. Here w × ((if b then s else true) ≡ true)) _ _
                    (record {
                      at = λ w h. (h.0, rw h.1 (same_file p i page h.0.content w h.0.here));
                    })
                    λ s.
                      Meets-assume ((if b then s else true) ≡ true) _ (λ w h. h.1)
                        λ e. Meets-of_gives _ tt (Gives-require _ _ e) (λ w h. record {
                          i = i;
                          page = page;
                          row = j;
                          at_row = h.0;
                          identity_eq = r.identity_eq;
                        }))))

  module _ (p : FilePath) (j : JournalRow) where
    -- The file is linked, from a state in which `restage` finds or makes it.
    linked_after :
        (P : World → Type 0) {E : World → Type 0}
        → Meets P
            (restage (calm env) request source connection p j)
            (λ r. Ready env request connection identity r.0 r.1)
            E
        → Meets P
            (publish_target (calm env) request source connection p j)
            (λ stage. LinkedAt env request connection identity stage)
            E
    unfolding publish_target
    linked_after P km =
        Meets-bind (λ r. Ready env request connection identity r.0 r.1) _ _ km
          λ r.
            Meets-then (LinkedAt env request connection identity r.0) _ _
              (record {
                at = λ w h.
                    (link_target-Linked env request source connection identity works r.0 h.i h.page
                        r.1 h.recorded).at
                      w h.at_row;
              })
              (Meets-pure r.0 (λ w h. h))

    restage-Staged :
        (i page : ℕ) {E : World → Type 0}
        → Recorded j p identity (new_digest env identity page)
        → Meets
            (At (StagedIn env request connection identity p i page) j)
            (restage (calm env) request source connection p j)
            (λ r. Ready env request connection identity r.0 r.1)
            E
    unfolding restage
    restage-Staged i page r =
        let still = At-Quiet _ j (Staged-keep request.target connection p identity i page) in
        Meets-gives _ _ true (Gives-gets env still _ _ (λ w h. rw h.here.placed.at_entry refl)) (
          Meets-gives _ _ p
            (Gives-existing_path env still p i (λ w h. h.here.placed.at_entry)
              "replacement staging file" (λ w h. rw h.here.placed.at_content refl))
            (Meets-pure {A = FilePath × JournalRow} (p, j)
              (λ w h. record { i = i; page = page; at_row = h; recorded = r })))

    abbrev Lost : World → Type 0
    Lost w = At (ClearAs env request connection identity) j w × (w.entry p ≡ none)

    Lost-Quiet : (w w' : World) → Quiet w w' → Lost w → Lost w'
    Lost-Quiet w w' q h =
        (At-Quiet _ j (Clear-keep env request.target connection) w w' q h.0, rw q.entry_eq h.1)

    restage-Lost :
        {E : World → Type 0}
        → j.target_identity ≡ identity
        → Meets Lost
            (restage (calm env) request source connection p j)
            (λ r. Ready env request connection identity r.0 r.1)
            E
    unfolding restage
    restage-Lost same = Meets-gives _ _ false (Gives-gets env Lost-Quiet _ _ (λ w h. rw h.1 refl)) (
        Meets-weaken _ (λ w h. h.0) (λ r w h. h)
          (stage_replacement-Ready env request source connection identity j same))

    named_test :
        IsStage request.target p
        → (str_eq p.dir request.target.dir
            && starts_with p.name ("." <> (request.target.name <> ".recovery-")))
          ≡ true
    named_test named = rw (named.0, named.1) (rw (str_eq_refl request.target.dir) refl)

    -- The block from the staging path, by whether the target is there.
    publish_from-PublishedRow :
        (P : World → Type 0) (b : Bool) {E : World → Type 0}
        → ((w w' : World) → Quiet w w' → P w → P w')
        → IsStage request.target p
        → ((w : World) → P w → lexists request.target w ≡ b)
        → Meets P
            (if b
              then check_published (calm env) request source connection p j >>= (λ _. pure p)
              else publish_target (calm env) request source connection p j)
            (λ stage. LinkedAt env request connection identity stage)
            E
        → Meets P
            (publish_from (calm env) request source connection p j)
            (PublishedRow env request connection identity replacement_published)
            E
    unfolding publish_from
    publish_from-PublishedRow P b still named there km =
        Meets-gives_then _ _ tt (Gives-require _ _ (named_test named)) (
          Meets-gives _ _ b (Gives-gets env still _ _ there) (
            Meets-bind (λ stage. LinkedAt env request connection identity stage) _ _ km
              λ stage. finished stage))

    pub publish_from-Publishable :
        {E : World → Type 0}
        → Meets
            (IsPublishable env request connection identity p j)
            (publish_from (calm env) request source connection p j)
            (PublishedRow env request connection identity replacement_published)
            E
    publish_from-Publishable = record {
      at = λ w h. elim h [
        | staged i page k r ↦
            (publish_from-PublishedRow _ false
                (At-Quiet _ j (Staged-keep request.target connection p identity i page))
                k.here.named (λ v q. rw q.here.vacant refl)
                (linked_after _ (restage-Staged i page r))).at
              w k
        | linked i page k r ↦
            (publish_from-PublishedRow _ true
                (At-Quiet _ j (Linked-keep request.target connection p identity i page))
                k.here.named (λ v q. rw q.here.placed.at_entry refl)
                (Meets-bind (λ _. LinkedAt env request connection identity p) _ _
                  (check_published-Linked p i page j r) (λ _. Meets-pure p (λ v q. q)))).at
              w k
        | lost k gone named same ↦
            (publish_from-PublishedRow Lost false Lost-Quiet named (λ v q. rw q.0.here.vacant refl)
                (linked_after _ (restage-Lost same))).at
              w (k, gone)
      ];
    }
