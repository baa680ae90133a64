-- ===== src/Resolution/Completes/Staging.antt =====
-- The replacement is staged, and linked under the target's name, in calls that work:
-- scripts/durable_recovery.py, `advance_resolution`.
use moon_mqtt_client.Base.{
  ℕ, String, Bool, true, not, ◌≡◌, refl, sym, some, arith, str_eq_refl, inl, subst,
}
use moon_mqtt_client.Paths.{FilePath, path_eq_refl}
use moon_mqtt_client.Phase.{replacement_ready, JournalRow}
use moon_mqtt_client.Request.{Request}
use moon_mqtt_client.Exec.{when, ◌>>◌}
use moon_mqtt_client.Exec.Rules.{Post, Meets, Meets-bind, Meets-pure, Meets-weaken, Meets-assume}
use moon_mqtt_client.Exec.Gives.{
  Gives, Gives-pure, Gives-require, Meets-gives, Meets-gives_then, Meets-of_gives,
}
use moon_mqtt_client.World.{Env, World, Content, call, link_file, maybe_fail, str_is, sha256_file}
use moon_mqtt_client.World.Frame.{Quiet, Quiet-sha256_file}
use moon_mqtt_client.World.Calm.{calm, link_file_lem, Gives-call, Gives-within, Gives-maybe_fail}
use moon_mqtt_client.Reads.{Quiet-verify_target}
use moon_mqtt_client.Journal.{update_phase}
use moon_mqtt_client.Journal.Completes.{At, At-Quiet, update_phase-At}
use moon_mqtt_client.Replacement.{create_replacement, verify_target}
use moon_mqtt_client.Replacement.Placed.{Placed, whole, hashed}
use moon_mqtt_client.Replacement.Completes.{Built, create_replacement-Built}
use moon_mqtt_client.Resolution.{stage_replacement, link_target, check_raced}
use moon_mqtt_client.Resolution.Completes.Stations.{
  Cooperates, Recorded, new_digest, Staged-keep, Staged-refill, Linked-keep,
}
use moon_mqtt_client.Resolution.Completes.States.{ClearAs, StagedIn, LinkedIn, Ready, LinkedAt}

module _ (env : Env) (request : Request) (source connection : ℕ) (identity : String) where
  recorded_stage :
      (p : FilePath) (i page : ℕ) (sha : String) (j : JournalRow) {E : World → Type 0}
      → j.target_identity ≡ identity
      → sha ≡ new_digest env identity page
      → Meets
          (At (StagedIn env request connection identity p i page) j)
          (update_phase (calm env) connection replacement_ready (some p) (some sha))
          (Ready env request connection identity p)
          E
  recorded_stage p i page sha j same hash =
      Meets-weaken _ (λ w k. k)
        (λ row w k. record {
          i = i;
          page = page;
          at_row = k.0;
          recorded = record {
            phase = rw k.1.updated refl;
            staged_target = rw k.1.updated refl;
            staged_sha = rw (k.1.updated, hash) refl;
            identity_eq = rw k.1.updated same;
          };
        })
        (update_phase-At env connection (StagedIn env request connection identity p i page)
          (Staged-keep request.target connection p identity i page) (λ c w k. k.held)
          (Staged-refill request.target connection p identity i page) j replacement_ready (some p)
          (some sha) refl)

  created :
      (c : Content) (t : String) {E : World → Type 0}
      → t ≡ identity
      → Meets
          (ClearAs env request connection identity c)
          (create_replacement (calm env) request.target t)
          (Built env request.target connection c identity)
          E
  created c t same = rw same (create_replacement-Built env request.target connection c identity)

  pub stage_replacement-Ready :
      (j : JournalRow) {E : World → Type 0}
      → j.target_identity ≡ identity
      → Meets
          (At (ClearAs env request connection identity) j)
          (stage_replacement (calm env) request source connection j)
          (λ r. Ready env request connection identity r.0 r.1)
          E
  unfolding stage_replacement
  stage_replacement-Ready j same = record {
    at = λ w h.
        (Meets-bind (λ r v. Built env request.target connection h.content identity r v) _ _
            (created h.content j.target_identity same)
            (λ r.
              Meets-bind (λ row v. Ready env request connection identity r.0 row v) _ _
                (record {
                  at = λ v b.
                      (recorded_stage r.0 b.0 b.1 r.1 j same b.3).at v
                        (record { content = h.content; here = b.2; is_row = h.is_row });
                })
                (λ j'. Meets-pure {A = FilePath × JournalRow} (r.0, j') (λ v k. k)))).at
          w h.here;
  }

  -- The checks of the new store at a name, from a state that has it there.
  module _ (P : World → Type 0) (keep : (w w' : World) → Quiet w w' → P w → P w') (p : FilePath)
      (i page : ℕ) (placed : (w : World) → P w → Placed p identity i page w) where
    pub Gives-verify_target :
        (t : String) (require_empty : Bool)
        → t ≡ identity
        → Gives P (verify_target (calm env) p t require_empty) tt
    Gives-verify_target t require_empty same = rw same (
        Gives-within env keep _ tt placed (Quiet-verify_target (calm env) p identity require_empty)
          (whole env p identity i page require_empty))

    pub Gives-digest : Gives P (sha256_file (calm env) p) (new_digest env identity page)
    Gives-digest =
        Gives-within env keep _ _ placed (Quiet-sha256_file (calm env) p)
          (hashed env p identity i page)

  link_file-Linked :
      (p : FilePath) (i page : ℕ) (j : JournalRow) {E : World → Type 0}
      → Meets
          (At (StagedIn env request connection identity p i page) j)
          (link_file (calm env) p request.target)
          (λ b w. At (LinkedIn env request connection identity p i page) j w × (b ≡ true))
          E
  link_file-Linked p i page j {E} = record {
    at = λ w h.
        subst
          (λ r.
            Post (λ b v. At (LinkedIn env request connection identity p i page) j v × (b ≡ true)) E
              r.0 r.1)
          (sym (link_file_lem env p request.target i w h.here.placed.at_entry h.here.vacant))
          (
            record {
              content = h.content;
              here = record {
                placed = record {
                  at_entry = rw (path_eq_refl request.target) refl;
                  at_content = h.here.placed.at_content;
                };
                staging = inl (ground (arith, h.here.placed.at_entry));
                apart = h.here.apart;
                named = h.here.named;
                held = h.here.held;
              };
              is_row = h.is_row;
            },
            refl,
          );
  }

  module _ (works : Cooperates env request) (p : FilePath) (i page : ℕ) (j : JournalRow) where
    staged_keep :
        (w w' : World)
        → Quiet w w'
        → At (StagedIn env request connection identity p i page) j w
        → At (StagedIn env request connection identity p i page) j w'
    staged_keep =
        At-Quiet (StagedIn env request connection identity p i page) j
          (Staged-keep request.target connection p identity i page)

    linked_keep :
        (w w' : World)
        → Quiet w w'
        → At (LinkedIn env request connection identity p i page) j w
        → At (LinkedIn env request connection identity p i page) j w'
    linked_keep =
        At-Quiet (LinkedIn env request connection identity p i page) j
          (Linked-keep request.target connection p identity i page)

    pub sha_known :
        Recorded j p identity (new_digest env identity page)
        → str_is (new_digest env identity page) j.staged_target_sha256 ≡ true
    sha_known r = rw r.staged_sha (str_eq_refl (new_digest env identity page))

    -- What follows the link.
    fsynced :
        {E : World → Type 0}
        → Recorded j p identity (new_digest env identity page)
        → (b : Bool) → b ≡ true
        → Meets
            (At (LinkedIn env request connection identity p i page) j)
            (when (not b) (check_raced (calm env) request source connection j)
              >> (call (calm env) >> maybe_fail (calm env) "after_target_publish"))
            (λ _. LinkedAt env request connection identity p)
            E
    unfolding when
    fsynced r b e = rw e (
        Meets-gives_then _ _ tt (Gives-pure tt) (
          Meets-gives_then _ _ tt (Gives-call env linked_keep) (
            Meets-of_gives _ tt
              (Gives-maybe_fail env linked_keep "after_target_publish" works.unset)
              (λ w h. record {
                i = i;
                page = page;
                row = j;
                at_row = h;
                identity_eq = r.identity_eq;
              }))))

    pub link_target-Linked :
        {E : World → Type 0}
        → Recorded j p identity (new_digest env identity page)
        → Meets
            (At (StagedIn env request connection identity p i page) j)
            (link_target (calm env) request source connection p j)
            (λ _. LinkedAt env request connection identity p)
            E
    unfolding link_target
    link_target-Linked r =
        Meets-gives_then _ _ tt
          (Gives-verify_target (At (StagedIn env request connection identity p i page) j)
            staged_keep p i page (λ w h. h.here.placed) _ true r.identity_eq)
          (Meets-gives _ _ (new_digest env identity page)
            (Gives-digest (At (StagedIn env request connection identity p i page) j) staged_keep p i
              page (λ w h. h.here.placed))
            (Meets-gives_then _ _ tt (Gives-require _ _ (sha_known r)) (
              Meets-bind
                (λ b w. At (LinkedIn env request connection identity p i page) j w × (b ≡ true)) _ _
                (link_file-Linked p i page j)
                λ b.
                  Meets-assume (b ≡ true) _ (λ w h. h.1)
                    λ e. Meets-weaken _ (λ w h. h.0) (λ _ w h. h) (fsynced r b e))))
