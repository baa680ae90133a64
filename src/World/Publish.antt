-- ===== src/World/Publish.antt =====
-- Publishing a file under a new name: scripts/durable_recovery.py, `publish_file_no_replace`.
use moon_mqtt_client.Base.{ℕ, Bool, false}
use moon_mqtt_client.Paths.{FilePath, path_eq, path_eq_refl}
use moon_mqtt_client.Exec.Rules.{
  IsPreorder, Step, Step-require, Step-bind, Step-then, Step-storage_as,
}
use moon_mqtt_client.World.{Env, World, call, publish_file_no_replace}
use moon_mqtt_client.World.Frame.{Quiet-call}
use moon_mqtt_client.World.Changes.{
  Frame, Frame-IsPreorder, Frame_of_Quiet, unlink-Frame, link_file-Frame,
}

module _ (env : Env) (staging destination : FilePath) where
  abbrev writes : ℕ → Bool
  writes i = false

  abbrev removes : FilePath → Bool
  removes p = path_eq staging p

  o : IsPreorder (Frame writes removes)
  o = Frame-IsPreorder writes removes

  called : Step (Frame writes removes) (call env)
  called = Frame_of_Quiet writes removes _ (Quiet-call env)

  publish-Frame : Step (Frame writes removes) (publish_file_no_replace env staging destination)
  unfolding publish_file_no_replace
  publish-Frame =
      Step-bind o _ _ (Step-storage_as _ _ (link_file-Frame env writes removes staging destination))
        λ created. Step-then o _ _ (Step-require o created _) (
          Step-then o _ _ called (
            Step-then o _ _ (unlink-Frame env writes removes staging (path_eq_refl staging))
              called))

-- However `publish_file_no_replace` ends, and even where another process creates the destination just
-- before the link, no file that was there is written and no directory entry but the staging file's is
-- removed or replaced: an existing destination stays.
pub publish_file_no_replace-Frame :
    (env : Env) (staging destination : FilePath) (w : World)
    → Frame (λ i. false) (path_eq staging) w (publish_file_no_replace env staging destination w).1
publish_file_no_replace-Frame env staging destination w =
    (publish-Frame env staging destination).at w
