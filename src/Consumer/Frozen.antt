-- ===== src/Consumer/Frozen.antt =====
-- What a consumer is made of when scripts/prepare-ha-consumer.py returns.
use moon_mqtt_client.Base.{
  ℕ, Bool, true, false, ◌||◌, str_eq, ◌≡◌, refl, ◌∙◌, is_some, String, List, some, Bool-cases, inl,
  inr,
}
use moon_mqtt_client.Exec.{ok, pure, require, ◌>>=◌, ◌>>◌}
use moon_mqtt_client.Exec.Rules.{
  Meets, Meets-bind, Meets-then, Meets-assume, Meets-weaken, Meets-pure, Meets-ok,
}
use moon_mqtt_client.Consumer.{
  Workspace, Host, package_root, published_version, expected_main, SourceHash, expected_pkg, binary,
  parent, compile, check_package, copy_controller, write_manifest, main,
}
use moon_mqtt_client.Consumer.Steps.{
  NoWork, Any, after_then, checked, io-keeps, negated, reject-NoWork, read-found,
}
use moon_mqtt_client.Consumer.Copied.{
  package_file, IsPublished, IsCopied, frozen, Fetched, Made, check_package-Fetched,
  copy_controller-Made,
}

-- The names of the files that the final build finds and is to leave alone.
abbrev is_source : String → Bool
is_source name =
    str_eq name package_file
    || (str_eq name "controller/main.mbt" || str_eq name "controller/moon.pkg")

pub record IsFrozen (host : Host) (w : Workspace) : Type 0 where
  pub is_new : host.exists ≡ false
  pub isolated : NoWork host.has_work (parent host.location)
  pub published : IsPublished host w.file
  pub copied : IsCopied host w.file
  pub program : List ℕ
  pub program_at : w.file binary ≡ some program
  pub recorded :
      w.manifest
      ≡ some (record {
        dependency_name = package_root;
        dependency_version = published_version;
        controller_main = frozen expected_main;
        controller_pkg = frozen expected_pkg;
        binary_sha256 = host.sha256 program;
      })

module _ (host : Host) where
  -- What stands in the workspace at the end.
  Recorded : String × String → SourceHash × SourceHash → Workspace → Type 0
  Recorded dependency hashes w =
      (Made host) w
      × ((program : List ℕ) × (w.file binary ≡ some program)
          × (w.manifest
              ≡ some (record {
                dependency_name = dependency.0;
                dependency_version = dependency.1;
                controller_main = hashes.0;
                controller_pkg = hashes.1;
                binary_sha256 = host.sha256 program;
              })))

  write_manifest-Recorded :
      (dependency : String × String) (hashes : SourceHash × SourceHash)
      → Meets
          (Made host)
          (write_manifest host dependency hashes)
          (λ _. Recorded dependency hashes)
          Any
  unfolding write_manifest Recorded
  write_manifest-Recorded dependency hashes =
      Meets-bind (λ c w. (Made host) w × (w.file binary ≡ some c)) _ _
        (read-found (Made host) binary)
        λ c.
          Meets-then (λ w. (Made host) w × (w.file binary ≡ some c)) _ _ (io-keeps host _ 8)
            (record { at = λ w h. (h.0, (c, h.1, refl)) })

  module _
      (left_alone : (v : Workspace) (name : String) (content : List ℕ)
        → is_source name ≡ true
        → v.file name ≡ some content
        → (host.run 2 v).1.file name ≡ some content) where
    compile-Made : Meets (Made host) (compile host 2) (λ _. (Made host)) Any
    unfolding compile
    compile-Made = record {
      at = λ w h. elim (Bool-cases (host.run 2 w).0) [
        | inl e ↦ rw e (
          record {
            text = h.0.text;
            text_at = left_alone w _ h.0.text refl h.0.text_at;
            name_eq = h.0.name_eq;
            version_eq = h.0.version_eq;
          },
          record {
            main_source = h.1.main_source;
            main_at = left_alone w _ h.1.main_source refl h.1.main_at;
            main_hash = h.1.main_hash;
            pkg_source = h.1.pkg_source;
            pkg_at = left_alone w _ h.1.pkg_source refl h.1.pkg_at;
            pkg_hash = h.1.pkg_hash;
          },
        )
        | inr e ↦ rw e tt
      ];
    }

    -- From the check of the package on.
    from_package :
        host.exists ≡ false
        → NoWork host.has_work (parent host.location)
        → Meets {A = ℕ} Any
            (check_package host >>= λ dependency. copy_controller host >>= λ hashes.
              compile host 2
              >> ((λ w. (ok (is_some (w.file binary)), w)) >>= λ built.
                  require built "native controller executable was not produced"
                  >> (write_manifest host dependency hashes >> pure 0)))
            (λ _. IsFrozen host)
            Any
    unfolding Recorded
    from_package new isolated =
        Meets-bind (λ d w. (Fetched host) w × (d ≡ (package_root, published_version))) _ _
          (check_package-Fetched host)
          λ d.
            Meets-assume (d ≡ (package_root, published_version)) _ (λ w h. h.1)
              λ same_package.
                Meets-bind
                  (λ hashes w.
                    (Made host) w × (hashes ≡ (frozen expected_main, frozen expected_pkg)))
                  _ _ (Meets-weaken _ (λ w h. h.0) (λ _ w h. h) (copy_controller-Made host))
                  λ hashes.
                    Meets-assume (hashes ≡ (frozen expected_main, frozen expected_pkg)) _
                      (λ w h. h.1)
                      λ same_hashes.
                        Meets-then (Made host) _ _
                          (Meets-weaken _ (λ w h. h.0) (λ _ w h. h) compile-Made)
                          (Meets-bind (λ _. (Made host)) _ _ (record { at = λ w h. h })
                            λ built. checked built _ _ λ _.
                              Meets-then (Recorded d hashes) _ _ (write_manifest-Recorded d hashes)
                                (Meets-pure 0 (λ w h. record {
                                  is_new = new;
                                  isolated = isolated;
                                  published = h.0.0;
                                  copied = h.0.1;
                                  program = h.1.0;
                                  program_at = h.1.1;
                                  recorded = h.1.2 ∙ rw (same_package, same_hashes) refl;
                                })))

    finished : Meets Any (main host) (λ _. IsFrozen host) Any
    unfolding main
    finished = checked _ _ _ λ new.
        Meets-then (λ w. NoWork host.has_work (parent host.location)) _ _
          (reject-NoWork host.has_work (parent host.location))
          (Meets-assume (NoWork host.has_work (parent host.location)) _ (λ w h. h)
            λ isolated.
              Meets-weaken _ (λ w h. tt) (λ _ w h. h)
                (after_then _ _ (
                  after_then _ _ (
                    after_then _ _
                      (after_then _ _ (after_then _ _ (from_package (negated new) isolated)))))))

-- If the final build leaves the package's description and the controller's sources alone where they are,
-- then when `main` returns: the output directory did not exist, no moon.work is in a directory above it,
-- the package that was fetched has the published name and version, the controller's sources in the
-- consumer are those with the frozen hashes, and the manifest has them and the hash of the program that
-- is there.
pub main-IsFrozen :
    (host : Host) (w : Workspace) (code : ℕ)
    → ((v : Workspace) (name : String) (content : List ℕ)
        → is_source name ≡ true
        → v.file name ≡ some content
        → (host.run 2 v).1.file name ≡ some content)
    → (main host w).0 ≡ ok code
    → IsFrozen host (main host w).1
main-IsFrozen host w code left_alone h = Meets-ok (main host) (finished host left_alone) w tt h
