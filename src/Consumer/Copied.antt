-- ===== src/Consumer/Copied.antt =====
-- The package that scripts/prepare-ha-consumer.py checks and the sources that it copies.
use Prim.Native.String.{◌++◌ as ◌<>◌}
use moon_mqtt_client.Base.{ℕ, ◌≡◌, refl, ◌∙◌, sym, ap, String, List, Option, some, str_eq_iff}
use moon_mqtt_client.Exec.Rules.{
  Meets, Meets-bind, Meets-then, Meets-weaken, Meets-pure, Meets-or_raise, Meets-refuse,
}
use moon_mqtt_client.Consumer.{
  Workspace, Host, package_root, published_version, expected_main, SourceHash, copy2, fetched,
  fetched_main, fetched_pkg, expected_pkg, write, check_package, copy_controller,
}
use moon_mqtt_client.Consumer.Steps.{Any, after, checked, io-keeps, and_left, and_right, read-found}

-- The description of the package that was fetched.
abbrev pub package_file : String
package_file = fetched <> "/moon.mod"

-- The description of the package has the published name and version.
pub record IsPublished (host : Host) (file : String → Option (List ℕ)) : Type 0 where
  pub text : List ℕ
  pub text_at : file package_file ≡ some text
  pub name_eq : host.search "name" text ≡ some package_root
  pub version_eq : host.search "version" text ≡ some published_version

-- The controller's sources have the frozen hashes.
pub record IsCopied (host : Host) (file : String → Option (List ℕ)) : Type 0 where
  pub main_source : List ℕ
  pub main_at : file "controller/main.mbt" ≡ some main_source
  pub main_hash : host.sha256 main_source ≡ expected_main
  pub pkg_source : List ℕ
  pub pkg_at : file "controller/moon.pkg" ≡ some pkg_source
  pub pkg_hash : host.sha256 pkg_source ≡ expected_pkg

-- The hash that was found is the one that was expected.
abbrev pub frozen : String → SourceHash
frozen sha = record { fetched_mooncakes = sha; expected_r8 = sha }

module _ (host : Host) where
  abbrev pub Fetched : Workspace → Type 0
  Fetched w = IsPublished host w.file

  abbrev pub Made : Workspace → Type 0
  Made w = IsPublished host w.file × IsCopied host w.file

  pub check_package-Fetched :
      Meets Any
        (check_package host)
        (λ d w. Fetched w × (d ≡ (package_root, published_version)))
        Any
  unfolding check_package
  check_package-Fetched = after _ _ λ there. checked there _ _ λ _.
      Meets-bind (λ text w. Any w × (w.file package_file ≡ some text)) _ _
        (read-found Any package_file)
        λ text.
          Meets-bind
            (λ name w. (w.file package_file ≡ some text) × (host.search "name" text ≡ some name)) _
            _ (Meets-or_raise _ _ (Meets-refuse _ (λ w h. tt)) (λ name w e h. (h.1, e)))
            λ name. checked _ _ _ λ is_name.
              Meets-bind
                (λ version w.
                  ((w.file package_file ≡ some text) × (host.search "name" text ≡ some name))
                  × (host.search "version" text ≡ some version))
                _ _ (Meets-or_raise _ _ (Meets-refuse _ (λ w h. tt)) (λ version w e h. (h, e)))
                λ version. checked _ _ _ λ is_version.
                  let same_name = (str_eq_iff name package_root).0 is_name in
                  let same_version = (str_eq_iff version published_version).0 is_version in
                  Meets-pure (name, version)
                    (λ w h. (
                      record {
                        text = text;
                        text_at = h.0.0;
                        name_eq = h.0.1 ∙ ap some same_name;
                        version_eq = h.1 ∙ ap some same_version;
                      },
                      rw (same_name, same_version) refl,
                    ))

  -- The sources that were read, and where they are.
  Sources : List ℕ → List ℕ → Workspace → Type 0
  Sources m p w = Fetched w × (w.file fetched_main ≡ some m) × (w.file fetched_pkg ≡ some p)

  copied_main :
      (m p : List ℕ)
      → Meets
          (Sources m p)
          (copy2 host 6 fetched_main "controller/main.mbt")
          (λ _ w. Sources m p w × (w.file "controller/main.mbt" ≡ some m))
          Any
  unfolding copy2 write Sources
  copied_main m p = Meets-then (Sources m p) _ _ (io-keeps host _ 6) (
      Meets-bind (λ c w. Sources m p w × (w.file fetched_main ≡ some c)) _ _
        (read-found (Sources m p) fetched_main)
        λ c. record {
          at = λ w h. (
            (
              record {
                text = h.0.0.text;
                text_at = h.0.0.text_at;
                name_eq = h.0.0.name_eq;
                version_eq = h.0.0.version_eq;
              },
              h.0.1,
              h.0.2,
            ),
            sym h.1 ∙ h.0.1,
          );
        })

  copied_pkg :
      (m p : List ℕ)
      → host.sha256 m ≡ expected_main
      → host.sha256 p ≡ expected_pkg
      → Meets
          (λ w. Sources m p w × (w.file "controller/main.mbt" ≡ some m))
          (copy2 host 7 fetched_pkg "controller/moon.pkg")
          (λ _. Made)
          Any
  unfolding copy2 write Sources
  copied_pkg m p hm hp =
      let Before = λ (w : Workspace). Sources m p w × (w.file "controller/main.mbt" ≡ some m) in
      Meets-then Before _ _ (io-keeps host _ 7) (
        Meets-bind (λ c w. Before w × (w.file fetched_pkg ≡ some c)) _ _
          (read-found Before fetched_pkg)
          λ c. record {
            at = λ w h. (
              record {
                text = h.0.0.0.text;
                text_at = h.0.0.0.text_at;
                name_eq = h.0.0.0.name_eq;
                version_eq = h.0.0.0.version_eq;
              },
              record {
                main_source = m;
                main_at = h.0.1;
                main_hash = hm;
                pkg_source = p;
                pkg_at = sym h.1 ∙ h.0.0.2;
                pkg_hash = hp;
              },
            );
          })

  pub copy_controller-Made :
      Meets Fetched
        (copy_controller host)
        (λ hashes w. Made w × (hashes ≡ (frozen expected_main, frozen expected_pkg)))
        Any
  unfolding copy_controller Sources
  copy_controller-Made = Meets-then Fetched _ _ (io-keeps host Fetched 5) (
      Meets-bind (λ m w. Fetched w × (w.file fetched_main ≡ some m)) _ _
        (read-found Fetched fetched_main)
        λ m.
          Meets-bind
            (λ p w. (Fetched w × (w.file fetched_main ≡ some m)) × (w.file fetched_pkg ≡ some p)) _
            _ (read-found _ fetched_pkg)
            λ p. checked _ _ _ λ e.
              let hm = (str_eq_iff (host.sha256 m) expected_main).0 (and_left _ _ e) in
              let hp = (str_eq_iff (host.sha256 p) expected_pkg).0 (and_right _ _ e) in
              Meets-then (λ w. Sources m p w × (w.file "controller/main.mbt" ≡ some m)) _ _
                (Meets-weaken _ (λ w h. (h.0.0, h.0.1, h.1)) (λ _ w h. h) (copied_main m p))
                (Meets-then Made _ _ (copied_pkg m p hm hp)
                  (Meets-pure _ (λ w h. (h, rw (hm, hp) refl)))))
