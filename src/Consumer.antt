-- ===== src/Consumer.antt =====
-- The consumer of a published release: scripts/prepare-ha-consumer.py. The compiler, the regular
-- expressions and the failures of the disk are the record `Host`.
pub mod Steps
pub mod Copied
pub mod Frozen
use Prim.Native.String.{◌++◌ as ◌<>◌}
use moon_mqtt_client.Base.{
  ℕ, Bool, true, false, not, ◌&&◌, String, List, [], ◌∷◌, Option, none, some, is_some, str_eq,
  if◌then◌else◌,
}
use moon_mqtt_client.Base.Text.{encode}
use moon_mqtt_client.Exec.{
  Exec, ok, storage, uncaught, pure, refuse, require, or_raise, ◌>>=◌, ◌>>◌,
}

-- An entry of `hashes`.
pub record SourceHash : Type 0 where
  pub fetched_mooncakes : String
  pub expected_r8 : String

-- What the script writes to consumer-manifest.json of what it has found.
pub record ConsumerManifest : Type 0 where
  pub dependency_name : String
  pub dependency_version : String
  pub controller_main : SourceHash
  pub controller_pkg : SourceHash
  pub binary_sha256 : String

-- The output directory, its files and directories by their names in it.
pub record Workspace : Type 0 where
  pub file : String → Option (List ℕ)
  pub is_dir : String → Bool
  pub manifest : Option ConsumerManifest

-- A path is the list of its names, the last first. `exists` is about the argument, `has_work` tells where
-- a file moon.work is, `works` whether a call of the system works, `run` what a run of the compiler leaves
-- and whether it succeeds, and `search` the group of `^key\s*=\s*"([^"]+)"` in a text.
pub record Host : Type 0 where
  pub exists : Bool
  pub location : List String
  pub has_work : List String → Bool
  pub works : ℕ → Bool
  pub run : ℕ → Workspace → Bool × Workspace
  pub search : String → List ℕ → Option String
  pub sha256 : List ℕ → String

abbrev pub Act : Type 0 → Type 0
Act A = Exec Workspace A

abbrev pub package_root : String
package_root = "Strangelight-Merser/moon-mqtt-client"

abbrev pub published_version : String
published_version = "0.7.1"

abbrev pub expected_main : String
expected_main = "ebcc484a95b22ad63609570497cbbfc624cf1310be681bee2b8e370c0ff27163"

abbrev pub expected_pkg : String
expected_pkg = "2f3ad51309e2ff11c0d5a1c00f5215e0a7421a118d11022e9da2895e13b5b206"

abbrev pub fetched : String
fetched = ".mooncakes/Strangelight-Merser/moon-mqtt-client"

abbrev pub fetched_main : String
fetched_main =
    ".mooncakes/Strangelight-Merser/moon-mqtt-client/examples/ha_relay/controller/main.mbt"

abbrev pub fetched_pkg : String
fetched_pkg =
    ".mooncakes/Strangelight-Merser/moon-mqtt-client/examples/ha_relay/controller/moon.pkg"

abbrev pub binary : String
binary = "_build/native/debug/build/controller/controller.exe"

-- The root's parent is the root.
unfoldable pub reject_moon_work_ancestor : (List String → Bool) → List String → Act (Unit {0})
reject_moon_work_ancestor has_work [] =
    if has_work [] then refuse "refusing output below moon.work ancestor" else pure tt
reject_moon_work_ancestor has_work (name ∷ ancestor) =
    let rest = reject_moon_work_ancestor has_work ancestor in
    if has_work (name ∷ ancestor) then refuse "refusing output below moon.work ancestor" else rest

abbrev pub parent : List String → List String
parent [] = []
parent (name ∷ names) = names

-- `path.read_bytes()`, `path.write_text(...)`
unfoldable pub read : String → Act (List ℕ)
read p w = elim (w.file p) [ none ↦ (storage, w) | some content ↦ (ok content, w) ]

unfoldable pub write : String → List ℕ → Act (Unit {0})
write p content w = (ok tt, record w { file = λ q. if str_eq p q then some content else w.file q })

module _ (host : Host) where
  -- A call of the system that may raise an `OSError`.
  unfoldable pub io : ℕ → Act (Unit {0})
  io n w = if host.works n then (ok tt, w) else (storage, w)

  -- `subprocess.run([...], check=True)`
  unfoldable pub compile : ℕ → Act (Unit {0})
  compile n w = let (done, w') = host.run n w in if done then (ok tt, w') else (uncaught, w')

  unfoldable pub write_consumer_module : Act (Unit {0})
  unfolding io write
  write_consumer_module = do
    io 2
    write "moon.mod" (
        encode
          "name = \"acceptance/ha-controller\"\npreferred_target = \"native\"\nimport {\n  \"Strangelight-Merser/moon-mqtt-client@0.7.1\",\n  \"moonbitlang/async@0.21.3\",\n}\n")
    io 3
    write "moon.pkg" (
        encode
          "import {\n  \"Strangelight-Merser/moon-mqtt-client\"\n}\nsupported_targets = \"+native\"\npkgtype(kind: \"executable\")\n")
    io 4
    write "main.mbt" (encode "fn main { println(\"Mooncakes dependency bootstrap\") }\n")

  -- The name and the version of the package that was fetched.
  unfoldable pub check_package : Act (String × String)
  check_package = do
    published ← λ w. (ok (w.is_dir fetched), w)
    require published "published dependency was not materialized"
    text ← read (fetched <> "/moon.mod")
    dependency_name ←
        or_raise (host.search "name" text) (refuse "unexpected fetched dependency name")
    require (str_eq dependency_name package_root) "unexpected fetched dependency name"
    dependency_version ←
        or_raise (host.search "version" text) (refuse "unexpected fetched dependency version")
    require (str_eq dependency_version published_version) "unexpected fetched dependency version"
    pure (dependency_name, dependency_version)

  -- `shutil.copy2(source, target)`, which is call `n`.
  unfoldable pub copy2 : ℕ → String → String → Act (Unit {0})
  unfolding io
  copy2 n source target = do io n; content ← read source; write target content

  -- The hashes of the controller's sources, which are then copied.
  unfoldable pub copy_controller : Act (SourceHash × SourceHash)
  unfolding io copy2
  copy_controller = do
    io 5
    main_source ← read fetched_main
    pkg_source ← read fetched_pkg
    let main_hash : SourceHash = record {
      fetched_mooncakes = host.sha256 main_source;
      expected_r8 = expected_main;
    }
    let pkg_hash : SourceHash = record {
      fetched_mooncakes = host.sha256 pkg_source;
      expected_r8 = expected_pkg;
    }
    require
        (str_eq main_hash.fetched_mooncakes main_hash.expected_r8
          && str_eq pkg_hash.fetched_mooncakes pkg_hash.expected_r8)
        "fetched controller source differs from frozen R8 hashes"
    copy2 6 fetched_main "controller/main.mbt"
    copy2 7 fetched_pkg "controller/moon.pkg"
    pure (main_hash, pkg_hash)

  unfoldable pub write_manifest : String × String → SourceHash × SourceHash → Act (Unit {0})
  write_manifest dependency hashes = do
    content ← read binary
    io 8
    λ w. (
      ok tt,
      record w {
        manifest = some (record {
          dependency_name = dependency.0;
          dependency_version = dependency.1;
          controller_main = hashes.0;
          controller_pkg = hashes.1;
          binary_sha256 = host.sha256 content;
        });
      },
    )

  unfoldable pub main : Act ℕ
  main = do
    require (not host.exists) "refusing to overwrite existing output directory"
    reject_moon_work_ancestor host.has_work (parent host.location)
    io 0
    io 1
    write_consumer_module
    compile 0
    compile 1
    dependency ← check_package
    hashes ← copy_controller
    compile 2
    built ← λ w. (ok (is_some (w.file binary)), w)
    require built "native controller executable was not produced"
    write_manifest dependency hashes
    pure 0
