-- ===== src/Tests/Consumer.antt =====
-- A consumer that is made where the compiler fetches the package and builds the program.
use moon_mqtt_client.Base.{
  ℕ, true, false, ◌≡◌, refl, String, List, [], ◌∷◌, Option, none, some, str_eq, if◌then◌else◌,
}
use moon_mqtt_client.Exec.{ok, require, or_raise, ◌>>=◌, ◌>>◌}
use moon_mqtt_client.Consumer.{
  Workspace, Host, package_root, published_version, expected_main, expected_pkg, fetched_main,
  fetched_pkg, binary, reject_moon_work_ancestor, read, write, io, compile, write_consumer_module,
  check_package, copy2, copy_controller, write_manifest, main,
}
use moon_mqtt_client.Consumer.Frozen.{IsFrozen, main-IsFrozen}

-- The compiler makes the files that are missing.
abbrev built : String → Option (List ℕ) → Option (List ℕ)
built name (some content) = some content
built name none =
    if str_eq name fetched_main
    then some (1 ∷ [])
    else if str_eq name fetched_pkg
    then some []
    else if str_eq name ".mooncakes/Strangelight-Merser/moon-mqtt-client/moon.mod"
    then some (2 ∷ [])
    else if str_eq name binary
    then some (3 ∷ [])
    else none

abbrev host : Host
host = record {
  exists = false;
  location = "ha" ∷ "tmp" ∷ [];
  has_work = λ path. false;
  works = λ n. true;
  run = λ n v. (true, record v { file = λ q. built q (v.file q); is_dir = λ d. true });
  search = λ key text. if str_eq key "name" then some package_root else some published_version;
  sha256 = λ content. elim content [ [] ↦ expected_pkg | x ∷ xs ↦ expected_main ];
}

abbrev empty : Workspace
empty = record { file = λ name. none; is_dir = λ name. false; manifest = none }

consumer_made : (main host empty).0 ≡ ok 0
unfolding main reject_moon_work_ancestor read write io compile write_consumer_module check_package
    copy_controller write_manifest copy2 or_raise require ◌>>=◌ ◌>>◌
consumer_made = refl

main-IsFrozen_example : IsFrozen host (main host empty).1
main-IsFrozen_example =
    main-IsFrozen host empty 0 (λ v name content source found. rw found refl) consumer_made
