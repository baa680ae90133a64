-- ===== src/Tests/Commands.antt =====
-- Runs of the commands on concrete data.
use moon_mqtt_client.Base.{false, true, ◌≡◌, ◌↔◌, none, refl}
use moon_mqtt_client.Json.{Json}
use moon_mqtt_client.Paths.{FilePath}
use moon_mqtt_client.Exec.{ok, sqlite_as, require, or_raise, ◌>>=◌, ◌>>◌}
use moon_mqtt_client.World.{mkstemp, sqlite_connect, query, call, sql, draw, change, sha256_file}
use moon_mqtt_client.Inspect.{require_schema}
use moon_mqtt_client.World.Changes.{Frame}
use moon_mqtt_client.Validation.{Located, located, missing}
use moon_mqtt_client.Replacement.{
  create_replacement, build_replacement, verify_target, new_database,
}
use moon_mqtt_client.World.Calm.{calm}
use moon_mqtt_client.Replacement.Built.{create_replacement-verify_target}
use moon_mqtt_client.Broker.{connect_call, credentials, clean_broker_session}
use moon_mqtt_client.Broker.Accepts.{IsClean, clean_broker_session-IsClean}
use moon_mqtt_client.Phase.{old_clean_requested}
use moon_mqtt_client.Journal.{update_phase}
use moon_mqtt_client.Journal.Atomic.{IsAtomic, update_phase-IsAtomic}
use moon_mqtt_client.Commands.{run_resolution}
use moon_mqtt_client.Commands.Main.{export, main}
use moon_mqtt_client.Commands.Beside.{main-Frame}
use moon_mqtt_client.Commands.Resolved.{IsKept, run_resolution-IsKept}
use moon_mqtt_client.Tests.Fixture.{
  journal_db, prepared_row, env, zip, request, world, source_path, archive_path, target_path,
  source_snapshot, source_file,
}

abbrev locate : Json → Located
locate value = missing

main-Frame_example :
    Frame
      (λ i. false)
      (λ p. false)
      world
      (main env zip "/tmp" locate (export (located source_path) (located archive_path)) world).1
main-Frame_example =
    main-Frame env zip "/tmp" locate (export (located source_path) (located archive_path)) world
      refl

run_resolution-IsKept_example :
    IsKept request 0 world
      (run_resolution env zip "/tmp" request 0 source_snapshot source_file world).1
run_resolution-IsKept_example =
    run_resolution-IsKept env zip "/tmp" request 0 source_snapshot source_file world

abbrev staging_path : FilePath
staging_path = record { dir = "/data"; name = ".new.sqlite3.recovery-x.tmp" }

replacement_created : (create_replacement env target_path "new" world).0 ≡ ok (staging_path, "d")
unfolding create_replacement build_replacement mkstemp sqlite_connect require_schema query call sql
    draw change sha256_file sqlite_as require or_raise ◌>>=◌ ◌>>◌ new_database
replacement_created = refl

create_replacement-verify_target_example :
    ((verify_target
        (calm env)
        staging_path
        "new"
        true
        (create_replacement env target_path "new" world).1).0
      ≡ ok tt)
    × ((sha256_file (calm env) staging_path (create_replacement env target_path "new" world).1).0
        ≡ ok "d")
create_replacement-verify_target_example =
    create_replacement-verify_target env target_path "new" world staging_path "d"
      replacement_created

clean_broker_session-IsClean_example :
    ((clean_broker_session env request request.old_session world).0 ≡ ok tt)
    ↔ IsClean (env.reply 1 (connect_call request request.old_session none))
unfolding credentials
clean_broker_session-IsClean_example =
    clean_broker_session-IsClean env request request.old_session world none refl refl

update_phase-IsAtomic_example :
    IsAtomic 2 old_clean_requested none none journal_db prepared_row world
      (update_phase env 2 old_clean_requested none none world).0
      (update_phase env 2 old_clean_requested none none world).1
update_phase-IsAtomic_example =
    update_phase-IsAtomic env 2 old_clean_requested none none journal_db prepared_row 0 world refl
      refl
