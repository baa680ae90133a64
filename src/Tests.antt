-- ===== src/Tests.antt =====
-- Runs of the tool on concrete data.
pub mod Fixture
mod Reading
mod Proxy
mod Commands
mod Scripts
mod Completes
mod Source
mod Consumer
use moon_mqtt_client.Base.{ℕ, true, false, ◌==◌, ◌||◌, ◌≡◌, refl, some, arith}
use moon_mqtt_client.Phase.{complete, JournalRow, rank}
use moon_mqtt_client.Exec.{
  ok, ◌>>=◌, ◌>>◌, require, when, or_raise, finally, except_raise, storage_as, sqlite_as,
}
use moon_mqtt_client.World.{call, maybe_fail, unlink, draw, change}
use moon_mqtt_client.Source.{
  reconcile_source, retire_source, retirable, retire_content, retire_rows,
}
use moon_mqtt_client.Durable.Equal.{body_eq, cell_eq}
use moon_mqtt_client.World.{
  sha256_file, query, connect_sqlite, existing_path, link_file, mkstemp, query_journal,
  sqlite_connect,
}
use moon_mqtt_client.Resolution.{
  retire_step, check_published, check_raced, clean_steps, complete_step, final_step, link_target,
  new_clean_step, new_request_step, old_clean_step, old_request_step, publish_from, publish_step,
  publish_target, ready_step, restage, stage_replacement, target_steps,
}
use moon_mqtt_client.Replacement.{
  new_database, build_replacement, check_target, create_replacement, verify_target,
}
use moon_mqtt_client.Journal.{update_phase, commit_phase, refresh_journal}
use moon_mqtt_client.Broker.{
  check_event, check_reply, clean_broker_session, connect_call, credentials, exchange,
}
use moon_mqtt_client.Inspect.{metadata, read_rows, require_schema, snapshot}
use moon_mqtt_client.World.{World, sql}
use moon_mqtt_client.Replacement.{check_empty}
use moon_mqtt_client.World.{publish_file_no_replace}
use moon_mqtt_client.Paths.{path_eq}
use moon_mqtt_client.Tests.Fixture.{source_path}
use moon_mqtt_client.World.Publish.{publish_file_no_replace-Frame}
use moon_mqtt_client.World.Frame.{Quiet}
use moon_mqtt_client.World.Changes.{Frame}
use moon_mqtt_client.Resolution.Resumed.{advance_resolution-Quiet}
use moon_mqtt_client.Resolution.{advance_resolution}
use moon_mqtt_client.Resolution.Order.{Ordered, journal_at}
use moon_mqtt_client.Resolution.Isolation.{is_stage, advance_resolution-Frame}
use moon_mqtt_client.Resolution.Publication.{
  IsPrepared, advance_resolution-Ordered, advance_resolution-Complete,
}
use moon_mqtt_client.Tests.Fixture.{
  env, request, source_snapshot, source_file, manifest, prepared_row, world, target_path,
}

abbrev last_row : JournalRow
last_row = record prepared_row {
  phase = complete;
  staged_target = some (record { dir = "/data"; name = ".new.sqlite3.recovery-x.tmp" });
  staged_target_sha256 = some "d";
  updated_at = "later";
}

full_run :
    (advance_resolution env request 0 2 source_snapshot prepared_row manifest source_file world).0
    ≡ ok last_row
unfolding advance_resolution sqlite_as sql check_empty ◌>>◌ reconcile_source require body_eq
    sha256_file or_raise retire_step when retire_source except_raise query new_database draw change
    maybe_fail update_phase commit_phase check_event check_reply clean_broker_session connect_call
    credentials exchange cell_eq storage_as ◌>>=◌ metadata read_rows require_schema snapshot
    refresh_journal build_replacement check_target create_replacement verify_target check_published
    check_raced clean_steps complete_step final_step link_target new_clean_step new_request_step
    old_clean_step old_request_step publish_from publish_step publish_target ready_step restage
    stage_replacement target_steps retirable retire_content retire_rows call connect_sqlite
    existing_path link_file mkstemp query_journal sqlite_connect unlink
full_run = refl

world-IsPrepared : IsPrepared request 0 2 prepared_row world
world-IsPrepared = record {
  at_journal = refl;
  old_discarded = λ h. absurd (omega arith);
  new_discarded = λ h. absurd (omega arith);
  in_use = omega arith;
  apart = refl;
}

advance_resolution-Frame_example :
    Frame
      (λ i. i == 0 || i == 2)
      (is_stage target_path)
      world
      (advance_resolution env request 0 2 source_snapshot prepared_row manifest source_file world).1
advance_resolution-Frame_example =
    advance_resolution-Frame env request 0 2 source_snapshot prepared_row manifest source_file world

advance_resolution-Ordered_example :
    Ordered request 0 2
      (advance_resolution env request 0 2 source_snapshot prepared_row manifest source_file world).1
advance_resolution-Ordered_example =
    advance_resolution-Ordered env request 0 2 source_snapshot prepared_row manifest source_file
      world world-IsPrepared

advance_resolution-Complete_example :
    (journal_at 2
        (advance_resolution env request 0 2 source_snapshot prepared_row manifest source_file
          world).1
      ≡ some last_row)
    × (last_row.phase ≡ complete)
advance_resolution-Complete_example =
    advance_resolution-Complete env request 0 2 source_snapshot prepared_row last_row manifest
      source_file world world-IsPrepared full_run

abbrev after_run : World
after_run =
    (advance_resolution env request 0 2 source_snapshot prepared_row manifest source_file world).1

advance_resolution-Quiet_example :
    Quiet after_run
      (advance_resolution env request 0 2 source_snapshot last_row manifest source_file after_run).1
advance_resolution-Quiet_example =
    advance_resolution-Quiet env request 0 2 source_snapshot last_row manifest source_file after_run
      refl

publish_file_no_replace-Frame_example :
    Frame
      (λ i. false)
      (path_eq source_path)
      world
      (publish_file_no_replace env source_path target_path world).1
publish_file_no_replace-Frame_example =
    publish_file_no_replace-Frame env source_path target_path world
