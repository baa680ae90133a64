-- ===== src/Tests/Completes.antt =====
-- Runs in which every call works: a resolution that was cut off after the source's retirement, and a new
-- journal.
use moon_mqtt_client.Base.{ℕ, ◌≡◌, refl, none, [], ◌∷◌, arith, inl, if◌then◌else◌, ◌==◌}
use moon_mqtt_client.Phase.{source_retired, complete, JournalRow}
use moon_mqtt_client.Durable.Equal.{body_eq}
use moon_mqtt_client.Exec.{ok, or_raise, require, ◌>>=◌, ◌>>◌}
use moon_mqtt_client.World.{World, journal, call, sha256_file}
use moon_mqtt_client.World.Calm.{calm}
use moon_mqtt_client.Broker.{credentials}
use moon_mqtt_client.Source.{reconcile_source}
use moon_mqtt_client.Resolution.{advance_resolution}
use moon_mqtt_client.Resolution.Completes.{advance_resolution-PublishedRow}
use moon_mqtt_client.Resolution.Completes.Stations.{Cooperates}
use moon_mqtt_client.Resolution.Completes.States.{PublishedRow, IsResumable, early}
use moon_mqtt_client.Json.{Json}
use moon_mqtt_client.Paths.{path_eq}
use moon_mqtt_client.Request.{journal_path}
use moon_mqtt_client.Journal.{create_journal, open_journal}
use moon_mqtt_client.Journal.Entered.{Startable}
use moon_mqtt_client.Journal.RoundTrip.{IsNew, create_journal-open_journal}
use moon_mqtt_client.Tests.Fixture.{
  journal_file, env, request, world, prepared_row, journal_db, source_snapshot, source_file,
  manifest,
}

abbrev retired_row : JournalRow
retired_row = record prepared_row { phase = source_retired }

abbrev cut_off : World
cut_off = record world {
  content = λ i.
      if i == 2 then journal (record journal_db { rows = retired_row ∷ [] }) 0 else world.content i;
}

cut_off-Cooperates : Cooperates env request
unfolding credentials
cut_off-Cooperates = record {
  unset = refl;
  password = none;
  known = λ w. refl;
  clean = λ n s. inl refl;
}

cut_off-IsResumable : IsResumable env request 2 "new" retired_row cut_off
cut_off-IsResumable = early (record {
  at_row = record {
    content = journal (record journal_db { rows = retired_row ∷ [] }) 0;
    here = record { vacant = refl; free = λ n. refl; in_use = omega arith; held = refl };
    is_row = refl;
  };
  from = omega arith;
  below = omega arith;
  identity_eq = refl;
})

advance_resolution-PublishedRow_example :
    (row : JournalRow) × ((advance_resolution
        (calm env)
        request
        0
        2
        source_snapshot
        retired_row
        manifest
        source_file
        cut_off).0
      ≡ ok row)
    × PublishedRow env request 2 "new" complete row
        (advance_resolution
          (calm env)
          request
          0
          2
          source_snapshot
          retired_row
          manifest
          source_file
          cut_off).1
unfolding reconcile_source sha256_file call or_raise require ◌>>=◌ ◌>>◌ body_eq
advance_resolution-PublishedRow_example =
    advance_resolution-PublishedRow env request 0 2 source_snapshot retired_row manifest source_file
      cut_off cut_off-Cooperates cut_off-IsResumable (λ v. refl) refl

-- The source and the archive, and no journal yet.
abbrev archived_world : World
archived_world = record world {
  entry = λ p. if path_eq p journal_file then none else world.entry p;
}

archived_world-Startable : Startable env request "d" 1 archived_world
unfolding journal_path
archived_world-Startable = record {
  archived = record { at_entry = refl; regular = refl; digest = refl };
  in_use = omega arith;
  vacant = refl;
  free = λ n. refl;
}

create_journal-open_journal_example :
    (i : ℕ) × (row : JournalRow) × ((create_journal
        (calm env)
        request
        "d"
        source_snapshot
        source_file
        archived_world).0
      ≡ ok tt)
    × ((open_journal
          (calm env)
          request
          (create_journal (calm env) request "d" source_snapshot source_file archived_world).1).0
        ≡ ok (i, row))
    × IsNew env request "d" source_snapshot source_file row
create_journal-open_journal_example =
    create_journal-open_journal env request "d" 1 source_snapshot source_file Json.null
      archived_world archived_world-Startable refl refl (λ n. refl)
