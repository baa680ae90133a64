-- ===== src/Tests/Reading.antt =====
-- Runs of the reading and checking parts of the tool on concrete data.
use moon_mqtt_client.Base.{subst, some_injective, String, true, ◌≡◌, ◌↔◌, refl, none, some}
use moon_mqtt_client.Base.Int.{pos}
use moon_mqtt_client.Json.Equal.{json_eq}
use moon_mqtt_client.Json.{Json, str, int, bool, arr, obj, nil, cons, Fields, end, field}
use moon_mqtt_client.Bundle.{Member, database}
use moon_mqtt_client.Request.{Request}
use moon_mqtt_client.Exec.{ok, require, or_raise, ◌>>=◌, ◌>>◌, storage_as, sqlite_as}
use moon_mqtt_client.World.{
  durable, call, sql, existing_path, query, query_journal, connect_sqlite, pragma, sha256_file,
}
use moon_mqtt_client.Inspect.{snapshot, require_schema, read_rows, metadata}
use moon_mqtt_client.Inspect.Limits.{IsBounded, snapshot-IsBounded}
use moon_mqtt_client.Journal.{open_journal, validate_journal}
use moon_mqtt_client.Journal.Opened.{IsOpened, open_journal-IsOpened}
use moon_mqtt_client.Source.{validate_decisions}
use moon_mqtt_client.Source.Decisions.{IsCovered, validate_decisions-IsCovered}
use moon_mqtt_client.Replacement.{new_database}
use moon_mqtt_client.Identity.Injective.{IsSame, durable_identity-injective}
use moon_mqtt_client.Archive.{check_bundle, new_bundle, manifest_for}
use moon_mqtt_client.Archive.Built.{IsZip, check_bundle-new_bundle}
use moon_mqtt_client.Validation.{
  Located, located, missing, validate_request, request_paths, existing_at, prospective_path,
  broker_of, timeout_of, session_of, decision_of, decision_records, disposition, document_of,
}
use moon_mqtt_client.Validation.Values.{text_of}
use moon_mqtt_client.Validation.Texts.{is_identifier, is_wire_text, is_filled}
use moon_mqtt_client.Validation.Accepted.{IsAccepted, validate_request-IsAccepted}
use moon_mqtt_client.Request.{journal_path}
use moon_mqtt_client.Tests.Fixture.{
  zip, env, request, world, source_db, source_snapshot, source_file, prepared_row,
}

snapshot-IsBounded_example : IsBounded source_snapshot
unfolding snapshot require_schema read_rows metadata sqlite_as sql query call require or_raise ◌>>=◌
    ◌>>◌ new_database
snapshot-IsBounded_example = snapshot-IsBounded env 0 world source_snapshot refl

open_journal-IsOpened_example : IsOpened env request prepared_row
unfolding open_journal validate_journal existing_path query_journal connect_sqlite pragma
    sha256_file sqlite_as sql call require or_raise ◌>>=◌ ◌>>◌ journal_path
open_journal-IsOpened_example = open_journal-IsOpened env request world 2 prepared_row refl

validate_decisions-IsCovered_example :
    ((validate_decisions request source_snapshot world).0 ≡ ok tt)
    ↔ IsCovered request source_snapshot
validate_decisions-IsCovered_example = validate_decisions-IsCovered request source_snapshot world

zip-IsZip : IsZip zip
zip-IsZip = record { entries = λ es. refl; end_length = λ es. refl; end_canonical = λ es. refl }

abbrev copy : Member
copy = database source_db 1

request_itself : (value : Json) → some (str "r") ≡ some value → json_eq value value ≡ true
unfolding json_eq
request_itself value h = subst (λ v. json_eq v v ≡ true) (some_injective h) refl

check_bundle-new_bundle_example :
    check_bundle env zip
      (some "resolution")
      (some (str "r"))
      (new_bundle env zip copy
        (manifest_for env zip source_snapshot "resolution" (some (str "r")) source_file "d"))
      world
    ≡ (
      ok (
        manifest_for env zip source_snapshot "resolution" (some (str "r")) source_file "d",
        durable source_db 1,
      ),
      world,
    )
unfolding json_eq
check_bundle-new_bundle_example =
    check_bundle-new_bundle env zip copy source_snapshot "resolution" (some (str "r")) source_file
      (some "resolution") (some (str "r")) world zip-IsZip refl refl request_itself refl refl

-- pathlib on texts that name a file of /data.
abbrev locate : Json → Located
locate value = elim (text_of value) [
  | none ↦ missing
  | some name ↦ located (record { dir = "/data"; name = name })
]

abbrev broker_json : Fields
broker_json =
    field "host" (str "h") (field "port" (int (pos 1883)) (field "protocol" (str "mqtt311") end))

abbrev session_json : String → Json
session_json client_id =
    obj (field "client_id" (str client_id) (field "session_expiry_secs" (int (pos 0)) end))

abbrev decision_json : Fields
decision_json = field "operator" (str "me") (
    field "decided_at" (str "now") (
      field "rationale" (str "why") (
        field "same_principal_asserted" (bool true) (
          field "old_client_id_owned" (bool true) (
            field "old_cleanup_authorized" (bool true) (
              field "new_client_id_owned" (bool true) (
                field "new_cleanup_authorized" (bool true) (
                  field "records"
                    (arr (
                      cons
                        (obj (
                          field "delivery_id" (str "m")
                            (field "disposition" (str "AbandonedUnknown") end)))
                        nil))
                    end))))))))

abbrev request_json : Fields
request_json = field "version" (int (pos 1)) (
    field "operation_id" (str "op") (
      field "source" (str "old.sqlite3") (
        field "archive" (str "old.mqttrec") (
          field "target" (str "new.sqlite3") (
            field "broker" (obj broker_json) (
              field "old_session" (session_json "a") (
                field "new_session" (session_json "b")
                  (field "decision" (obj decision_json) end))))))))

abbrev accepted_request : Request
accepted_request = record request {
  document = document_of env request.source request.archive request.target request_json;
}

validate_request-IsAccepted_example : IsAccepted accepted_request
unfolding validate_request request_paths existing_at prospective_path broker_of timeout_of
    session_of decision_of decision_records disposition is_identifier is_wire_text is_filled
    existing_path storage_as call require or_raise ◌>>=◌ ◌>>◌
validate_request-IsAccepted_example =
    validate_request-IsAccepted env locate (obj request_json) world accepted_request refl

durable_identity-injective_example :
    IsSame request.broker request.broker request.old_session request.old_session
durable_identity-injective_example =
    durable_identity-injective request.broker request.broker request.old_session request.old_session
      refl
