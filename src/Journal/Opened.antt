-- ===== src/Journal/Opened.antt =====
-- What is true of the row that `open_journal` of scripts/durable_recovery.py returns.
use moon_mqtt_client.Base.{ℕ, true, ◌≡◌, str_eq}
use moon_mqtt_client.Phase.{JournalRow, in_phases}
use moon_mqtt_client.Request.{Request}
use moon_mqtt_client.Exec.{ok}
use moon_mqtt_client.Exec.Returns.{
  Returns, Returns-pure, Returns-bind, Returns-after, Returns-skip, Returns-require,
}
use moon_mqtt_client.World.{Env, World}
use moon_mqtt_client.Journal.{open_journal, validate_journal, bytes_eq}

-- The row is one of a journal for the request.
pub record IsOpened (env : Env) (request : Request) (row : JournalRow) : Type 0 where
  pub phase : in_phases row.phase ≡ true
  pub request_bytes : bytes_eq row.request_json (env.dumps request.document) ≡ true
  pub request_hash : str_eq (env.sha256 row.request_json) row.request_sha256 ≡ true

validate_journal-hash :
    (env : Env) (connection : ℕ)
    → Returns {S = World}
        (validate_journal env connection)
        (λ r. str_eq (env.sha256 r.0.request_json) r.0.request_sha256 ≡ true)
unfolding validate_journal
validate_journal-hash env connection = Returns-after _ _ λ version. Returns-skip _ _ (
    Returns-after _ _ λ integrity. Returns-skip _ _ (
      Returns-after _ _ λ objects. Returns-skip _ _ (
        Returns-after _ _ λ columns. Returns-skip _ _ (
          Returns-after _ _ λ db. Returns-after _ _ λ value. Returns-skip _ _ (
            Returns-after _ _ λ stored. Returns-skip _ _ (
              Returns-require _ _ _ λ hash.
                Returns-after _ _
                  λ archive. Returns-after _ _ λ sha. Returns-skip _ _ (Returns-pure _ hash)))))))

opened :
    (env : Env) (request : Request)
    → Returns {S = World} (open_journal env request) (λ r. IsOpened env request r.1)
unfolding open_journal
opened env request = Returns-after _ _ λ path. Returns-after _ _ λ connection. Returns-skip _ _ (
    Returns-bind _ _ _ (validate_journal-hash env connection) λ r hash.
      Returns-require _ _ _ λ same. Returns-skip _ _ (
        Returns-require _ _ _ λ known.
          Returns-pure _ (record { phase = known; request_bytes = same; request_hash = hash })))

-- When `open_journal` returns a connection and a row, the row's phase is one of `PHASES`, its request is
-- byte for byte the canonical JSON of the request, and its hash is the SHA-256 of that request.
pub open_journal-IsOpened :
    (env : Env) (request : Request) (w : World) (connection : ℕ) (row : JournalRow)
    → (open_journal env request w).0 ≡ ok (connection, row)
    → IsOpened env request row
open_journal-IsOpened env request w connection row h = (opened env request).at w (connection, row) h
