-- ===== src/Validation/Accepted.antt =====
-- What is true of a request that `validate_request` of scripts/durable_recovery.py accepts.
use moon_mqtt_client.Base.{
  ◌≤◌, ◌<◌, String, Bool, true, false, not, ◌&&◌, ◌≡◌, refl, List, [], ◌∷◌, str_in, str_eq, arith,
  subst,
}
use moon_mqtt_client.Json.{Json, Fields, Items, int, float, nil, cons}
use moon_mqtt_client.Paths.{FilePath, with_suffix}
use moon_mqtt_client.Request.{
  Protocol, Broker, Session, DecisionRecord, Decision, Request, journal_path,
}
use moon_mqtt_client.Exec.{ok}
use moon_mqtt_client.Exec.Returns.{
  Returns, Returns-pure, Returns-refuse, Returns-bind, Returns-after, Returns-skip, Returns-require,
}
use moon_mqtt_client.World.{Env, World}
use moon_mqtt_client.Validation.{
  Located, located, prospective_path, validate_request, broker_of, session_of, decision_of,
  decision_records, request_paths, timeout_of, expiry_fits,
}
use moon_mqtt_client.Validation.Values.{paths_distinct}
use moon_mqtt_client.Validation.Texts.{is_identifier, is_wire_text, is_filled, is_timeout}

-- A client ID that a CONNECT can carry, with an expiry for the protocol.
pub record IsSession (protocol : Protocol) (session : Session) : Type 0 where
  pub not_empty : str_eq session.client_id "" ≡ false
  pub wire : is_wire_text session.client_id ≡ true
  pub expiry_le : session.session_expiry_secs ≤ 4294967295
  pub expiry : expiry_fits protocol session.session_expiry_secs ≡ true

pub record IsBroker (broker : Broker) : Type 0 where
  pub not_empty : str_eq broker.host "" ≡ false
  pub wire : is_wire_text broker.host ≡ true
  pub port_pos : 0 < broker.port
  pub port_lt : broker.port < 65536
  pub timeout : is_timeout broker.timeout_seconds ≡ true

-- The IDs are not empty, differ from one another and are not in `seen`.
abbrev pub fresh_ids : List DecisionRecord → List String → Bool
fresh_ids [] seen = true
fresh_ids (r ∷ rs) seen =
    (not (str_eq r.delivery_id "") && not (str_in r.delivery_id seen))
    && fresh_ids rs (r.delivery_id ∷ seen)

pub record IsDecision (decision : Decision) : Type 0 where
  pub operator : is_filled decision.operator ≡ true
  pub decided_at : is_filled decision.decided_at ≡ true
  pub rationale : is_filled decision.rationale ≡ true
  pub ids : fresh_ids decision.records [] ≡ true

pub record IsAccepted (request : Request) : Type 0 where
  pub operation_id : is_identifier request.operation_id ≡ true
  pub paths :
      paths_distinct (request.source ∷ request.archive ∷ request.target ∷ journal_path request ∷ [])
      ≡ true
  pub broker : IsBroker request.broker
  pub old_session : IsSession request.broker.protocol request.old_session
  pub new_session : IsSession request.broker.protocol request.new_session
  pub clients : str_eq request.old_session.client_id request.new_session.client_id ≡ false
  pub decision : IsDecision request.decision

session_of-IsSession :
    (protocol : Protocol) (label : String) (raw : Fields)
    → Returns {S = World} (session_of protocol label raw) (IsSession protocol)
unfolding session_of
session_of-IsSession protocol label raw = Returns-after _ _ λ session. Returns-skip _ _ (
    Returns-after _ _ λ client_id. Returns-require _ _ _ λ named. Returns-after _ _ λ expiry.
      Returns-require _ _ _ λ bounded. Returns-require _ _ _ λ fits. Returns-pure _ (record {
        not_empty = ground arith;
        wire = ground arith;
        expiry_le = ground arith;
        expiry = fits;
      }))

timeout_of-bounds :
    (value : Json) → Returns {S = World} (timeout_of value) (λ x. is_timeout x ≡ true)
unfolding timeout_of
timeout_of-bounds (int n) = Returns-skip _ _ (Returns-require _ _ _ λ h. Returns-pure _ h)
timeout_of-bounds (float x) = Returns-require _ _ _ λ h. Returns-pure _ h
timeout_of-bounds _ = Returns-refuse _

broker_of-IsBroker : (env : Env) (raw : Fields) → Returns {S = World} (broker_of env raw) IsBroker
unfolding broker_of
broker_of-IsBroker env raw = Returns-after _ _ λ broker. Returns-skip _ _ (
    Returns-after _ _ λ host. Returns-require _ _ _ λ named. Returns-after _ _ λ port.
      Returns-require _ _ _ λ bounded. Returns-after _ _ λ protocol. Returns-skip _ _ (
        Returns-after _ _ λ username. Returns-after _ _ λ password_env. Returns-skip _ _ (
          Returns-bind _ _ _ (timeout_of-bounds _) λ timeout timely. Returns-skip _ _ (
            Returns-pure _ (record {
              not_empty = ground arith;
              wire = ground arith;
              port_pos = ground arith;
              port_lt = ground arith;
              timeout = timely;
            })))))

decision_records-fresh_ids :
    (items : Items) (seen : List String)
    → Returns {S = World} (decision_records items seen) (λ rs. fresh_ids rs seen ≡ true)
unfolding decision_records
decision_records-fresh_ids nil seen = Returns-pure _ refl
decision_records-fresh_ids (cons item rest) seen = Returns-after _ _ λ record_fields.
    Returns-skip _ _ (
      Returns-after _ _ λ delivery_id. Returns-require _ _ _ λ new. Returns-after _ _ λ decided.
        Returns-bind _ _ _ (decision_records-fresh_ids rest (delivery_id ∷ seen))
          λ others rest_new. Returns-pure _ (ground arith))

decision_of-IsDecision : (raw : Fields) → Returns {S = World} (decision_of raw) IsDecision
unfolding decision_of
decision_of-IsDecision raw = Returns-after _ _ λ decision. Returns-skip _ _ (
    Returns-after _ _ λ operator. Returns-require _ _ _ λ a. Returns-after _ _ λ decided_at.
      Returns-require _ _ _ λ b. Returns-after _ _ λ rationale. Returns-require _ _ _ λ c.
        Returns-skip _ _ (
          Returns-after _ _ λ items.
            Returns-bind _ _ _ (decision_records-fresh_ids items []) λ records ids.
              Returns-pure _ (record { operator = a; decided_at = b; rationale = c; ids = ids })))

abbrev with_journal : FilePath → FilePath → FilePath → Bool
with_journal source archive target =
    paths_distinct (source ∷ archive ∷ target ∷ with_suffix source ".recovery.sqlite3" ∷ [])

prospective_path-located :
    (env : Env) (p : FilePath) (label : String)
    → Returns {S = World} (prospective_path env (located p) label) (λ q. q ≡ p)
unfolding prospective_path
prospective_path-located env p label = Returns-skip _ _ (Returns-pure _ refl)

request_paths-distinct :
    (env : Env) (locate : Json → Located) (raw : Fields)
    → Returns {S = World} (request_paths env locate raw) (λ p. with_journal p.0 p.1 p.2 ≡ true)
unfolding request_paths
request_paths-distinct env locate raw = Returns-after _ _ λ source. Returns-after _ _ λ archive.
    Returns-after _ _ λ target.
      Returns-bind _ _ _
        (prospective_path-located env (with_suffix source ".recovery.sqlite3") "journal")
        λ journal same. Returns-require _ _ _ λ different. Returns-skip _ _ (
          Returns-after _ _ λ separate. Returns-skip _ _ (
            Returns-pure _ (
              subst (λ j. paths_distinct (source ∷ archive ∷ target ∷ j ∷ []) ≡ true) same
                different)))

accepted :
    (env : Env) (locate : Json → Located) (value : Json)
    → Returns {S = World} (validate_request env locate value) IsAccepted
unfolding validate_request journal_path
accepted env locate value = Returns-after _ _ λ raw. Returns-skip _ _ (
    Returns-skip _ _ (
      Returns-after _ _ λ operation_id. Returns-require _ _ _ λ named.
        Returns-bind _ _ _ (request_paths-distinct env locate raw) λ p separate.
          Returns-bind _ _ _ (broker_of-IsBroker env raw) λ broker broker_ok.
            Returns-bind _ _ _ (session_of-IsSession broker.protocol "old_session" raw)
              λ old old_ok.
                Returns-bind _ _ _ (session_of-IsSession broker.protocol "new_session" raw)
                  λ new new_ok. Returns-require _ _ _ λ differ.
                    Returns-bind _ _ _ (decision_of-IsDecision raw) λ decision decided.
                      Returns-pure _ (record {
                        operation_id = named;
                        paths = separate;
                        broker = broker_ok;
                        old_session = old_ok;
                        new_session = new_ok;
                        clients = ground arith;
                        decision = decided;
                      })))

-- A request that `validate_request` returns has an operation ID in the allowed format, four different
-- paths with the journal's, a port from 1 to 65,535, a timeout in (0, 60], client IDs that differ, fit
-- in a CONNECT and have an expiry that their protocol allows, and decisions with different nonempty
-- delivery IDs, made by a named operator.
pub validate_request-IsAccepted :
    (env : Env) (locate : Json → Located) (value : Json) (w : World) (request : Request)
    → (validate_request env locate value w).0 ≡ ok request
    → IsAccepted request
validate_request-IsAccepted env locate value w request h =
    (accepted env locate value).at w request h
