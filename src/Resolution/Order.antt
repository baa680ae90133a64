-- ===== src/Resolution/Order.antt =====
-- The order of a resolution: the journal's phase never goes back, and a phase after a cleanup stands
-- in the journal only when the broker has discarded that session.
use moon_mqtt_client.Base.{
  ℕ, ◌≤◌, ◌<◌, ◌==◌, String, Bool, true, false, not, ◌&&◌, ◌≡◌, refl, ◌∙◌, sym, arith, str_eq,
  Option, none, some, Option-cases, inl, inr, subst, List, [], ◌∷◌, exists,
}
use mathlib.Core.Option.{some-injective}
use moon_mqtt_client.Paths.{FilePath}
use moon_mqtt_client.Phase.{
  Phase, prepared, source_retired, old_clean_requested, old_clean_confirmed, new_clean_requested,
  new_clean_confirmed, replacement_ready, replacement_published, complete, phase_eq, rank,
  JournalRow, JournalDb,
}
use moon_mqtt_client.Request.{Request, Session, mqtt311, mqtt5}
use moon_mqtt_client.World.{
  World, Content, ConnectCall, Exchange, Reply, returned, connack, first_only, always, as_journal,
}
use moon_mqtt_client.Broker.{keeps_session}
use moon_mqtt_client.Journal.{first_singleton, update_row, update_rows, update_content}
use moon_mqtt_client.World.Changes.{Frame}

-- The row that the journal's file holds.
abbrev pub row_of : Content → Option JournalRow
row_of c = elim (as_journal c) [ none ↦ none | some db ↦ first_singleton db.rows ]

abbrev pub journal_at : ℕ → World → Option JournalRow
journal_at connection w = row_of (w.content connection)

-- The broker accepted the connection, kept no session and will keep none.
abbrev pub is_accepted : Reply → Bool
is_accepted (returned return_code (connack failure session_present expiry)) =
    return_code == 0 && (not failure && (not session_present && not (keeps_session expiry)))
is_accepted _ = false

-- The call asks for a clean session: Clean Session in MQTT 3.1.1, Clean Start with an expiry of 0
-- in MQTT 5.
abbrev pub is_clean_call : ConnectCall → Bool
is_clean_call c = elim c.protocol [
  | mqtt311 ↦ elim c.clean_session [ none ↦ false | some b ↦ b ]
  | mqtt5 ↦ elim c.clean_start [
    | first_only ↦ false
    | always ↦ elim c.session_expiry_interval [ none ↦ false | some n ↦ n == 0 ]
  ]
]

-- An exchange that discards the session of a client.
abbrev pub discards : String → Exchange → Bool
discards client_id e =
    str_eq e.call.client_id client_id && (is_clean_call e.call && is_accepted e.reply)

abbrev pub Discarded : Session → World → Type 0
Discarded session w = exists (discards session.client_id) w.exchanges ≡ true

-- What a phase in the journal promises, with `start` for the rank of the phase at the beginning.
pub record IsOrdered (request : Request) (start : ℕ) (phase : Phase) (w : World) : Type 0 where
  pub forward : start ≤ rank phase
  pub old_discarded : 3 ≤ rank phase → Discarded request.old_session w
  pub new_discarded : 5 ≤ rank phase → Discarded request.new_session w

-- The journal holds such a row, or none.
abbrev pub Ordered : Request → ℕ → ℕ → World → Type 0
Ordered request start connection w =
    (row : JournalRow) → journal_at connection w ≡ some row → IsOrdered request start row.phase w

pub phase_eq-rank : (p q : Phase) → phase_eq p q ≡ true → rank p ≡ rank q
phase_eq-rank prepared prepared h = refl
phase_eq-rank source_retired source_retired h = refl
phase_eq-rank old_clean_requested old_clean_requested h = refl
phase_eq-rank old_clean_confirmed old_clean_confirmed h = refl
phase_eq-rank new_clean_requested new_clean_requested h = refl
phase_eq-rank new_clean_confirmed new_clean_confirmed h = refl
phase_eq-rank replacement_ready replacement_ready h = refl
phase_eq-rank replacement_published replacement_published h = refl
phase_eq-rank complete complete h = refl
phase_eq-rank p q h = cc

pub row_of-read :
    (c : Content) (db : JournalDb) (row : JournalRow)
    → as_journal c ≡ some db
    → first_singleton db.rows ≡ some row
    → row_of c ≡ some row
row_of-read c db row read first = ground arith

-- What the UPDATE leaves in the journal's file.
module _ (phase : Phase) (staged : Option FilePath) (sha : Option String) (time : String) where
  first_singleton-update_rows :
      (rows : List JournalRow) (row : JournalRow)
      → first_singleton rows ≡ some row
      → first_singleton (update_rows phase staged sha time rows)
        ≡ some (update_row phase staged sha time row)
  first_singleton-update_rows [] row h = cc
  first_singleton-update_rows (r ∷ rows) row h =
      ground (arith, first_singleton-update_rows rows row)

  pub row_of-update_content :
      (page : ℕ) (c : Content) (row : JournalRow)
      → row_of c ≡ some row
      → row_of (update_content phase staged sha time page c)
        ≡ some (update_row phase staged sha time row)
  row_of-update_content page c row h = elim (Option-cases (as_journal c)) [
    | inl e ↦ absurd (ground arith)
    | inr (db, e) ↦ ground (arith, first_singleton-update_rows db.rows row)
  ]

module _ (request : Request) (start connection : ℕ) where
  -- The journal's row is `row`, and all that it promises holds.
  pub record Holds (row : JournalRow) (w : World) : Type 0 where
    pub at_journal : journal_at connection w ≡ some row
    pub ordered : IsOrdered request start row.phase w
    pub in_use : connection < w.fresh

  abbrev pub Ends : World → Type 0
  Ends w = Ordered request start connection w

  pub Holds-Ends : (row : JournalRow) (w : World) → Holds row w → Ends w
  Holds-Ends row w h row' e =
      subst (λ r. IsOrdered request start r.phase w)
        (some-injective row row' (sym h.at_journal ∙ e)) h.ordered

  -- What leaves the journal's file alone keeps it.
  pub Holds-Frame :
      (writes : ℕ → Bool) (removes : FilePath → Bool) (row : JournalRow) (w w' : World)
      → writes connection ≡ false
      → Frame writes removes w w'
      → Holds row w
      → Holds row w'
  Holds-Frame writes removes row w w' kept f h = record {
    at_journal = rw (f.content_kept connection h.in_use kept) h.at_journal;
    ordered = record {
      forward = h.ordered.forward;
      old_discarded = λ k. f.history _ (h.ordered.old_discarded k);
      new_discarded = λ k. f.history _ (h.ordered.new_discarded k);
    };
    in_use = omega (arith, h.in_use, f.fresh_le);
  }
