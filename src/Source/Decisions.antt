-- ===== src/Source/Decisions.antt =====
-- The decisions of an operator and the rows of a source: scripts/durable_recovery.py,
-- `validate_decisions`.
use moon_mqtt_client.Base.{
  if◌then◌else◌, String, Bool, true, false, ◌≡◌, refl, ◌↔◌, List, [], ◌∷◌, arith, str_in,
  str_eq_iff, str_eq_refl,
}
use moon_mqtt_client.Sqlite.{Cell, text}
use moon_mqtt_client.Durable.{Snapshot}
use moon_mqtt_client.Request.{Request}
use moon_mqtt_client.Exec.{Outcome, ok, pure, refuse}
use moon_mqtt_client.World.{World, type_error}
use moon_mqtt_client.Source.{
  validate_decisions, delivery_ids, decided_ids, cells_subset, texts_subset, cell_in, text_in,
}

abbrev pub all_text : List Cell → Bool
all_text [] = true
all_text (text s ∷ cs) = all_text cs
all_text (c ∷ cs) = false

-- The rows' delivery IDs are texts, and a text is one of them just if there is a decision for it.
pub record IsCovered (request : Request) (s : Snapshot) : Type 0 where
  pub texts : all_text (delivery_ids s.body.records) ≡ true
  pub to_decided :
      (id : String)
      → text_in id (delivery_ids s.body.records) ≡ true
      → str_in id (decided_ids request.decision.records) ≡ true
  pub to_rows :
      (id : String)
      → str_in id (decided_ids request.decision.records) ≡ true
      → text_in id (delivery_ids s.body.records) ≡ true

cell_in-text : (t : String) (ss : List String) → cell_in (text t) ss ≡ str_in t ss
cell_in-text t [] = refl
cell_in-text t (s ∷ ss) = rw (cell_in-text t ss) refl

cell_in-all_text :
    (c : Cell) (cs : List Cell) (ss : List String)
    → cell_in c ss ≡ true
    → all_text cs ≡ true
    → all_text (c ∷ cs) ≡ true
cell_in-all_text (text t) cs ss h k = k
cell_in-all_text c cs [] h k = absurd cc
cell_in-all_text c cs (s ∷ ss) h k = cell_in-all_text c cs ss h k

cells_subset-all_text :
    (cs : List Cell) (ss : List String) → cells_subset cs ss ≡ true → all_text cs ≡ true
cells_subset-all_text [] ss h = refl
cells_subset-all_text (c ∷ cs) ss h =
    cell_in-all_text c cs ss (ground arith) (cells_subset-all_text cs ss (ground arith))

cells_subset-str_in :
    (cs : List Cell) (ss : List String) (id : String)
    → cells_subset cs ss ≡ true
    → text_in id cs ≡ true
    → str_in id ss ≡ true
cells_subset-str_in [] ss id h k = absurd cc
cells_subset-str_in (text t ∷ cs) ss id h k =
    ground (arith, str_eq_iff t id, cell_in-text t ss, cells_subset-str_in cs ss id)
cells_subset-str_in (c ∷ cs) ss id h k = ground (arith, cells_subset-str_in cs ss id)

texts_subset-text_in :
    (ss : List String) (cs : List Cell) (id : String)
    → texts_subset ss cs ≡ true
    → str_in id ss ≡ true
    → text_in id cs ≡ true
texts_subset-text_in [] cs id h k = absurd cc
texts_subset-text_in (s ∷ ss) cs id h k =
    ground (arith, str_eq_iff id s, texts_subset-text_in ss cs id)

cells_subset-intro :
    (cs : List Cell) (ss : List String)
    → all_text cs ≡ true
    → ((id : String) → text_in id cs ≡ true → str_in id ss ≡ true)
    → cells_subset cs ss ≡ true
cells_subset-intro [] ss h k = refl
cells_subset-intro (text t ∷ cs) ss h k = ground (
  arith,
  cell_in-text t ss,
  k t,
  str_eq_refl t,
  cells_subset-intro cs ss h (λ id e. k id (ground arith)),
)
cells_subset-intro (c ∷ cs) ss h k = absurd cc

texts_subset-intro :
    (ss : List String) (cs : List Cell)
    → ((id : String) → str_in id ss ≡ true → text_in id cs ≡ true)
    → texts_subset ss cs ≡ true
texts_subset-intro [] cs k = refl
texts_subset-intro (s ∷ ss) cs k =
    ground (arith, k s, str_eq_refl s, texts_subset-intro ss cs (λ id e. k id (ground arith)))

-- The end of `validate_decisions`, by whether the IDs are the same and can be sorted.
abbrev ended : Bool → Bool → World → Outcome (Unit {0}) × World
ended same sortable =
    if same
    then pure tt
    else if sortable
    then refuse "operator decisions must cover exactly the extant rows"
    else type_error

ended-true : (same sortable : Bool) (w : World) → (ended same sortable w).0 ≡ ok tt → same ≡ true
ended-true true sortable w h = refl
ended-true false true w h = absurd cc
ended-true false false w h = absurd cc

ended-ok : (same sortable : Bool) (w : World) → same ≡ true → (ended same sortable w).0 ≡ ok tt
ended-ok true sortable w h = refl
ended-ok false sortable w h = absurd cc

-- `validate_decisions` returns just if every delivery ID of the rows is a text and the rows' delivery
-- IDs are the ones that the operator has decided, whatever their order.
pub validate_decisions-IsCovered :
    (request : Request) (s : Snapshot) (w : World)
    → ((validate_decisions request s w).0 ≡ ok tt) ↔ IsCovered request s
unfolding validate_decisions
validate_decisions-IsCovered request s w = (
  λ h.
      let b = ended-true _ _ w h in
      record {
        texts =
            cells_subset-all_text (delivery_ids s.body.records)
              (decided_ids request.decision.records) (ground arith);
        to_decided = λ id k.
            cells_subset-str_in (delivery_ids s.body.records) (decided_ids request.decision.records)
              id (ground arith) k;
        to_rows = λ id k.
            texts_subset-text_in (decided_ids request.decision.records)
              (delivery_ids s.body.records) id (ground arith) k;
      },
  λ c.
      ended-ok _ _ w
        (rw (cells_subset-intro _ _ c.texts c.to_decided, texts_subset-intro _ _ c.to_rows) refl),
)
