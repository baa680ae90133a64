-- ===== src/Durable/Equal.antt =====
-- `==` of Python on the values that a snapshot holds.
use moon_mqtt_client.Base.{Bool, true, false, not, List, [], ◌∷◌, ◌&&◌, ◌==◌, str_eq, ℕ}
use moon_mqtt_client.Base.Int.{Float, finite, infinite, ratio_eq, int_eq}
use moon_mqtt_client.Sqlite.{Cell, null, integer, real, text, blob, as_float}
use moon_mqtt_client.Durable.{Record, Body, Snapshot}

abbrev pub bytes_eq : List ℕ → List ℕ → Bool
bytes_eq [] [] = true
bytes_eq [] (y ∷ ys) = false
bytes_eq (x ∷ xs) [] = false
bytes_eq (x ∷ xs) (y ∷ ys) = x == y && bytes_eq xs ys

abbrev bool_eq : Bool → Bool → Bool
bool_eq true b = b
bool_eq false b = not b

abbrev float_eq : Float → Float → Bool
float_eq (finite a j) (finite b k) = ratio_eq a j b k
float_eq infinite infinite = true
float_eq _ _ = false

unfoldable pub cell_eq : Cell → Cell → Bool
cell_eq null null = true
cell_eq (integer a) (integer b) = int_eq a b
cell_eq (integer a) (real y) = float_eq (as_float a) y
cell_eq (real x) (integer b) = float_eq x (as_float b)
cell_eq (real x) (real y) = float_eq x y
cell_eq (text s) (text t) = str_eq s t
cell_eq (blob b) (blob c) = bytes_eq b c
cell_eq _ _ = false

record_eq : Record → Record → Bool
unfolding cell_eq
record_eq a b =
    cell_eq a.delivery_id b.delivery_id
    && (cell_eq a.packet_id b.packet_id
        && (cell_eq a.sequence b.sequence
            && (cell_eq a.topic b.topic
                && (bytes_eq a.payload b.payload
                    && (bytes_eq a.properties b.properties
                        && (cell_eq a.message_expiry_at_ms b.message_expiry_at_ms
                            && (bool_eq a.retain b.retain
                                && (cell_eq a.expires_at_ms b.expires_at_ms
                                    && (cell_eq a.attempts b.attempts
                                        && (bool_eq a.ever_started b.ever_started
                                            && (str_eq a.state b.state
                                                && cell_eq a.cause b.cause)))))))))))

records_eq : List Record → List Record → Bool
unfolding record_eq
records_eq [] [] = true
records_eq [] (b ∷ bs) = false
records_eq (a ∷ as') [] = false
records_eq (a ∷ as') (b ∷ bs) = record_eq a b && records_eq as' bs

unfoldable pub body_eq : Body → Body → Bool
unfolding records_eq
body_eq a b =
    cell_eq a.schema_version b.schema_version
    && (cell_eq a.next_sequence b.next_sequence
        && (bool_eq a.known_session b.known_session && records_eq a.records b.records))

unfoldable pub snapshot_eq : Snapshot → Snapshot → Bool
unfolding body_eq
snapshot_eq a b =
    body_eq a.body b.body
    && (str_eq a.identity b.identity && str_eq a.snapshot_sha256 b.snapshot_sha256)
