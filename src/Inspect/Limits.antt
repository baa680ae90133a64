-- ===== src/Inspect/Limits.antt =====
-- What is true of a snapshot that `snapshot` of scripts/durable_recovery.py returns: its limits and the
-- metadata it accepts.
use moon_mqtt_client.Base.{
  ℕ, ◌+◌, ◌≤◌, true, false, ◌≡◌, refl, List, [], ◌∷◌, length, arith, str_eq, ap,
}
use moon_mqtt_client.Base.Int.{pos}
use moon_mqtt_client.Sqlite.{is_number}
use moon_mqtt_client.Durable.{Row, Meta, Record, Snapshot, max_source_bytes, max_records}
use moon_mqtt_client.Exec.{ok}
use moon_mqtt_client.Exec.Returns.{
  Returns, Returns-pure, Returns-refuse, Returns-bind, Returns-after, Returns-skip, Returns-require,
}
use moon_mqtt_client.World.{Env, World}
use moon_mqtt_client.Inspect.{snapshot, read_rows, metadata}

-- The bytes of all payloads and properties.
pub blob_bytes : List Record → ℕ
blob_bytes [] = 0
blob_bytes (r ∷ rs) = length r.payload + length r.properties + blob_bytes rs

pub record IsBounded (s : Snapshot) : Type 0 where
  pub identity : str_eq s.identity "" ≡ false
  pub version : is_number (pos 2) s.body.schema_version ≡ true
  pub records_le : length s.body.records ≤ max_records
  pub bytes_le : blob_bytes s.body.records ≤ max_source_bytes

read_rows-blob_bytes :
    (rows : List Row) (total : ℕ)
    → total ≤ max_source_bytes
    → Returns {S = World}
        (read_rows rows total)
        (λ rs. (length rs ≡ length rows) × (total + blob_bytes rs ≤ max_source_bytes))
unfolding read_rows blob_bytes
read_rows-blob_bytes [] total h = Returns-pure _ (refl, omega arith)
read_rows-blob_bytes (row ∷ rows) total h = Returns-after _ _ λ b. Returns-require _ _ _ λ small.
    Returns-skip _ _ (
      Returns-bind _ _ _
        (read_rows-blob_bytes rows (total + length b.0 + length b.1) (ground arith))
        λ rs k. Returns-pure _ (ap ℕ.suc k.0, omega (arith, k.1)))

metadata-accepted :
    (rows : List Meta)
    → Returns {S = World}
        (metadata rows)
        (λ m. (str_eq m.1 "" ≡ false) × (is_number (pos 2) m.0.schema_version ≡ true))
unfolding metadata
metadata-accepted [] = Returns-refuse _
metadata-accepted (m ∷ []) = Returns-after _ _ λ identity.
    Returns-require _ _ _ λ h. Returns-skip _ _ (Returns-pure _ (ground arith, ground arith))
metadata-accepted (m ∷ n ∷ rows) = Returns-refuse _

snapshot-Bounded :
    (env : Env) (connection : ℕ) → Returns {S = World} (snapshot env connection) IsBounded
unfolding snapshot
snapshot-Bounded env connection = Returns-skip _ _ (
    Returns-after _ _ λ size. Returns-after _ _ λ count. Returns-skip _ _ (
      Returns-after _ _ λ meta. Returns-bind _ _ _ (metadata-accepted _) λ m named.
        Returns-after _ _ λ outbox. Returns-require _ _ _ λ few.
          Returns-bind _ _ _ (read_rows-blob_bytes _ 0 (omega arith)) λ records k.
            Returns-skip _ _ (
              Returns-pure _ (record {
                identity = named.0;
                version = named.1;
                records_le = ground (arith, k.0);
                bytes_le = omega (arith, k.1);
              }))))

-- A snapshot that `snapshot` returns has a nonempty identity, schema version 2, at most 65,535 records,
-- and at most 512 MiB of payloads and properties in them together.
pub snapshot-IsBounded :
    (env : Env) (connection : ℕ) (w : World) (s : Snapshot)
    → (snapshot env connection w).0 ≡ ok s
    → IsBounded s
snapshot-IsBounded env connection w s h = (snapshot-Bounded env connection).at w s h
