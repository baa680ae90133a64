-- ===== src/Demo/Proxy/Framing.antt =====
-- `_packet_end` of examples/mqtt_demo/demo.py: what it returns is the end of a packet that is whole, and
-- later bytes do not move it.
use moon_mqtt_client.Base.{
  ℕ, ◌+◌, ◌*◌, ◌%◌, ◌≤◌, ◌<◌, ◌≡◌, List, [], ◌∷◌, ◌++◌, some, length, length-append, arith,
}
use moon_mqtt_client.Demo.Proxy.{length_loop, packet_end}

length_loop-bounds :
    (size : ℕ) (bytes : List ℕ) (pos remaining multiplier end : ℕ)
    → length_loop size bytes pos remaining multiplier ≡ some end
    → (pos < end) × (end ≤ size)
unfolding length_loop
length_loop-bounds size [] pos remaining multiplier end h = absurd cc
length_loop-bounds size (digit ∷ rest) pos remaining multiplier end h = ground (
  arith,
  length_loop-bounds size rest (pos + 1) (remaining + (digit % 128) * multiplier) (multiplier * 128)
      end,
)

length_loop-append :
    (size size' : ℕ) (bytes later : List ℕ) (pos remaining multiplier end : ℕ)
    → size ≤ size'
    → length_loop size bytes pos remaining multiplier ≡ some end
    → length_loop size' (bytes ++ later) pos remaining multiplier ≡ some end
unfolding length_loop
length_loop-append size size' [] later pos remaining multiplier end le h = absurd cc
length_loop-append size size' (digit ∷ rest) later pos remaining multiplier end le h = ground (
  arith,
  length_loop-append size size' rest later (pos + 1) (remaining + (digit % 128) * multiplier)
      (multiplier * 128) end le,
)

pub packet_end-bounds :
    (buffer : List ℕ) (end : ℕ) → packet_end buffer ≡ some end → (0 < end) × (end ≤ length buffer)
unfolding packet_end
packet_end-bounds [] end h = absurd cc
packet_end-bounds (header ∷ rest) end h =
    let b = length_loop-bounds _ rest 1 0 1 end h in (omega (arith, b.0), b.1)

pub packet_end-append :
    (buffer later : List ℕ) (end : ℕ)
    → packet_end buffer ≡ some end
    → packet_end (buffer ++ later) ≡ some end
unfolding packet_end
packet_end-append [] later end h = absurd cc
packet_end-append (header ∷ rest) later end h =
    length_loop-append _ _ rest later 1 0 1 end (omega (arith, length-append rest later)) h
