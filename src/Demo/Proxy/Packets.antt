-- ===== src/Demo/Proxy/Packets.antt =====
-- The packets of MQTT: a header byte, the length of the body as a Variable Byte Integer, the body.
-- `_packet_end` of examples/mqtt_demo/demo.py finds the end of such a packet.
use moon_mqtt_client.Base.{
  ℕ, zero, suc, ◌+◌, ◌*◌, ◌/◌, ◌%◌, ◌≤◌, ◌<◌, ◌≡◌, refl, ◌∙◌, sym, ap, List, [], ◌∷◌, ◌++◌, Option,
  some, none, length, length-append, ltb, ltb→lt, if_true, leb, le→leb, true, false, arith,
  Bool-cases, inl, inr, if◌then◌else◌,
}
use mathlib.Core.List.{append_assoc}
use native.Mathlib.Nat.{mul_comm, mul_assoc, add-mul}
use moon_mqtt_client.Demo.Proxy.{length_loop, packet_end}

pub record Packet : Type 0 where
  pub header : ℕ
  pub body : List ℕ

-- A Variable Byte Integer of at most `k + 1` bytes: seven bits in each, the lowest first, and 128 added
-- where more follow.
unfoldable pub length_bytes : ℕ → ℕ → List ℕ
length_bytes zero n = n ∷ []
length_bytes (suc k) n =
    let rest = length_bytes k (n / 128) in if ltb n 128 then n ∷ [] else (128 + n % 128) ∷ rest

-- The bytes of a packet. MQTT has four bytes for the length at most.
abbrev pub print : Packet → List ℕ
print p = p.header ∷ (length_bytes 3 (length p.body) ++ p.body)

abbrev pub print_all : List Packet → List ℕ
print_all [] = []
print_all (p ∷ ps) = print p ++ print_all ps

-- What `k + 1` bytes can hold.
abbrev limit : ℕ → ℕ
limit zero = 128
limit (suc k) = 128 * limit k

-- The length fits in four bytes.
abbrev pub Fits : Packet → Type 0
Fits p = length p.body < 268435456

-- What the loop answers at the end of the length.
abbrev answer : ℕ → ℕ → Option ℕ
answer size end = if leb end size then some end else none

digits : (n m : ℕ) → (n % 128) * m + (n / 128) * (m * 128) ≡ n * m
digits n m =
    let whole : n % 128 + (n / 128) * 128 ≡ n = omega arith in
    ap (λ x. (n % 128) * m + x)
      (ap (λ x. (n / 128) * x) (mul_comm m 128) ∙ sym (mul_assoc (n / 128) 128 m))
    ∙ sym (add-mul (n % 128) ((n / 128) * 128) m)
    ∙ ap (λ x. x * m) whole

module _ (size : ℕ) (rest : List ℕ) (pos remaining multiplier : ℕ) where
  last_digit :
      (n : ℕ)
      → ltb n 128 ≡ true
      → length_loop size (n ∷ rest) pos remaining multiplier
        ≡ answer size (pos + 1 + (remaining + n * multiplier))
  unfolding length_loop
  last_digit n h = let small : n % 128 ≡ n = omega (arith, ltb→lt n 128 h) in rw (h, small) refl

  next_digit :
      (d : ℕ)
      → d < 128
      → length_loop size ((128 + d) ∷ rest) pos remaining multiplier
        ≡ length_loop size rest (pos + 1) (remaining + d * multiplier) (multiplier * 128)
  unfolding length_loop
  next_digit d h =
      let low : (128 + d) % 128 ≡ d = omega arith in
      let high : ltb (128 + d) 128 ≡ false = ground arith in rw (high, low) refl

length_loop-bytes :
    (k n size : ℕ) (rest : List ℕ) (pos remaining multiplier : ℕ)
    → n < limit k
    → length_loop size (length_bytes k n ++ rest) pos remaining multiplier
      ≡ answer size (pos + length (length_bytes k n) + (remaining + n * multiplier))
unfolding length_bytes
length_loop-bytes zero n size rest pos remaining multiplier h =
    last_digit size rest pos remaining multiplier n (ground arith)
length_loop-bytes (suc k) n size rest pos remaining multiplier h = elim (Bool-cases (ltb n 128)) [
  | inl small ↦ rw small (last_digit size rest pos remaining multiplier n small)
  | inr big ↦
      let later = length_bytes k (n / 128) in
      rw big (
        next_digit size (later ++ rest) pos remaining multiplier (n % 128) (omega arith)
        ∙ length_loop-bytes k (n / 128) size rest (pos + 1) (remaining + (n % 128) * multiplier)
            (multiplier * 128) (omega (arith, h))
        ∙ ap (answer size) (omega (arith, digits n multiplier)))
]

-- The end of the first packet.
pub packet_end-print :
    (p : Packet) (rest : List ℕ) → Fits p → packet_end (print p ++ rest) ≡ some (length (print p))
unfolding packet_end
packet_end-print p rest h =
    let n = length p.body in
    let size = length (print p ++ rest) in
    let room : 1 + length (length_bytes 3 n) + (0 + n * 1) ≤ size = omega (
      arith,
      length-append (length_bytes 3 n ++ p.body) rest,
      length-append (length_bytes 3 n) p.body,
    ) in
    ap (λ l. length_loop size l 1 0 1) (append_assoc (length_bytes 3 n) p.body rest)
    ∙ length_loop-bytes 3 n size (p.body ++ rest) 1 0 1 h
    ∙ if_true _ _ (le→leb (1 + length (length_bytes 3 n) + (0 + n * 1)) size room)
    ∙ ap some (omega (arith, length-append (length_bytes 3 n) p.body))
