-- ===== src/Identity/Digits.antt =====
-- Reading a decimal number back from a text: the inverse of `str(n)` in scripts/durable_recovery.py,
-- `durable_identity`.
use Prim.Native.Char.{Char, code}
use Prim.Native.String.{◌++◌}
use package.text.Mathlib.TextLemmas.{cons-append, nil-append, tail-eq_of_cons-eq}
use moon_mqtt_client.Base.{
  ℕ, zero, suc, ◌+◌, ◌-◌, ◌*◌, ◌/◌, ◌%◌, ◌<◌, String, Bool, true, false, ◌&&◌, ◌≡◌, refl, ◌∙◌, sym,
  ap, ltb, leb, if◌then◌else◌, arith, Bool-cases, inl, inr,
}
use moon_mqtt_client.Identity.{digit, digits, decimal}

abbrev pub is_digit : Char → Bool
is_digit c = leb 48 (code c) && leb (code c) 57

-- The number that the digits at the front of a text spell behind `n`, and what follows them.
pub read : ℕ → String → ℕ × String
read n String.[] = (n, String.[])
read n (String.◌∷◌ c s) =
    let rest = read (n * 10 + (code c - 48)) s in if is_digit c then rest else (n, String.◌∷◌ c s)

code-digit : (n : ℕ) → n < 10 → code (digit n) ≡ 48 + n
code-digit zero h = refl
code-digit (suc zero) h = refl
code-digit (suc (suc zero)) h = refl
code-digit (suc (suc (suc zero))) h = refl
code-digit (suc (suc (suc (suc zero)))) h = refl
code-digit (suc (suc (suc (suc (suc zero))))) h = refl
code-digit (suc (suc (suc (suc (suc (suc zero)))))) h = refl
code-digit (suc (suc (suc (suc (suc (suc (suc zero))))))) h = refl
code-digit (suc (suc (suc (suc (suc (suc (suc (suc zero)))))))) h = refl
code-digit (suc (suc (suc (suc (suc (suc (suc (suc (suc zero))))))))) h = refl
code-digit (suc (suc (suc (suc (suc (suc (suc (suc (suc (suc n)))))))))) h = absurd (omega arith)

is_digit-digit : (d : ℕ) → d < 10 → is_digit (digit d) ≡ true
is_digit-digit d h = rw (code-digit d h) (ground arith)

read-cons :
    (n : ℕ) (c : Char) (s : String)
    → is_digit c ≡ true
    → read n (String.◌∷◌ c s) ≡ read (n * 10 + (code c - 48)) s
unfolding read
read-cons n c s h = rw h refl

read-digit : (n d : ℕ) (s : String) → d < 10 → read n (String.◌∷◌ (digit d) s) ≡ read (n * 10 + d) s
read-digit n d s h =
    read-cons n (digit d) s (is_digit-digit d h)
    ∙ ap (λ k. read k s) (omega (arith, code-digit d h))

read-digits :
    (fuel n : ℕ) (acc rest : String)
    → n < fuel
    → read 0 (digits fuel n acc ++ rest) ≡ read n (acc ++ rest)
unfolding digits
read-digits zero n acc rest h = absurd (omega arith)
read-digits (suc fuel) n acc rest h = elim (Bool-cases (ltb n 10)) [
  | inl small ↦
      rw (small, cons-append (digit n) acc rest)
        (read-digit 0 n (acc ++ rest) (ground arith) ∙ ap (λ k. read k (acc ++ rest)) (omega arith))
  | inr large ↦ rw large (
      read-digits fuel (n / 10) (String.◌∷◌ (digit (n % 10)) acc) rest (ground arith)
      ∙ ap (read (n / 10)) (cons-append (digit (n % 10)) acc rest)
      ∙ read-digit (n / 10) (n % 10) (acc ++ rest) (omega arith)
      ∙ ap (λ k. read k (acc ++ rest)) (omega arith))
]

-- A text that does not begin with a digit.
read_stops :
    (n : ℕ) (c : Char) (s : String)
    → is_digit c ≡ false
    → read n (String.◌∷◌ c s) ≡ (n, String.◌∷◌ c s)
unfolding read
read_stops n c s h = rw h refl

-- A decimal number before something that is no digit is read back.
pub read-decimal :
    (n : ℕ) (c : Char) (s : String)
    → is_digit c ≡ false
    → read 0 (decimal n ++ String.◌∷◌ c s) ≡ (n, String.◌∷◌ c s)
unfolding decimal
read-decimal n c s h =
    read-digits (suc n) n "" (String.◌∷◌ c s) (omega arith)
    ∙ ap (read n) (nil-append (String.◌∷◌ c s))
    ∙ read_stops n c s h

-- So two such texts agree only in the number and in what follows.
pub decimal-injective :
    (n m : ℕ) (c : Char) (s t : String)
    → is_digit c ≡ false
    → decimal n ++ String.◌∷◌ c s ≡ decimal m ++ String.◌∷◌ c t
    → (n ≡ m) × (s ≡ t)
decimal-injective n m c s t h e =
    let same = sym (read-decimal n c s h) ∙ ap (read 0) e ∙ read-decimal m c t h in
    (ap (λ p. p.0) same, tail-eq_of_cons-eq (ap (λ p. p.1) same))
