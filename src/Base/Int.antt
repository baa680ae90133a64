-- ===== src/Base/Int.antt =====
-- Integers over the native numbers, and the finite floats of Python as integer ratios.
use Prim.Native.Nat.{ℕ, zero, suc, ◌*◌, ◌^◌}
use mathlib.Core.Bool.{Bool, true, false}
use moon_mqtt_client.Base.Tests.{leb, ◌==◌}

-- `negsuc n` is -(n + 1).
pub data ℤ : Type 0 where
  pos : ℕ → ℤ
  negsuc : ℕ → ℤ

abbrev pub int_eq : ℤ → ℤ → Bool
int_eq (pos a) (pos b) = a == b
int_eq (pos a) (negsuc b) = false
int_eq (negsuc a) (pos b) = false
int_eq (negsuc a) (negsuc b) = a == b

abbrev pub int_le : ℤ → ℤ → Bool
int_le (pos a) (pos b) = leb a b
int_le (pos a) (negsuc b) = false
int_le (negsuc a) (pos b) = true
int_le (negsuc a) (negsuc b) = leb b a

-- `- n`
abbrev pub negate : ℕ → ℤ
negate zero = pos 0
negate (suc k) = negsuc k

abbrev pub scale : ℤ → ℕ → ℤ
scale (pos a) n = pos (a * n)
scale (negsuc a) n = negate (suc a * n)

-- A finite float is an integer over a power of two, as `float.as_integer_ratio` gives it.
pub data Float : Type 0 where
  finite : ℤ → ℕ → Float
  infinite nan : Float

-- `x == y` and `x <= y` where `x` is `a / 2 ^ j` and `y` is `b / 2 ^ k`.
abbrev pub ratio_eq : ℤ → ℕ → ℤ → ℕ → Bool
ratio_eq a j b k = int_eq (scale a (2 ^ k)) (scale b (2 ^ j))

abbrev pub ratio_le : ℤ → ℕ → ℤ → ℕ → Bool
ratio_le a j b k = int_le (scale a (2 ^ k)) (scale b (2 ^ j))
