-- ===== src/Sqlite.antt =====
-- The values that SQLite hands to Python, and their order. INTEGER, REAL, TEXT and BLOB cells may
-- stand in any column, since a column's type is an affinity only.
use moon_mqtt_client.Base.{ℕ, String, Bool, true, false, List, [], ◌∷◌, ◌&&◌, ◌||◌, ltb, ◌==◌}
use moon_mqtt_client.Base.Int.{
  ℤ, pos, Float, finite, infinite, nan, int_le, int_eq, ratio_eq, ratio_le,
}
use moon_mqtt_client.Base.Text.{encode}

pub data Cell : Type 0 where
  null : Cell
  integer : ℤ → Cell
  real : Float → Cell
  text : String → Cell
  blob : List ℕ → Cell

-- `cell == n` in Python, for an integer n of the program.
abbrev pub is_number : ℤ → Cell → Bool
is_number n null = false
is_number n (integer k) = int_eq k n
is_number n (real (finite m e)) = ratio_eq m e n 0
is_number n (real infinite) = false
is_number n (real nan) = false
is_number n (text s) = false
is_number n (blob b) = false

-- `cell in (0, 1)`
abbrev pub is_bit : Cell → Bool
is_bit c = is_number (pos 0) c || is_number (pos 1) c

-- Bytes as `memcmp` orders them.
abbrev pub bytes_le : List ℕ → List ℕ → Bool
bytes_le [] ys = true
bytes_le (x ∷ xs) [] = false
bytes_le (x ∷ xs) (y ∷ ys) = ltb x y || (x == y && bytes_le xs ys)

-- SQLite's order of numbers; infinities are held as one value, above all numbers.
abbrev pub number_le : Float → Float → Bool
number_le (finite a j) (finite b k) = ratio_le a j b k
number_le (finite a j) _ = true
number_le infinite (finite b k) = false
number_le infinite _ = true
number_le nan (finite b k) = false
number_le nan _ = true

abbrev pub as_float : ℤ → Float
as_float n = finite n 0

-- `ORDER BY`: NULL, then numbers, then texts, then blobs.
abbrev pub cell_le : Cell → Cell → Bool
cell_le null d = true
cell_le (integer a) null = false
cell_le (integer a) (integer b) = int_le a b
cell_le (integer a) (real y) = number_le (as_float a) y
cell_le (integer a) (text t) = true
cell_le (integer a) (blob b) = true
cell_le (real x) null = false
cell_le (real x) (integer b) = number_le x (as_float b)
cell_le (real x) (real y) = number_le x y
cell_le (real x) (text t) = true
cell_le (real x) (blob b) = true
cell_le (text s) (text t) = bytes_le (encode s) (encode t)
cell_le (text s) (blob b) = true
cell_le (text s) _ = false
cell_le (blob b) (blob c) = bytes_le b c
cell_le (blob b) _ = false
