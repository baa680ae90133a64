-- ===== src/Acceptance/Source/Sorted.antt =====
-- The names of the identity: scripts/acceptance.py, `sorted(set(...))` and the filter of `source_identity`.
use Prim.Native.Nat.{compare, Ordering}
use Prim.Native.Char.{code}
use package.text.Mathlib.TextEquality.{codes_equal}
use package.text.Mathlib.TextPositions.{compare_self}
use moon_mqtt_client.Base.{
  ℕ, Bool, true, false, not, List, [], ◌∷◌, String, str_eq, str_eq_iff, str_in, ◌||◌, ◌&&◌, ◌≡◌,
  refl, sym, ap, ◌∙◌, ◌⊎◌, inl, inr, Bool-cases, arith, subst, if◌then◌else◌,
}
use moon_mqtt_client.Base.Text.{codes}
use moon_mqtt_client.Acceptance.Source.{codes_lt, text_lt, insert_name, sorted_set}

-- Texts with the same code points are the same.
codes-injective : (s t : String) → codes s ≡ codes t → s ≡ t
codes-injective String.[] String.[] h = refl
codes-injective String.[] (String.◌∷◌ d t) h = absurd cc
codes-injective (String.◌∷◌ c s) String.[] h = absurd cc
codes-injective (String.◌∷◌ c s) (String.◌∷◌ d t) h =
    let first : code c ≡ code d = cc in
    let rest : codes s ≡ codes t = cc in
    let same : c ≡ d =
      codes_equal c d
        (subst (λ n. compare (code c) n ≡ Ordering.eq) first (compare_self (code c))) in
    ap (λ x. String.◌∷◌ x s) same ∙ ap (λ l. String.◌∷◌ d l) (codes-injective s t rest)

codes_lt-total : (cs ds : List ℕ) → codes_lt cs ds ≡ false → (codes_lt ds cs ≡ true) ⊎ (cs ≡ ds)
codes_lt-total [] [] h = inr refl
codes_lt-total [] (d ∷ ds) h = absurd cc
codes_lt-total (c ∷ cs) [] h = inl refl
codes_lt-total (c ∷ cs) (d ∷ ds) h = ground (arith, codes_lt-total cs ds)

text_lt-total : (s t : String) → str_eq s t ≡ false → text_lt s t ≡ false → text_lt t s ≡ true
text_lt-total s t apart h = elim (codes_lt-total (codes s) (codes t) h) [
  | inl lt ↦ lt
  | inr e ↦ absurd (ground (arith, codes-injective s t e, str_eq_iff s t))
]

codes_lt-nil : (cs : List ℕ) → codes_lt cs [] ≡ false
codes_lt-nil [] = refl
codes_lt-nil (c ∷ cs) = refl

-- No text is before the empty one.
not_before-empty : (s t : String) → str_eq t "" ≡ true → text_lt s t ≡ true → ⊥
not_before-empty s t e h =
    let before : text_lt s "" ≡ true = subst (λ x. text_lt s x ≡ true) ((str_eq_iff t "").0 e) h in
    absurd (ground (arith, before, codes_lt-nil (codes s)))

-- The first is before the second, and so on.
abbrev Below : String → List String → Type 0
Below s [] = Unit
Below s (x ∷ xs) = text_lt s x ≡ true

abbrev pub Increasing : List String → Type 0
Increasing [] = Unit
Increasing (x ∷ xs) = Below x xs × Increasing xs

Below-insert :
    (x s : String) (xs : List String) → text_lt x s ≡ true → Below x xs → Below x (insert_name s xs)
unfolding insert_name
Below-insert x s [] lt h = lt
Below-insert x s (y ∷ ys) lt h = elim (Bool-cases (str_eq s y)) [
  | inl same ↦ rw same h
  | inr apart ↦ elim (Bool-cases (text_lt s y)) [
    | inl before ↦ rw (apart, before) lt
    | inr after ↦ rw (apart, after) h
  ]
]

insert_name-Increasing :
    (s : String) (xs : List String) → Increasing xs → Increasing (insert_name s xs)
unfolding insert_name
insert_name-Increasing s [] h = (tt, tt)
insert_name-Increasing s (x ∷ xs) h = elim (Bool-cases (str_eq s x)) [
  | inl same ↦ rw same h
  | inr apart ↦ elim (Bool-cases (text_lt s x)) [
    | inl before ↦ rw (apart, before) (before, h)
    | inr after ↦
        rw (apart, after)
          (Below-insert x s xs (text_lt-total s x apart after) h.0, insert_name-Increasing s xs h.1)
  ]
]

pub sorted_set-Increasing : (names : List String) → Increasing (sorted_set names)
unfolding sorted_set
sorted_set-Increasing [] = tt
sorted_set-Increasing (s ∷ names) =
    insert_name-Increasing s (sorted_set names) (sorted_set-Increasing names)

twice : (a b : Bool) → (a || b) ≡ (a || (a || b))
twice a b = ground arith

swapped : (a b c : Bool) → (a || (b || c)) ≡ (b || (a || c))
swapped a b c = ground arith

str_in-insert :
    (k s : String) (xs : List String) → str_in k (insert_name s xs) ≡ (str_eq k s || str_in k xs)
unfolding insert_name
str_in-insert k s [] = refl
str_in-insert k s (x ∷ xs) = elim (Bool-cases (str_eq s x)) [
  | inl same ↦ rw same (
      subst (λ y. (str_eq k y || str_in k xs) ≡ (str_eq k s || (str_eq k y || str_in k xs)))
        ((str_eq_iff s x).0 same) (twice (str_eq k s) (str_in k xs)))
  | inr apart ↦ elim (Bool-cases (text_lt s x)) [
    | inl before ↦ rw (apart, before) refl
    | inr after ↦
        rw (apart, after)
          (ap (λ b. str_eq k x || b) (str_in-insert k s xs)
            ∙ swapped (str_eq k x) (str_eq k s) (str_in k xs))
  ]
]

pub str_in-sorted_set :
    (k : String) (names : List String) → str_in k (sorted_set names) ≡ str_in k names
unfolding sorted_set
str_in-sorted_set k [] = refl
str_in-sorted_set k (s ∷ names) =
    str_in-insert k s (sorted_set names) ∙ ap (λ b. str_eq k s || b) (str_in-sorted_set k names)

-- The names that are not empty.
abbrev pub named : List String → List String
named [] = []
named (name ∷ names) = let rest = named names in if str_eq name "" then rest else name ∷ rest

pub named-Increasing : (names : List String) → Increasing names → Increasing (named names)
named-Increasing [] h = tt
named-Increasing (name ∷ names) h = elim (Bool-cases (str_eq name "")) [
  | inl e ↦ rw e (named-Increasing names h.1)
  | inr e ↦ rw e (first names h.0, named-Increasing names h.1)
]
  where
    first : (ys : List String) → Below name ys → Below name (named ys)
    first [] b = tt
    first (y ∷ ys) b = elim (Bool-cases (str_eq y "")) [
      | inl e ↦ absurd (not_before-empty name y e b)
      | inr e ↦ rw e b
    ]

without : (a b : Bool) → (b && not a) ≡ ((a || b) && not a)
without a b = ground arith

within : (a b c : Bool) → (a ≡ true → b ≡ false) → (a || (c && not b)) ≡ ((a || c) && not b)
within a b c h = ground (arith, h)

pub str_in-named :
    (k : String) (names : List String)
    → str_in k (named names) ≡ (str_in k names && not (str_eq k ""))
str_in-named k [] = refl
str_in-named k (name ∷ names) = elim (Bool-cases (str_eq name "")) [
  | inl e ↦ rw e (
      str_in-named k names
      ∙ subst
          (λ x.
            (str_in k names && not (str_eq k ""))
            ≡ ((str_eq k x || str_in k names) && not (str_eq k "")))
          (sym ((str_eq_iff name "").0 e)) (without (str_eq k "") (str_in k names)))
  | inr e ↦ rw e (
      ap (λ b. str_eq k name || b) (str_in-named k names)
      ∙ within (str_eq k name) (str_eq k "") (str_in k names)
          (λ h. subst (λ x. str_eq x "" ≡ false) (sym ((str_eq_iff k name).0 h)) e))
]
