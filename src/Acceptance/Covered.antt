-- ===== src/Acceptance/Covered.antt =====
-- What a successful acceptance run of scripts/acceptance.py has run.
use moon_mqtt_client.Base.{
  ℕ, suc, ◌≤◌, Bool, true, false, ◌&&◌, ◌||◌, ◌≡◌, refl, ◌∙◌, sym, ap, subst, List, [], ◌∷◌, some,
  String, str_eq, str_eq_refl, str_eq_iff, str_in, exists, length, ◌==◌, arith, ◌⊎◌, inl, inr,
  Option-cases,
}
use moon_mqtt_client.Acceptance.{
  Scenario, Manifest, Arguments, Machine, Row, Result, Ended, finished, listed, index_of, at_level,
  ids, choose, prepare, is_only_level, is_good, all_good, run_scenario, run_all, run_scenarios,
  run_selected, main,
}

-- An attempt with this ID has passed, or its platform is another one.
abbrev pub has_good_row : String → List Row → Bool
has_good_row id rows = exists (λ row. str_eq id row.id && is_good row.status) rows

abbrev pub row_ids : List Row → List String
row_ids [] = []
row_ids (row ∷ rows) = row.id ∷ row_ids rows

-- The scenario is in the list.
abbrev pub IsIn : Scenario → List Scenario → Type 0
IsIn s [] = ⊥
IsIn s (t ∷ ts) = (s ≡ t) ⊎ IsIn s ts

-- `main` with this level runs it, unless `--only` leaves it out.
pub record IsOfLevel (manifest : Manifest) (level : String) (s : Scenario) : Type 0 where
  pub rank : ℕ
  pub rank_eq : index_of s.level manifest.levels ≡ some rank
  pub limit : ℕ
  pub limit_eq : index_of level manifest.levels ≡ some limit
  pub le : rank ≤ limit
  pub here : is_only_level level s.only_levels ≡ true

run_scenario-id :
    (machine : Machine) (n : ℕ) (s : Scenario) (row : Row)
    → run_scenario machine n s ≡ some row
    → row.id ≡ s.id
unfolding run_scenario
run_scenario-id machine n s row h = ground arith

run_all-ids :
    (machine : Machine) (n : ℕ) (ss : List Scenario) (rows : List Row)
    → run_all machine n ss ≡ some rows
    → row_ids rows ≡ ids ss
unfolding run_all ids
run_all-ids machine n [] rows h = ground arith
run_all-ids machine n (s ∷ ss) rows h = elim (Option-cases (run_scenario machine n s)) [
  | inl e ↦ ground (arith, e)
  | inr (row, e) ↦ elim (Option-cases (run_all machine (suc n) ss)) [
    | inl e' ↦ ground (arith, e, e')
    | inr (rest, e') ↦
        ground
          (arith, e, e', run_scenario-id machine n s row e, run_all-ids machine (suc n) ss rest e')
  ]
]

all_good-has_good_row :
    (id : String) (rows : List Row)
    → all_good rows ≡ true
    → str_in id (row_ids rows) ≡ true
    → has_good_row id rows ≡ true
unfolding all_good
all_good-has_good_row id [] h m = m
all_good-has_good_row id (row ∷ rows) h m = ground (arith, all_good-has_good_row id rows)

prepare-ids :
    (id : String) (ss : List Scenario)
    → str_in id (ids ss) ≡ true
    → str_in id (ids (prepare ss)) ≡ true
unfolding prepare ids
prepare-ids id [] m = m
prepare-ids id (s ∷ ss) m = ground (arith, prepare-ids id ss)

choose-ids :
    (id : String) (only : List String) (ss : List Scenario)
    → str_in id only ≡ true
    → str_in id (ids ss) ≡ true
    → str_in id (ids (choose only ss)) ≡ true
unfolding choose ids
choose-ids id only [] h m = m
choose-ids id only (s ∷ ss) h m = ground (arith, choose-ids id only ss h, str_eq_iff id s.id)

at_level-ids :
    (manifest : Manifest) (level : String) (s : Scenario) (ss found : List Scenario)
    (of : IsOfLevel manifest level s)
    → at_level manifest level of.limit ss ≡ some found
    → IsIn s ss
    → str_in s.id (ids found) ≡ true
unfolding at_level ids
at_level-ids manifest level s [] found of h m = absurd m
at_level-ids manifest level s (t ∷ ts) found of h m =
    elim (Option-cases (index_of t.level manifest.levels)) [
      | inl e ↦ ground (arith, e)
      | inr (n, e) ↦ elim (Option-cases (at_level manifest level of.limit ts)) [
        | inl e' ↦ ground (arith, e, e')
        | inr (rest, e') ↦ elim m [
          | inl same ↦
              let e'' : index_of t.level manifest.levels ≡ some of.rank =
                rw (sym same) of.rank_eq in
              ground (
                arith,
                e'',
                e',
                of.le,
                subst (λ x. is_only_level level x.only_levels ≡ true) same of.here,
                ap (λ x. x.id) same,
                str_eq_refl s.id,
              )
          | inr later ↦ ground (arith, e, e', at_level-ids manifest level s ts rest of e' later)
        ]
      ]
    ]

module _ (machine : Machine) (id : String) (result : Result) (good : result.successful ≡ true) where
  Ran : Ended → Type 0
  Ran ended = ended ≡ finished result → has_good_row id result.attempts ≡ true

  run_scenarios-good :
      (args : Arguments) (ss : List Scenario)
      → str_in id (ids ss) ≡ true
      → Ran (run_scenarios machine args ss)
  unfolding run_scenarios Ran
  run_scenarios-good args ss m h = elim (Option-cases (run_all machine 0 ss)) [
    | inl e ↦ ground (arith, e, h)
    | inr (rows, e) ↦
        let same : str_in id (row_ids rows) ≡ true = rw (run_all-ids machine 0 ss rows e) m in
        ground (arith, e, h, good, all_good-has_good_row id rows)
  ]

  run_selected-good :
      (args : Arguments) (ss : List Scenario)
      → str_in id (ids ss) ≡ true
      → (length args.only == 0) || str_in id args.only ≡ true
      → Ran (run_selected machine args ss)
  unfolding run_selected Ran
  run_selected-good args ss m chosen h = ground (
    arith,
    h,
    m,
    chosen,
    run_scenarios-good args (prepare ss) (prepare-ids id ss m),
    choose-ids id args.only ss,
    prepare-ids id (choose args.only ss),
    run_scenarios-good args (prepare (choose args.only ss)),
  )

-- When `main` writes a result that is successful, every scenario of the manifest that belongs to the level,
-- by its own level and `only_levels`, and that `--only` does not leave out has an attempt in the result that
-- has passed or that the platform does not apply to.
pub main-covered :
    (machine : Machine) (manifest : Manifest) (args : Arguments) (result : Result) (s : Scenario)
    → main machine manifest args ≡ finished result
    → result.successful ≡ true
    → IsIn s manifest.scenarios
    → IsOfLevel manifest args.level s
    → ((length args.only == 0) || str_in s.id args.only) ≡ true
    → has_good_row s.id result.attempts ≡ true
unfolding main Ran
main-covered machine manifest args result s h good m of chosen =
    elim (Option-cases (at_level manifest args.level of.limit manifest.scenarios)) [
      | inl e ↦ ground (arith, of.limit_eq, e, h)
      | inr (found, e) ↦
          run_selected-good machine s.id result good args found
            (at_level-ids manifest args.level s manifest.scenarios found of e m) chosen
            (sym (rw (main, of.limit_eq, e) refl) ∙ h)
    ]

run_scenarios-ids :
    (machine : Machine) (args : Arguments) (ss : List Scenario) (result : Result)
    → run_scenarios machine args ss ≡ finished result
    → row_ids result.attempts ≡ ids ss
unfolding run_scenarios
run_scenarios-ids machine args ss result h = elim (Option-cases (run_all machine 0 ss)) [
  | inl e ↦ ground (arith, e, h)
  | inr (rows, e) ↦ ground (arith, e, h, run_all-ids machine 0 ss rows e)
]

run_selected-ids :
    (machine : Machine) (args : Arguments) (found ss : List Scenario) (result : Result)
    → run_selected machine (record args { list_only = false }) found ≡ finished result
    → run_selected machine (record args { list_only = true }) found ≡ listed ss
    → row_ids result.attempts ≡ ids ss
unfolding run_selected
run_selected-ids machine args found ss result run list = ground (
  arith,
  run,
  list,
  run_scenarios-ids machine (record args { list_only = false }) (prepare found) result,
  run_scenarios-ids machine (record args { list_only = false }) (prepare (choose args.only found))
      result,
)

-- What `main` runs is what it lists: with the same level and `--only`, a result has one attempt for each
-- scenario that `--list` gives, with its ID and in that order.
pub main-listed :
    (machine : Machine) (manifest : Manifest) (args : Arguments) (result : Result)
    (ss : List Scenario)
    → main machine manifest (record args { list_only = false }) ≡ finished result
    → main machine manifest (record args { list_only = true }) ≡ listed ss
    → row_ids result.attempts ≡ ids ss
unfolding main
main-listed machine manifest args result ss run list =
    elim (Option-cases (index_of args.level manifest.levels)) [
      | inl e ↦ ground (arith, e, run)
      | inr (limit, e) ↦
          elim (Option-cases (at_level manifest args.level limit manifest.scenarios)) [
            | inl e' ↦ ground (arith, e, e', run)
            | inr (found, e') ↦
                run_selected-ids machine args found ss result (sym (rw (main, e, e') refl) ∙ run)
                  (sym (rw (main, e, e') refl) ∙ list)
          ]
    ]
