-- ===== src/Evidence/Supported.antt =====
-- What stands behind a classification of examples/esp32/b2_evidence.py.
use moon_mqtt_client.Base.Int.{pos, negsuc}
use moon_mqtt_client.Base.{
  str_in, ℕ, ◌<◌, ◌⊎◌, str_eq_iff, if_true, if_false, some_injective, subst, Bool, true, ◌&&◌, ◌≡◌,
  ◌≢◌, refl, ◌∙◌, sym, ap, List, [], ◌∷◌, Option, none, some, String, str_eq, arith, Option-cases,
  Bool-cases, inl, inr,
}
use moon_mqtt_client.Evidence.{
  is_unambiguous, observation_ids, Count, count, not_a_count, zero, once, multiple, execution_of,
  Item, Observation, Command, Manifest, Execution, evidence_insufficient, Row, Classification,
  observation, holds, matches, calibrated_of, executed, outcome, classify_commands, classify_run,
}

abbrev pub IsListed : Observation → List Observation → Type 0
IsListed row [] = ⊥
IsListed row (first ∷ rows) = (row ≡ first) ⊎ IsListed row rows

-- The file is there and has the hash that was recorded for it.
abbrev pub IsUnchanged : (String → Option String) → Item → Type 0
IsUnchanged hash_of item = hash_of item.file ≡ some item.sha256

-- Two distinct applies were resolved, in a capture that is as it was recorded.
pub record Calibrated (hash_of : String → Option String) (manifest : Manifest) : Type 0 where
  pub resolved : manifest.two_distinct_applies_resolved ≡ true
  pub capture : Item
  pub capture_eq : manifest.raw_capture ≡ some capture
  pub unchanged : IsUnchanged hash_of capture

-- An execution that was seen `n` times.
abbrev pub Means : Execution → ℕ → Type 0
Means evidence_insufficient n = ⊥
Means zero n = n ≡ 0
Means once n = n ≡ 1
Means multiple n = 1 < n

-- An observation of the list that an independent observer made of everything, with a capture that is as it
-- was recorded, and a count that means the execution.
pub record Supports (hash_of : String → Option String) (physical : List Observation) (id : String)
    (e : Execution) : Type 0 where
  pub row : Observation
  pub listed : IsListed row physical
  pub id_eq : row.id ≡ id
  pub independent : row.independent_observer ≡ true
  pub complete : row.coverage_complete ≡ true
  pub capture : Item
  pub capture_eq : row.raw_capture ≡ some capture
  pub unchanged : IsUnchanged hash_of capture
  pub times : ℕ
  pub count_eq : row.apply_count ≡ some (count (pos times))
  pub means : Means e times

-- The rows are those of the commands, in their order; a row says something if an observation counts, and
-- every row that says something is supported.
pub IsSupported :
    (String → Option String) → Manifest → List Observation → List Command → List Row → Type 0
IsSupported hash_of manifest physical [] [] = Unit {0}
IsSupported hash_of manifest physical [] (row ∷ rows) = ⊥
IsSupported hash_of manifest physical (command ∷ commands) [] = ⊥
IsSupported hash_of manifest physical (command ∷ commands) (row ∷ rows) =
    (row.id ≡ command.id)
    × (row.case ≡ command.case)
    × (Calibrated hash_of manifest
        → (o : Observation) → IsListed o physical
        → o.id ≡ command.id
        → o.independent_observer ≡ true
        → o.coverage_complete ≡ true
        → row.execution ≢ evidence_insufficient)
    × (row.execution ≢ evidence_insufficient
        → Calibrated hash_of manifest × Supports hash_of physical row.id row.execution)
    × IsSupported hash_of manifest physical commands rows

observation-IsListed :
    (id : String) (rows : List Observation) (row : Observation)
    → observation id rows ≡ some row
    → IsListed row rows × (row.id ≡ id)
unfolding observation
observation-IsListed id [] row h = absurd cc
observation-IsListed id (first ∷ rows) row h = elim (Bool-cases (str_eq id first.id)) [
  | inl same ↦
      let here : first ≡ row = some_injective (sym (if_true _ _ same) ∙ h) in
      (
        inl (sym here),
        ap (λ (r : Observation). r.id) (sym here) ∙ sym ((str_eq_iff id first.id).0 same),
      )
  | inr other ↦
      let (listed, id_eq) = observation-IsListed id rows row (sym (if_false _ _ other) ∙ h) in
      (inr listed, id_eq)
]

str_in-IsListed :
    (o : Observation) (rows : List Observation)
    → IsListed o rows
    → str_in o.id (observation_ids rows) ≡ true
str_in-IsListed o [] l = absurd l
str_in-IsListed o (first ∷ rows) (inl e) =
    rw ((str_eq_iff o.id first.id).1 (ap (λ (r : Observation). r.id) e)) refl
str_in-IsListed o (first ∷ rows) (inr l) =
    let later = str_in-IsListed o rows l in ground (arith, later)

observation-listed :
    (o : Observation) (rows : List Observation)
    → is_unambiguous rows ≡ true
    → IsListed o rows
    → observation o.id rows ≡ some o
unfolding observation
observation-listed o [] once_each l = absurd l
observation-listed o (first ∷ rows) once_each (inl e) =
    if_true _ _ ((str_eq_iff o.id first.id).1 (ap (λ (r : Observation). r.id) e)) ∙ ap some (sym e)
observation-listed o (first ∷ rows) once_each (inr l) = elim (Bool-cases (str_eq o.id first.id)) [
  | inl same ↦
      let twice : str_in first.id (observation_ids rows) ≡ true =
        subst (λ id. str_in id (observation_ids rows) ≡ true) ((str_eq_iff o.id first.id).0 same)
          (str_in-IsListed o rows l) in
      absurd (ground (arith, once_each, twice))
  | inr other ↦ if_false _ _ other ∙ observation-listed o rows (ground (arith, once_each)) l
]

execution_of-Means :
    (c : Count) (e : Execution)
    → execution_of c ≡ some e
    → (n : ℕ) × (c ≡ count (pos n)) × Means e n
execution_of-Means not_a_count e h = absurd cc
execution_of-Means (count (negsuc n)) e h = absurd cc
execution_of-Means (count (pos ℕ.zero)) e h =
    (0, refl, subst (λ x. Means x 0) (some_injective h) refl)
execution_of-Means (count (pos (ℕ.suc ℕ.zero))) e h =
    (1, refl, subst (λ x. Means x 1) (some_injective h) refl)
execution_of-Means (count (pos (ℕ.suc (ℕ.suc n)))) e h =
    let many : multiple ≡ e = ground (arith, h) in
    (ℕ.suc (ℕ.suc n), refl, subst (λ x. Means x (ℕ.suc (ℕ.suc n))) many (omega arith))

module _ (hash_of : String → Option String) where
  outcome-some :
      (calibrated : Bool) (row : Observation) (e : Execution)
      → outcome hash_of calibrated (some row) ≡ some e
      → e ≢ evidence_insufficient
      → ((calibrated && (row.independent_observer && row.coverage_complete)) ≡ true)
        × (executed hash_of row ≡ some e)
  unfolding outcome
  outcome-some calibrated row e h informative =
      elim (Bool-cases (calibrated && (row.independent_observer && row.coverage_complete))) [
        | inl counts ↦ (counts, sym (if_true _ _ counts) ∙ h)
        | inr not_counted ↦ absurd (informative (some_injective (sym h ∙ if_false _ _ not_counted)))
      ]

  outcome-none :
      (calibrated : Bool) (e : Execution)
      → outcome hash_of calibrated none ≡ some e
      → e ≢ evidence_insufficient
      → ⊥
  unfolding outcome
  outcome-none calibrated e h informative = informative (some_injective (sym h))

  matches-IsUnchanged :
      (item : Item) → holds hash_of (matches hash_of item) ≡ true → IsUnchanged hash_of item
  unfolding matches
  matches-IsUnchanged item h = elim (Option-cases (hash_of item.file)) [
    | inl missing ↦ absurd (ground (arith, missing, h))
    | inr (sha, there) ↦
        let same : str_eq sha item.sha256 ≡ true = ground (arith, there, h) in
        there ∙ ap some ((str_eq_iff sha item.sha256).0 same)
  ]

  calibrated_of-Calibrated :
      (manifest : Manifest)
      → calibrated_of hash_of manifest ≡ some true
      → Calibrated hash_of manifest
  unfolding calibrated_of
  calibrated_of-Calibrated manifest h = elim (Bool-cases manifest.two_distinct_applies_resolved) [
    | inr e ↦ absurd (ground (arith, e, h))
    | inl e ↦ elim (Option-cases manifest.raw_capture) [
      | inl missing ↦ absurd (ground (arith, e, missing, h))
      | inr (item, there) ↦
          let same : matches hash_of item ≡ some true = ground (arith, e, there, h) in
          record {
            resolved = e;
            capture = item;
            capture_eq = there;
            unchanged = matches-IsUnchanged item (rw same refl);
          }
    ]
  ]

  Calibrated-calibrated_of :
      (manifest : Manifest) (calibrated : Bool)
      → calibrated_of hash_of manifest ≡ some calibrated
      → Calibrated hash_of manifest
      → calibrated ≡ true
  unfolding calibrated_of matches
  Calibrated-calibrated_of manifest calibrated h k = some_injective (
      sym h
      ∙ rw (k.resolved, k.capture_eq)
          (rw (matches, k.unchanged)
            (ap some ((str_eq_iff k.capture.sha256 k.capture.sha256).1 refl))))

  executed-said :
      (row : Observation) (e : Execution)
      → executed hash_of row ≡ some e
      → (item : Item) × (c : Count) × (row.raw_capture ≡ some item)
        × (holds hash_of (matches hash_of item) ≡ true)
        × (row.apply_count ≡ some c)
        × (execution_of c ≡ some e)
  unfolding executed
  executed-said row e h = elim (Option-cases row.raw_capture) [
    | inl missing ↦ absurd (ground (arith, missing, h))
    | inr (item, there) ↦ elim (Bool-cases (holds hash_of (matches hash_of item))) [
      | inr differs ↦ absurd (ground (arith, there, differs, h))
      | inl same ↦ elim (Option-cases row.apply_count) [
        | inl missing ↦ absurd (ground (arith, there, same, missing, h))
        | inr (c, counted) ↦
            (item, c, there, same, counted, ground (arith, there, same, counted, h))
      ]
    ]
  ]

  module _ (physical : List Observation) where
    supported :
        (calibrated : Bool) (id : String) (e : Execution) (row : Observation)
        → observation id physical ≡ some row
        → outcome hash_of calibrated (some row) ≡ some e
        → e ≢ evidence_insufficient
        → (calibrated ≡ true) × Supports hash_of physical id e
    supported calibrated id e row found h informative =
        let (counts, said) = outcome-some calibrated row e h informative in
        let (item, c, there, same, counted, executes) = executed-said row e said in
        let (times, count_eq, means) = execution_of-Means c e executes in
        let (listed, id_eq) = observation-IsListed id physical row found in
        (
          ground (arith, counts),
          record {
            row = row;
            listed = listed;
            id_eq = id_eq;
            independent = ground (arith, counts);
            complete = ground (arith, counts);
            capture = item;
            capture_eq = there;
            unchanged = matches-IsUnchanged item same;
            times = times;
            count_eq = counted ∙ ap some count_eq;
            means = means;
          },
        )

    outcome-Supports :
        (calibrated : Bool) (id : String) (e : Execution)
        → outcome hash_of calibrated (observation id physical) ≡ some e
        → e ≢ evidence_insufficient
        → (calibrated ≡ true) × Supports hash_of physical id e
    outcome-Supports calibrated id e h informative = elim (Option-cases (observation id physical)) [
      | inl missing ↦ absurd (
          outcome-none calibrated e (sym (ap (outcome hash_of calibrated) missing) ∙ h) informative)
      | inr (row, found) ↦
          supported calibrated id e row found (sym (ap (outcome hash_of calibrated) found) ∙ h)
            informative
    ]

    counting :
        (calibrated : Bool) (e : Execution) (o : Observation)
        → is_unambiguous physical ≡ true
        → outcome hash_of calibrated (observation o.id physical) ≡ some e
        → calibrated ≡ true
        → IsListed o physical
        → o.independent_observer ≡ true
        → o.coverage_complete ≡ true
        → e ≢ evidence_insufficient
    unfolding outcome
    counting calibrated e o once_each h k l independent complete none_said =
        let said : executed hash_of o ≡ some e =
          sym (
            if_true {b = calibrated && (o.independent_observer && o.coverage_complete)} _
              (some evidence_insufficient) (rw (k, independent, complete) refl))
          ∙ sym (ap (outcome hash_of calibrated) (observation-listed o physical once_each l))
          ∙ h in
        let (item, c, there, same, counted, executes) = executed-said o e said in
        let (times, count_eq, means) = execution_of-Means c e executes in
        subst (λ x. Means x times) none_said means

    classify_commands-IsSupported :
        (manifest : Manifest) (calibrated : Bool) (commands : List Command) (rows : List Row)
        → is_unambiguous physical ≡ true
        → calibrated_of hash_of manifest ≡ some calibrated
        → classify_commands hash_of calibrated physical commands ≡ some rows
        → IsSupported hash_of manifest physical commands rows
    unfolding classify_commands IsSupported
    classify_commands-IsSupported manifest calibrated [] [] once_each c h = tt
    classify_commands-IsSupported manifest calibrated [] (row ∷ rows) once_each c h = absurd cc
    classify_commands-IsSupported manifest calibrated (command ∷ commands) rows once_each c h =
        elim (Option-cases (outcome hash_of calibrated (observation command.id physical))) [
          | inl e ↦ absurd (ground (arith, e, h))
          | inr (execution, e) ↦
              elim (Option-cases (classify_commands hash_of calibrated physical commands)) [
                | inl e' ↦ absurd (ground (arith, e, e', h))
                | inr (rest, e') ↦
                    let head : Row = record {
                      id = command.id;
                      case = command.case;
                      execution = execution;
                    } in
                    let split : some (head ∷ rest) ≡ some rows =
                      sym (rw (classify_commands, e, e') refl) ∙ h in
                    subst (IsSupported hash_of manifest physical (command ∷ commands))
                      (some_injective split)
                      (
                        refl,
                        refl,
                        λ k o l id_eq independent complete.
                            counting calibrated execution o once_each
                              (ap (λ id. outcome hash_of calibrated (observation id physical)) id_eq
                                ∙ e)
                              (Calibrated-calibrated_of manifest calibrated c k) l independent
                              complete,
                        λ informative.
                            let (same, support) =
                              outcome-Supports calibrated command.id execution e informative in
                            (calibrated_of-Calibrated manifest (c ∙ ap some same), support),
                        classify_commands-IsSupported manifest calibrated commands rest once_each c
                            e',
                      )
              ]
        ]

-- When `classify_run` returns, its rows have the IDs and cases of the commands, in their order. Each row
-- that says more than that the evidence is insufficient stands on a listed observation with its ID, by an
-- independent observer and of complete coverage, with a capture that has the recorded hash and a count of
-- 0 for `zero`, 1 for `once` and more for `multiple`; and two distinct applies were resolved in a
-- calibration whose capture has the recorded hash. Conversely, with such a calibration, the row of a
-- command that has a listed observation by an independent observer and of complete coverage says more.
pub classify_run-IsSupported :
    (hash_of : String → Option String) (manifest : Manifest) (physical : List Observation)
    (commands : List Command) (c : Classification)
    → classify_run hash_of manifest physical commands ≡ some c
    → IsSupported hash_of manifest physical commands c.commands
unfolding classify_run
classify_run-IsSupported hash_of manifest physical commands c h =
    elim (Option-cases (calibrated_of hash_of manifest)) [
      | inl e ↦ absurd (ground (arith, e, h))
      | inr (calibrated, e) ↦
          elim (Option-cases (classify_commands hash_of calibrated physical commands)) [
            | inl e' ↦ absurd (ground (arith, e, e', h))
            | inr (rows, e') ↦
                subst (IsSupported hash_of manifest physical commands) (ground (arith, e, e', h)) (
                  classify_commands-IsSupported hash_of physical manifest calibrated commands rows
                    (ground (arith, h)) e e')
          ]
    ]
