-- ===== src/Acceptance/Source/Exact.antt =====
-- What the identity of the sources says: scripts/acceptance.py, `source_identity`.
use moon_mqtt_client.Base.{
  not, List, [], ◌∷◌, none, some, String, str_eq, str_eq_iff, str_in, ◌&&◌, ◌≡◌, refl, sym, ap, ◌∙◌,
  inl, inr, Bool-cases, Option-cases, arith, subst, some_injective, if_true, if_false,
  if◌then◌else◌,
}
use moon_mqtt_client.Base.Text.{encode}
use moon_mqtt_client.Acceptance.{FileIdentity}
use moon_mqtt_client.Acceptance.Source.{
  StageRow, Entry, symlink, file, other, Checkout, Source, sorted_set, mode_of, identify_entry,
  identify_all, described, source_identity,
}
use moon_mqtt_client.Acceptance.Source.Sorted.{
  Increasing, sorted_set-Increasing, str_in-sorted_set, named, named-Increasing, str_in-named,
}

abbrev pub file_names : List FileIdentity → List String
file_names [] = []
file_names (f ∷ fs) = f.name ∷ file_names fs

-- What the files say of an entry: its kind, mode, hash and link.
abbrev pub Describes : Checkout → FileIdentity → Entry → Type 0
Describes checkout f (symlink target) =
    (f.kind ≡ "symlink")
    × (f.mode ≡ "120000")
    × (f.sha256 ≡ checkout.sha256 (encode target))
    × (f.target ≡ some target)
Describes checkout f (file executable content) =
    (f.kind ≡ "file")
    × (f.mode ≡ (if executable then "100755" else "100644"))
    × (f.sha256 ≡ checkout.sha256 content)
    × (f.target ≡ none)
Describes checkout f other = ⊥

-- And that it has the mode of the index, if it is there.
abbrev pub AllDescribed : Checkout → List StageRow → List FileIdentity → Type 0
AllDescribed checkout index [] = Unit
AllDescribed checkout index (f ∷ fs) =
    Describes checkout f (checkout.entry f.name)
    × (mode_of f.name f.mode index ≡ f.mode)
    × AllDescribed checkout index fs

identify_entry-Describes :
    (checkout : Checkout) (index : List StageRow) (name : String) (e : Entry) (f : FileIdentity)
    → identify_entry checkout index name e ≡ some f
    → (f.name ≡ name) × Describes checkout f e × (mode_of f.name f.mode index ≡ f.mode)
unfolding identify_entry
identify_entry-Describes checkout index name (symlink target) f h =
    elim (Bool-cases (str_eq (mode_of name "120000" index) "120000")) [
      | inl e ↦
          let known = (str_eq_iff (mode_of name "120000" index) "120000").0 e in
          subst
            (λ f.
              (f.name ≡ name)
              × Describes checkout f (symlink target)
              × (mode_of f.name f.mode index ≡ f.mode))
            (some_injective (sym (if_true _ _ e) ∙ h)) (refl, (refl, refl, refl, refl), known)
      | inr e ↦ absurd (ground (arith, e))
    ]
identify_entry-Describes checkout index name (file executable content) f h =
    let mode : String = if executable then "100755" else "100644" in
    elim (Bool-cases (str_eq (mode_of name mode index) mode)) [
      | inl e ↦
          let known = (str_eq_iff (mode_of name mode index) mode).0 e in
          subst
            (λ f.
              (f.name ≡ name)
              × Describes checkout f (file executable content)
              × (mode_of f.name f.mode index ≡ f.mode))
            (some_injective (sym (if_true _ _ e) ∙ h)) (refl, (refl, refl, refl, refl), known)
      | inr e ↦ absurd (ground (arith, e))
    ]
identify_entry-Describes checkout index name other f h = absurd cc

identify_all-described :
    (checkout : Checkout) (index : List StageRow) (names : List String) (files : List FileIdentity)
    → identify_all checkout index names ≡ some files
    → (file_names files ≡ named names) × AllDescribed checkout index files
unfolding identify_all
identify_all-described checkout index [] files h =
    subst (λ fs. (file_names fs ≡ []) × AllDescribed checkout index fs) (some_injective h)
      (refl, tt)
identify_all-described checkout index (name ∷ names) files h = elim (Bool-cases (str_eq name "")) [
  | inl e ↦ rw e (identify_all-described checkout index names files (sym (if_true _ _ e) ∙ h))
  | inr e ↦ rw e (kept (identify_all-described checkout index names) (sym (if_false _ _ e) ∙ h))
]
  where
    kept :
        ((fs : List FileIdentity)
          → identify_all checkout index names ≡ some fs
          → (file_names fs ≡ named names) × AllDescribed checkout index fs)
        → (elim (identify_entry checkout index name (checkout.entry name)) [
          | none ↦ none
          | some f ↦ elim (identify_all checkout index names) [
            | none ↦ none
            | some fs ↦ some (f ∷ fs)
          ]
        ])
          ≡ some files
        → (file_names files ≡ name ∷ named names) × AllDescribed checkout index files
    kept later k = elim (Option-cases (identify_entry checkout index name (checkout.entry name))) [
      | inl e ↦ absurd (ground (arith, e, k))
      | inr (f, e) ↦ elim (Option-cases (identify_all checkout index names)) [
        | inl e' ↦ absurd (ground (arith, e, e', k))
        | inr (fs, e') ↦
            let d = identify_entry-Describes checkout index name (checkout.entry name) f e in
            let rest = later fs e' in
            let same : f ∷ fs ≡ files = ground (arith, e, e', k) in
            subst (λ gs. (file_names gs ≡ name ∷ named names) × AllDescribed checkout index gs) same
              (
                ap (λ n. n ∷ file_names fs) d.0 ∙ ap (λ l. name ∷ l) rest.0,
                (subst (λ n. Describes checkout f (checkout.entry n)) (sym d.0) d.1, d.2, rest.1),
              )
      ]
    ]

-- What an identity says of the repository that has the index and the names.
pub record IsExact (checkout : Checkout) (index : List StageRow) (listed : List String)
    (source : Source) : Type 0 where
  pub increasing : Increasing (file_names source.identity.files)
  pub complete :
      (name : String)
      → str_in name (file_names source.identity.files)
        ≡ (str_in name listed && not (str_eq name ""))
  pub described : AllDescribed checkout index source.identity.files

exact :
    (checkout : Checkout) (index : List StageRow) (listed : List String) (files : List FileIdentity)
    (source : Source)
    → identify_all checkout index (sorted_set listed) ≡ some files
    → source.identity.files ≡ files
    → IsExact checkout index listed source
exact checkout index listed files source h same =
    let d = identify_all-described checkout index (sorted_set listed) files h in
    let names : file_names source.identity.files ≡ named (sorted_set listed) =
      ap file_names same ∙ d.0 in
    record {
      increasing =
          subst Increasing (sym names)
            (named-Increasing (sorted_set listed) (sorted_set-Increasing listed));
      complete = λ name.
          ap (str_in name) names
          ∙ str_in-named name (sorted_set listed)
          ∙ ap (λ b. b && not (str_eq name "")) (str_in-sorted_set name listed);
      described = subst (AllDescribed checkout index) (sym same) d.1;
    }

-- When `source_identity` returns, its files are in the order of their names, with none twice; their names
-- are just those that git lists, but for the empty one; and each has the kind, the mode, the hash and
-- the link of what is at its path, with the mode of the index where the index has the name.
pub source_identity-IsExact :
    (checkout : Checkout) (index : List StageRow) (listed : List String) (source : Source)
    → checkout.stage ≡ some index
    → checkout.listed ≡ some listed
    → source_identity checkout ≡ some source
    → IsExact checkout index listed source
unfolding source_identity described
source_identity-IsExact checkout index listed source staged names h =
    elim (Option-cases (identify_all checkout index (sorted_set listed))) [
      | inl e ↦ absurd (ground (arith, staged, names, e, h))
      | inr (files, e) ↦
          exact checkout index listed files source e (ground (arith, staged, names, e, h))
    ]
