-- ===== src/Tests/Source.antt =====
-- The identity of a small repository.
use moon_mqtt_client.Base.{true, false, ◌≡◌, refl, [], ◌∷◌, none, some, str_eq, if◌then◌else◌}
use moon_mqtt_client.Acceptance.Source.{
  Checkout, Source, symlink, file, source_identity, identify_all, identify_entry, mode_of,
  sorted_set, insert_name, described,
}
use moon_mqtt_client.Acceptance.Source.Exact.{IsExact, source_identity-IsExact}

-- A repository with a script, a link to it, and a name that git gives twice.
abbrev checkout : Checkout
checkout = record {
  stage = some (record { name = "b.sh"; mode = "100755" } ∷ []);
  listed = some ("b.sh" ∷ "a" ∷ "b.sh" ∷ "" ∷ []);
  commit = some "c";
  tree = some "t";
  status = some "";
  entry = λ name. if str_eq name "a" then symlink "b.sh" else file true (35 ∷ []);
  sha256 = λ bytes. "h";
}

abbrev identified : Source
identified = record {
  identity = record {
    commit = "c";
    files =
        record { name = "a"; sha256 = "h"; mode = "120000"; kind = "symlink"; target = some "b.sh" }
        ∷ record { name = "b.sh"; sha256 = "h"; mode = "100755"; kind = "file"; target = none }
        ∷ [];
  };
  tree = "t";
  dirty = false;
}

checkout-identified : source_identity checkout ≡ some identified
unfolding source_identity identify_all identify_entry mode_of sorted_set insert_name described
checkout-identified = refl

source_identity-IsExact_example :
    IsExact checkout
      (record { name = "b.sh"; mode = "100755" } ∷ [])
      ("b.sh" ∷ "a" ∷ "b.sh" ∷ "" ∷ [])
      identified
source_identity-IsExact_example =
    source_identity-IsExact checkout (record { name = "b.sh"; mode = "100755" } ∷ [])
      ("b.sh" ∷ "a" ∷ "b.sh" ∷ "" ∷ []) identified refl refl checkout-identified
