-- ===== src/BTree.antt =====
-- `BTreeMap<String, V>` of the standard library: an association list with ascending keys.
use vigil_collector.Prelude.{◌≡◌, refl, Option, none, some, List, [], ◌∷◌, arith, if◌then◌else◌}
use vigil_collector.Text.{Text, text_eq, text_lt}
use vigil_collector.Text.Laws.{text_eq_iff}

module _ {ℓ} {V : Type ℓ} where
  unfoldable pub insert_key : Text → V → List (Text × V) → List (Text × V)
  insert_key k v [] = (k, v) ∷ []
  insert_key k v ((j, w) ∷ m) =
      let later = (j, w) ∷ insert_key k v m in
      if text_eq j k then (k, v) ∷ m else if text_lt k j then (k, v) ∷ (j, w) ∷ m else later

  unfoldable pub get_key : Text → List (Text × V) → Option V
  get_key k [] = none
  get_key k ((j, w) ∷ m) = let later = get_key k m in if text_eq j k then some w else later

  -- An insertion shows under its key alone, whatever order the keys stand in.
  pub get_key-insert_key :
      (k j : Text) (v : V) (m : List (Text × V))
      → get_key j (insert_key k v m) ≡ (if text_eq k j then some v else get_key j m)
  unfolding get_key insert_key
  get_key-insert_key k j v [] = refl
  get_key-insert_key k j v ((i, w) ∷ m) =
      ground (arith, text_eq_iff k j, text_eq_iff i k, text_eq_iff i j, get_key-insert_key k j v m)
