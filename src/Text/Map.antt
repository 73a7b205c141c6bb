-- ===== src/Text/Map.antt =====
-- `HashMap<String, V>` and `BTreeMap<String, V>` as association lists: the first entry of a key is
-- the one in force.
use coco_guest_components.Common.{
  ◌≡◌, ◌∙◌, refl, Option, none, some, List, [], ◌∷◌, if◌then◌else◌, arith,
}
use coco_guest_components.Text.{Text, ◌=ₜ◌}
use coco_guest_components.Text.Laws.{text_eq_iff, text_eq_refl}

module _ {ℓ} {V : Type ℓ} where
  -- `map.get(key)`
  unfoldable pub lookup : Text → List (Text × V) → Option V
  lookup k [] = none
  lookup k ((j, v) ∷ m) = if j =ₜ k then some v else lookup k m

  -- `map.insert(key, value)`
  unfoldable pub insert : Text → V → List (Text × V) → List (Text × V)
  insert k v [] = (k, v) ∷ []
  insert k v ((j, w) ∷ m) = if j =ₜ k then (k, v) ∷ m else (j, w) ∷ insert k v m

  pub lookup-insert :
      (k j : Text) (v : V) (m : List (Text × V))
      → lookup j (insert k v m) ≡ (if k =ₜ j then some v else lookup j m)
  unfolding lookup insert
  lookup-insert k j v [] = refl
  lookup-insert k j v ((i, w) ∷ m) =
      ground (arith, text_eq_iff k j, text_eq_iff i k, text_eq_iff i j, lookup-insert k j v m)

  pub lookup_inserted : (k : Text) (v : V) (m : List (Text × V)) → lookup k (insert k v m) ≡ some v
  lookup_inserted k v m = lookup-insert k k v m ∙ rw (text_eq_refl k) refl
