-- ===== src/LayerStore/Tests.antt =====
-- A directory with two numbered layers, one written with leading zeros, and a file.
use coco_guest_components.Common.{
  ℕ, ◌≡◌, refl, sym, ap, ◌∙◌, ◌≢◌, true, false, Option, some, [], ◌∷◌, Memᴰ, ok, arith,
}
use coco_guest_components.Text.{bytes}
use coco_guest_components.Text.Decimal.{decimal, parse_usize, digits_value, add_digit}
use coco_guest_components.LayerStore.{
  DirEntry, DirEntries, entries, next_after, with_name, scan, get_layer_index, LayerStore, new,
  new_layer_store_path, paths,
}
use coco_guest_components.LayerStore.Laws.{
  HasRoom, IsDistinct, new_layer_store_path-fresh, paths-IsDistinct,
}

abbrev layer : DirEntry
layer = record { is_dir = some true; name = some (bytes "007") }

abbrev file : DirEntry
file = record { is_dir = some false; name = some (bytes "9") }

abbrev listing : DirEntries
listing = some layer ∷ some file ∷ []

abbrev store : LayerStore
store = record { data_dir = bytes "layers"; layers_index = 8 }

made : new (bytes "layers") (entries listing) ≡ ok store
unfolding new get_layer_index scan with_name next_after parse_usize digits_value add_digit
made = refl

layer_number : parse_usize (bytes "007") ≡ some 7
unfolding parse_usize digits_value add_digit
layer_number = refl

listing-HasRoom : HasRoom listing
listing-HasRoom n (entry, name, m, dir, named, p) = elim m [
  | Memᴰ.head e ↦
      let same : entry ≡ layer = cc in
      let written : some name ≡ some (bytes "007") =
        sym named ∙ ap (λ (v : DirEntry). v.name) same in
      let is : name ≡ bytes "007" = cc in
      let seven : ◌≡◌ {A = Option ℕ} (some n) (some 7) = sym p ∙ ap parse_usize is ∙ layer_number in
      let value : n ≡ 7 = cc in omega (arith, value)
  | Memᴰ.tail more ↦ elim more [
    | Memᴰ.head e ↦
        let same : entry ≡ file = cc in
        absurd (ground (arith, dir, ap (λ (v : DirEntry). v.is_dir) same))
    | Memᴰ.tail none_left ↦ elim none_left [ ]
  ]
]

first_path : Memᴰ (bytes "8") (paths 1 store)
unfolding paths new_layer_store_path decimal
first_path = Memᴰ.head refl

new_layer_store_path-fresh_example :
    (n : ℕ) × (bytes "8" ≡ decimal 20 n)
    × (parse_usize (bytes "8") ≡ some n)
    × (parse_usize (bytes "007") ≢ some n)
    × (bytes "007" ≢ bytes "8")
new_layer_store_path-fresh_example =
    new_layer_store_path-fresh (bytes "layers") listing store 1 (bytes "8") listing-HasRoom made
      (omega arith) first_path layer (bytes "007") (Memᴰ.head refl) refl refl

paths-IsDistinct_example : IsDistinct (paths 3 store)
paths-IsDistinct_example = paths-IsDistinct 3 store (omega arith)
