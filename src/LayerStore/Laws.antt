-- ===== src/LayerStore/Laws.antt =====
-- The paths that a layer store gives, beside the directories that it found.
use coco_guest_components.Common.{
  List, [], ◌∷◌, ℕ, zero, suc, ◌+◌, ◌%◌, ◌≤◌, ◌<◌, ◌≡◌, refl, sym, ap, ◌∙◌, ◌≢◌, inl, inr, true,
  false, Bool-cases, Option, none, some, Option-cases, Memᴰ, leb, ok, >>=-eq-ok, ok-injective,
  arith,
}
use coco_guest_components.Text.{Text}
use coco_guest_components.Text.Decimal.{decimal, parse_usize, usize_bound, parse_usize-decimal}
use coco_guest_components.LayerStore.{
  DirEntry, DirEntries, next_after, with_name, scan, entries, get_layer_index, LayerStore, new,
  new_layer_store_path, paths,
}

-- A directory of the listing with this number, however it is written.
abbrev pub IsNumbered : DirEntries → ℕ → Type 0
IsNumbered es n =
    (entry : DirEntry) × (name : Text) × Memᴰ (some entry) es
    × (entry.is_dir ≡ some true)
    × (entry.name ≡ some name)
    × (parse_usize name ≡ some n)

-- No directory has the largest number of 64 bits.
abbrev pub HasRoom : DirEntries → Type 0
HasRoom es = (n : ℕ) → IsNumbered es n → n + 1 < usize_bound

next_after-above :
    (next n : ℕ) → n + 1 < usize_bound → (next ≤ next_after next n) × (n < next_after next n)
unfolding next_after
next_after-above next n h = elim (Bool-cases (leb next n)) [
  | inl up ↦ (ground (arith, up), ground (arith, up))
  | inr down ↦ (ground (arith, down), ground (arith, down))
]

with_name_found :
    (next m : ℕ) (t : Text) → parse_usize t ≡ some m → with_name next (some t) ≡ next_after next m
unfolding with_name
with_name_found next m t number = rw (number, with_name) refl

-- A name that is parsed takes the index above it.
with_name-above :
    (next : ℕ) (file_name : Option Text)
    → ((name : Text) (n : ℕ)
        → file_name ≡ some name
        → parse_usize name ≡ some n
        → n + 1 < usize_bound)
    → (next ≤ with_name next file_name)
      × ((name : Text) (n : ℕ)
          → file_name ≡ some name
          → parse_usize name ≡ some n
          → n < with_name next file_name)
unfolding with_name
with_name-above next none room = (omega arith, λ name n e. cc)
with_name-above next (some t) room = elim (Option-cases (parse_usize t)) [
  | inl no_number ↦ (
    ground (arith, no_number),
    λ name n e p.
        let same : t ≡ name = cc in absurd (ground (arith, ap parse_usize same, no_number, p)),
  )
  | inr (m, number) ↦
      let (le, lt) = next_after-above next m (room t m refl number) in
      (
        omega (arith, le, with_name_found next m t number),
        λ name n e p.
            let same : t ≡ name = cc in
            let eq : m ≡ n = ground (arith, ap parse_usize same, number, p) in
            omega (arith, lt, eq, with_name_found next m t number),
      )
]

-- What the first entry does to the index.
scan_first :
    (entry : DirEntry) (es : DirEntries) (next index : ℕ)
    → HasRoom (some entry ∷ es)
    → scan (some entry ∷ es) next ≡ ok index
    → (next' : ℕ) × (scan es next' ≡ ok index)
      × (next ≤ next')
      × ((name : Text) (n : ℕ)
          → entry.is_dir ≡ some true
          → entry.name ≡ some name
          → parse_usize name ≡ some n
          → n < next')
unfolding scan
scan_first entry es next index room h = elim (Option-cases entry.is_dir) [
  | inl no_type ↦ absurd (ground (arith, no_type, h))
  | inr (false, file) ↦
      (next, ground (arith, file, h), omega arith, λ name n d. absurd (ground (arith, file, d)))
  | inr (true, dir) ↦
      let (le, lt) =
        with_name-above next entry.name
          (λ name n e p. room n (entry, name, Memᴰ.head refl, dir, e, p)) in
      (with_name next entry.name, ground (arith, dir, h), le, λ name n d. lt name n)
]

scan_above :
    (es : DirEntries) (next index : ℕ)
    → HasRoom es
    → scan es next ≡ ok index
    → (next ≤ index) × ((n : ℕ) → IsNumbered es n → n < index)
unfolding scan
scan_above [] next index room h =
    let same : next ≡ index = ok-injective h in
    (omega (arith, same), λ n (e, name, m, _, _, _). elim m [ ])
scan_above (none ∷ es) next index room h = cc
scan_above (some entry ∷ es) next index room h =
    let (next', rest, le, lt) = scan_first entry es next index room h in
    let (le', lt') =
      scan_above es next' index
        (λ n (e, name, m, d, named, p). room n (e, name, Memᴰ.tail m, d, named, p)) rest in
    (
      omega (arith, le, le'),
      λ n (e, name, m, d, named, p). elim m [
        | Memᴰ.head q ↦
            let same : e ≡ entry = cc in
            omega (
              arith,
              lt name n (ap (λ (v : DirEntry). v.is_dir) (sym same) ∙ d)
                  (ap (λ (v : DirEntry). v.name) (sym same) ∙ named) p,
              le',
            )
        | Memᴰ.tail rest_m ↦ lt' n (e, name, rest_m, d, named, p)
      ],
    )

-- The names that the store gives are the decimal numbers from its index on.
paths-number :
    (k : ℕ) (store : LayerStore) (path : Text)
    → store.layers_index + k ≤ usize_bound
    → Memᴰ path (paths k store)
    → (n : ℕ) × (store.layers_index ≤ n) × (n < usize_bound) × (path ≡ decimal 20 n)
unfolding paths new_layer_store_path
paths-number zero store path room m = elim m [ ]
paths-number (suc k) store path room (Memᴰ.head e) =
    (store.layers_index, omega arith, omega (arith, room), e)
paths-number (suc zero) store path room (Memᴰ.tail m) = elim m [ ]
paths-number (suc (suc k)) store path room (Memᴰ.tail m) =
    let next : LayerStore = record store {
      layers_index = (store.layers_index + 1) % usize_bound;
    } in
    let counted : (store.layers_index + 1) % usize_bound ≡ store.layers_index + 1 =
      omega (arith, room) in
    let (n, le, lt, printed) = paths-number (suc k) next path (omega (arith, room, counted)) m in
    (n, omega (arith, le, counted), lt, printed)

-- A store that was made for a directory never gives a path that a directory in it has the name or the
-- number of: each path given is the decimal text of a number, and no directory there has a name that
-- is parsed to that number, in whatever way it is written, nor a name that is the path itself. The
-- conditions are that the counter does not wrap around and that no directory has the largest number.
pub new_layer_store_path-fresh :
    (data_dir : Text) (es : DirEntries) (store : LayerStore) (k : ℕ) (path : Text)
    → HasRoom es
    → new data_dir (entries es) ≡ ok store
    → store.layers_index + k ≤ usize_bound
    → Memᴰ path (paths k store)
    → (entry : DirEntry) (name : Text) → Memᴰ (some entry) es
    → entry.is_dir ≡ some true
    → entry.name ≡ some name
    → (n : ℕ) × (path ≡ decimal 20 n)
      × (parse_usize path ≡ some n)
      × (parse_usize name ≢ some n)
      × (name ≢ path)
unfolding new get_layer_index
new_layer_store_path-fresh data_dir es store k path room h fits m entry name listed dir named =
    let (index, scanned, made) = >>=-eq-ok (scan es 0) _ h in
    let at : index ≡ store.layers_index =
      ap (λ (s : LayerStore). s.layers_index) (ok-injective made) in
    let (n, le, lt, printed) = paths-number k store path fits m in
    let parsed : parse_usize path ≡ some n = ap parse_usize printed ∙ parse_usize-decimal n lt in
    let (_, above) = scan_above es 0 index room scanned in
    let other : parse_usize name ≢ some n =
      λ e. absurd (omega (arith, above n (entry, name, listed, dir, named, e), at, le)) in
    (n, printed, parsed, other, λ same. other (ap parse_usize same ∙ parsed))

-- No text stands twice.
abbrev pub IsDistinct : List Text → Type 0
IsDistinct [] = Unit {0}
IsDistinct (x ∷ xs) = (Memᴰ x xs → ⊥) × IsDistinct xs

-- The paths that a store gives, one call after the other, are all different, as long as its counter
-- does not wrap around.
pub paths-IsDistinct :
    (k : ℕ) (store : LayerStore) → store.layers_index + k ≤ usize_bound → IsDistinct (paths k store)
unfolding paths new_layer_store_path
paths-IsDistinct zero store room = tt
paths-IsDistinct (suc zero) store room = (λ m. elim m [ ], tt)
paths-IsDistinct (suc (suc k)) store room =
    let next : LayerStore = record store {
      layers_index = (store.layers_index + 1) % usize_bound;
    } in
    let counted : (store.layers_index + 1) % usize_bound ≡ store.layers_index + 1 =
      omega (arith, room) in
    (
      λ m.
          let (n, le, lt, printed) =
            paths-number (suc k) next (decimal 20 store.layers_index) (omega (arith, room, counted))
              m in
          let same : some store.layers_index ≡ some n =
            sym (parse_usize-decimal store.layers_index (omega (arith, room)))
            ∙ ap parse_usize printed
            ∙ parse_usize-decimal n lt in
          let at : store.layers_index ≡ n = cc in absurd (omega (arith, at, le, counted)),
      paths-IsDistinct (suc k) next (omega (arith, room, counted)),
    )
