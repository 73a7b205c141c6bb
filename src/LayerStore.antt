-- ===== src/LayerStore.antt =====
-- image-rs/src/layer_store.rs: the directories of layers, numbered.
pub mod Laws
mod Tests
use coco_guest_components.Common.{
  ℕ, zero, suc, ◌+◌, ◌%◌, Bool, true, false, Option, none, some, List, [], ◌∷◌, ◌++◌, leb,
  if◌then◌else◌, Result, ok, err, ◌>>=◌,
}
use coco_guest_components.Text.{Text}
use coco_guest_components.Text.Decimal.{decimal, parse_usize, usize_bound}

pub data StoreError : Type 0 where
  unreadable_dir unreadable_entry : StoreError

-- An entry of the directory: whether it is one, which may be unreadable, and its name if that is UTF-8.
pub record DirEntry : Type 0 where
  pub is_dir : Option Bool
  pub name : Option Text

-- An entry, or the error of reading it.
abbrev pub DirEntries : Type 0
DirEntries = List (Option DirEntry)

-- `if n >= next { next = n + 1 }`, in a build that wraps
unfoldable pub next_after : ℕ → ℕ → ℕ
next_after next n = if leb next n then (n + 1) % usize_bound else next

-- What a directory of this name makes of the next index.
unfoldable pub with_name : ℕ → Option Text → ℕ
with_name next none = next
with_name next (some file_name) = elim (parse_usize file_name) [
  | none ↦ next
  | some n ↦ next_after next n
]

-- `for path in paths`
unfoldable pub scan : DirEntries → ℕ → Result StoreError ℕ
scan [] next = ok next
scan (none ∷ rest) next = err unreadable_entry
scan (some entry ∷ rest) next =
    let skipped = scan rest next in
    let taken = scan rest (with_name next entry.name) in
    elim entry.is_dir [
      | none ↦ err unreadable_entry
      | some is_dir ↦ if is_dir then taken else skipped
    ]

-- What is at the data directory.
pub data DataDir : Type 0 where
  missing unreadable : DataDir
  entries : DirEntries → DataDir

unfoldable pub get_layer_index : DataDir → Result StoreError ℕ
get_layer_index missing = ok 0
get_layer_index unreadable = err unreadable_dir
get_layer_index (entries es) = scan es 0

-- `LayerStore`, with the counter that its clones share
pub record LayerStore : Type 0 where
  pub data_dir : Text
  pub layers_index : ℕ

-- `work_dir.join("layers")` is an argument.
unfoldable pub new : Text → DataDir → Result StoreError LayerStore
new data_dir dir = do
  index ← get_layer_index dir
  ok (record { data_dir = data_dir; layers_index = index })

-- `fetch_add(1)` and the name of the directory below the data directory
unfoldable pub new_layer_store_path : LayerStore → LayerStore × Text
new_layer_store_path store = (
  record store { layers_index = (store.layers_index + 1) % usize_bound },
  decimal 20 store.layers_index,
)

-- The names that so many calls give, one after the other.
unfoldable pub paths : ℕ → LayerStore → List Text
paths zero store = []
paths (suc k) store = let (store', path) = new_layer_store_path store in path ∷ paths k store'
