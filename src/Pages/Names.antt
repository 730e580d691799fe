-- ===== src/Pages/Names.antt =====
-- The names that a browser keeps of the files it has uploaded or opened, in web/static/app.js:
-- `readNameStore`, `rememberName` and `forgetNames`. The store is an object whose keys are file
-- ids, listed in the order of `Object.keys`.
pub mod Set
pub mod Kept
use k_quickshare.Base.{
  ◌&&◌, ◌*◌, ◌+◌, ◌==◌, leb, ◌∷◌, [], List, Option, some, none, Bool, true, false, ◌||◌, ℕ, ◌-◌,
  if◌then◌else◌, ltb, length, take, map,
}
use k_quickshare.Json.{Text, codes, text_eq}

-- An entry: `{n, t}`, or the bare name that earlier versions wrote.
pub data Label : Type 0 where
  named : Text → Text → Label
  bare : Text → Label

abbrev pub Store : Type 0
Store = List (Text × Label)

-- NAME_STORE_MAX
abbrev pub name_store_max : ℕ
name_store_max = 2000

-- What localStorage holds: nothing, something that cannot be read, or a store.
pub data Stored : Type 0 where
  missing unreadable : Stored
  kept : Store → Stored

unfoldable pub read_name_store : Stored → Store
read_name_store (kept s) = s
read_name_store _ = []

unfoldable pub digits_value : ℕ → Text → Option ℕ
digits_value n [] = some n
digits_value n (c ∷ t) =
    let rest = digits_value (n * 10 + (c - 48)) t in if leb 48 c && leb c 57 then rest else none

-- The value of a key that is an array index: a number below 2 ^ 32 - 1 as it is written.
unfoldable pub index_of : Text → Option ℕ
unfolding digits_value
index_of [] = none
index_of (c ∷ []) = digits_value 0 (c ∷ [])
index_of (c ∷ d ∷ t) = elim (digits_value 0 (c ∷ d ∷ t)) [
  | none ↦ none
  | some n ↦ if c == 48 || leb 0xffffffff n then none else some n
]

abbrev pub comes_before : Option ℕ → Option ℕ → Bool
comes_before none k = false
comes_before (some i) none = true
comes_before (some i) (some k) = ltb i k

unfoldable pub has_key : Text → Store → Bool
has_key id [] = false
has_key id ((k, l) ∷ s) = text_eq id k || has_key id s

-- A key that is there keeps its place.
unfoldable pub replace_name : Text → Label → Store → Store
replace_name id label [] = []
replace_name id label ((k, l) ∷ s) =
    let rest = replace_name id label s in if text_eq id k then (k, label) ∷ s else (k, l) ∷ rest

-- A new key comes last, and one that is an array index in the order of these, before the others.
unfoldable pub insert_name : Text → Label → Store → Store
unfolding index_of
insert_name id label [] = (id, label) ∷ []
insert_name id label ((k, l) ∷ s) =
    let rest = insert_name id label s in
    if comes_before (index_of id) (index_of k) then (id, label) ∷ (k, l) ∷ s else (k, l) ∷ rest

-- The key that names an object's prototype, which is no key of its own.
abbrev pub prototype : Text
prototype = codes "__proto__"

-- `store[id] = label`
unfoldable pub set_name : Text → Label → Store → Store
unfolding has_key replace_name insert_name
set_name id label s =
    if text_eq id prototype
    then s
    else if has_key id s
    then replace_name id label s
    else insert_name id label s

-- `delete store[id]`
unfoldable pub delete_name : Text → Store → Store
delete_name id [] = []
delete_name id ((k, l) ∷ s) =
    let rest = delete_name id s in if text_eq id k then s else (k, l) ∷ rest

unfoldable pub delete_names : List Text → Store → Store
unfolding delete_name
delete_names [] s = s
delete_names (id ∷ ids) s = delete_names ids (delete_name id s)

-- The first keys beyond the limit go.
unfoldable pub trim_store : Store → Store
unfolding delete_names
trim_store s =
    if ltb name_store_max (length s)
    then delete_names (take (length s - name_store_max) (map (λ e. e.0) s)) s
    else s

-- `store[id]`
unfoldable pub get_name : Text → Store → Option Label
get_name id [] = none
get_name id ((k, l) ∷ s) = let rest = get_name id s in if text_eq id k then some l else rest

-- `!t`
abbrev pub is_empty : Text → Bool
is_empty [] = true
is_empty (c ∷ t) = false

-- `setItem` throws where the storage is full or blocked, which changes nothing.
unfoldable pub remember_name : Bool → Text → Text → Text → Stored → Stored
unfolding read_name_store set_name trim_store
remember_name writable id name type stored =
    if is_empty id || is_empty name
    then stored
    else if writable
    then kept (trim_store (set_name id (named name type) (read_name_store stored)))
    else stored

unfoldable pub forget_names : Bool → List Text → Stored → Stored
unfolding read_name_store delete_names
forget_names writable [] stored = stored
forget_names writable (id ∷ ids) stored =
    if writable then kept (delete_names (id ∷ ids) (read_name_store stored)) else stored

-- What a page does with the names, and whether the storage can be written then.
pub data NameEvent : Type 0 where
  remember : Bool → Text → Text → Text → NameEvent
  forget : Bool → List Text → NameEvent

unfoldable pub on_name_event : NameEvent → Stored → Stored
unfolding remember_name forget_names
on_name_event (remember writable id name type) stored = remember_name writable id name type stored
on_name_event (forget writable ids) stored = forget_names writable ids stored

unfoldable pub on_name_events : List NameEvent → Stored → Stored
unfolding on_name_event
on_name_events [] stored = stored
on_name_events (e ∷ es) stored = on_name_events es (on_name_event e stored)
