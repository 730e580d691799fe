-- ===== src/Pages/Names/Kept.antt =====
-- What the browser's store of names keeps.
use k_quickshare.Base.{
  none, suc, ◌||◌, ◌+◌, ℕ, length-append, ltb-le, subst, ◌-◌, ltb, ◌++◌, some, ◌∙◌, refl, arith,
  ◌∷◌, [], List, false, true, inr, inl, sym, ◌≤◌, length, Bool-cases, ◌≡◌,
}
use k_quickshare.Pages.Names.{
  index_of, prototype, is_empty, Stored, NameEvent, forget_names, read_name_store, on_name_events,
  on_name_event, remember_name, trim_store, get_name, Label, name_store_max, delete_name, Store,
  set_name, delete_names,
}
use k_quickshare.Json.{text_eq, Text}
use k_quickshare.E2e.Blobs.Contents.{text_eq_self}
use k_quickshare.Pages.Names.Set.{
  set_name-IsDistinct, IsAbsent, IsDistinct, IsStore, deletes-IsStore, IsStored, get-found,
  get-further, set_name-IsStored,
}

-- Where the limit is passed by one, the first key goes.
trim-first :
    (k : Text) (l : Label) (s : Store) → length s ≡ name_store_max → trim_store ((k, l) ∷ s) ≡ s
unfolding trim_store delete_names delete_name
trim-first k l s full =
    let over : ltb name_store_max (length ((k, l) ∷ s)) ≡ true = ground arith in
    let one : length ((k, l) ∷ s) - name_store_max ≡ 1 = omega arith in
    rw (trim_store, over, one, delete_name, text_eq_self k) refl

trim-fits : (s : Store) → length s ≤ name_store_max → trim_store s ≡ s
unfolding trim_store
trim-fits s h = rw (trim_store, ltb-le name_store_max (length s) h) refl

get-append :
    (id : Text) (l : Label) (s : Store) → IsAbsent id s → get_name id (s ++ (id, l) ∷ []) ≡ some l
get-append id l [] h = get-found id id l [] (text_eq_self id)
get-append id l ((j, k) ∷ s) (h, hs) =
    get-further id j k (s ++ (id, l) ∷ []) h ∙ get-append id l s hs

small-Has :
    (id : Text) (label : Label) (t : Store)
    → length t ≤ name_store_max
    → get_name id t ≡ some label
    → get_name id (trim_store t) ≡ some label
small-Has id label t h g = subst (λ x. get_name id x ≡ some label) (sym (trim-fits t h)) g

append-Has :
    (id : Text) (label : Label) (s : Store)
    → length s ≤ name_store_max
    → IsAbsent id s
    → get_name id (trim_store (s ++ (id, label) ∷ [])) ≡ some label
append-Has id label [] h new =
    small-Has id label ((id, label) ∷ []) (omega arith) (get-append id label [] tt)
append-Has id label ((k, l) ∷ s) h (nk, new) =
    let one : length (s ++ (id, label) ∷ []) ≡ length s + 1 = length-append s ((id, label) ∷ []) in
    let found = get-append id label ((k, l) ∷ s) (nk, new) in
    elim (Bool-cases (ltb (length (s ++ (id, label) ∷ [])) name_store_max)) [
      | inl fits ↦ small-Has id label ((k, l) ∷ (s ++ (id, label) ∷ [])) (ground arith) found
      | inr full ↦
          let most : length (s ++ (id, label) ∷ []) ≡ name_store_max = ground arith in
          subst (λ x. get_name id x ≡ some label)
            (sym (trim-first k l (s ++ (id, label) ∷ []) most)) (get-append id label s new)
    ]

-- A name that is set is there after the store is trimmed.
set_trimmed :
    (id : Text) (label : Label) (s : Store)
    → text_eq id prototype ≡ false
    → index_of id ≡ none
    → length s ≤ name_store_max
    → get_name id (trim_store (set_name id label s)) ≡ some label
set_trimmed id label s own no_index fits = settle (set_name-IsStored id label s own no_index)
  where
    settle :
        IsStored id label s (set_name id label s)
        → get_name id (trim_store (set_name id label s)) ≡ some label
    settle (inl (same, g)) = small-Has id label (set_name id label s) (omega arith) g
    settle (inr (new, at_end)) =
        subst (λ t. get_name id (trim_store t) ≡ some label) (sym at_end)
          (append-Has id label s fits new)

-- A store that is too long by one key has the right size when it is trimmed.
trim-IsStore : (t : Store) → IsDistinct t → length t ≤ suc name_store_max → IsStore (trim_store t)
trim-IsStore [] d h = subst IsStore (sym (trim-fits [] (omega arith))) (tt, omega arith)
trim-IsStore ((k, l) ∷ t) (dk, d) h = elim (Bool-cases (ltb (length t) name_store_max)) [
  | inl fits ↦
      let le : length ((k, l) ∷ t) ≤ name_store_max = ground arith in
      subst IsStore (sym (trim-fits ((k, l) ∷ t) le)) ((dk, d), le)
  | inr full ↦
      let most : length t ≡ name_store_max = ground arith in
      subst IsStore (sym (trim-first k l t most)) (d, omega arith)
]

set-IsStore :
    (id : Text) (label : Label) (s : Store) → IsStore s → IsStore (trim_store (set_name id label s))
set-IsStore id label s (d, fits) =
    let (distinct, few) = set_name-IsDistinct id label s d in
    trim-IsStore (set_name id label s) distinct (omega arith)

event-IsStore :
    (e : NameEvent) (stored : Stored)
    → IsStore (read_name_store stored)
    → IsStore (read_name_store (on_name_event e stored))
unfolding on_name_event remember_name forget_names read_name_store
event-IsStore (NameEvent.remember false id name type) stored h =
    elim (Bool-cases (is_empty id || is_empty name)) [ inl e ↦ rw e h | inr e ↦ rw e h ]
event-IsStore (NameEvent.remember true id name type) stored h =
    let set = set-IsStore id (Label.named name type) (read_name_store stored) h in
    elim (Bool-cases (is_empty id || is_empty name)) [ inl e ↦ rw e h | inr e ↦ rw e set ]
event-IsStore (NameEvent.forget writable []) stored h = h
event-IsStore (NameEvent.forget false (id ∷ ids)) stored h = h
event-IsStore (NameEvent.forget true (id ∷ ids)) stored h =
    deletes-IsStore (id ∷ ids) (read_name_store stored) h

events-IsStore :
    (es : List NameEvent) (stored : Stored)
    → IsStore (read_name_store stored)
    → IsStore (read_name_store (on_name_events es stored))
unfolding on_name_events
events-IsStore [] stored h = h
events-IsStore (e ∷ es) stored h =
    events-IsStore es (on_name_event e stored) (event-IsStore e stored h)

-- However many names are remembered and forgotten, and whether or not the storage can be written,
-- the store has no id twice and at most 2,000 names, and a name that is remembered while it can be
-- written is read back. The store was missing at first; the id that is read back is not empty, no
-- array index and not `__proto__`, and its name is not empty.
pub remembered_name :
    (es : List NameEvent) (i c : ℕ) (id name type : Text)
    → text_eq (i ∷ id) prototype ≡ false
    → index_of (i ∷ id) ≡ none
    → IsStore (read_name_store (on_name_events es Stored.missing))
      × (get_name (i ∷ id) (
            read_name_store
              (remember_name true (i ∷ id) (c ∷ name) type (on_name_events es Stored.missing)))
          ≡ some (Label.named (c ∷ name) type))
unfolding remember_name read_name_store
remembered_name es i c id name type own no_index =
    let h : IsStore (read_name_store (on_name_events es Stored.missing)) =
      events-IsStore es Stored.missing (tt, omega arith) in
    (
      h,
      set_trimmed (i ∷ id) (Label.named (c ∷ name) type)
          (read_name_store (on_name_events es Stored.missing)) own no_index h.1,
    )
