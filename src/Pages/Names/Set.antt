-- ===== src/Pages/Names/Set.antt =====
-- Setting and deleting keys of the store of names.
use k_quickshare.Base.{
  none, ◌++◌, some, ◌⊎◌, ◌∙◌, refl, suc, arith, ◌∷◌, [], List, false, true, inr, inl, ap, sym, ◌≤◌,
  All, length, Bool-cases, ◌≡◌,
}
use k_quickshare.Pages.Names.{
  comes_before, prototype, has_key, replace_name, insert_name, index_of, get_name, Label,
  name_store_max, delete_name, Store, set_name, delete_names,
}
use k_quickshare.Json.{text_eq, Text}
use k_quickshare.E2e.Blobs.Contents.{text_eq_self, text_eq→eq}

abbrev pub IsAbsent : Text → Store → Type 0
IsAbsent id s = All (λ e. text_eq id e.0 ≡ false) s

abbrev pub IsDistinct : Store → Type 0
IsDistinct [] = Unit
IsDistinct ((k, l) ∷ s) = IsAbsent k s × IsDistinct s

-- No id twice, and no more names than the limit.
abbrev pub IsStore : Store → Type 0
IsStore s = IsDistinct s × (length s ≤ name_store_max)

delete-IsAbsent : (id k : Text) (s : Store) → IsAbsent k s → IsAbsent k (delete_name id s)
unfolding delete_name
delete-IsAbsent id k [] h = tt
delete-IsAbsent id k ((j, l) ∷ s) (h, hs) =
    let rest = delete-IsAbsent id k s hs in
    elim (Bool-cases (text_eq id j)) [
      | inl e ↦ rw (delete_name, e) hs
      | inr e ↦ rw (delete_name, e) (h, rest)
    ]

delete-IsDistinct : (id : Text) (s : Store) → IsDistinct s → IsDistinct (delete_name id s)
unfolding delete_name
delete-IsDistinct id [] h = tt
delete-IsDistinct id ((j, l) ∷ s) (h, hs) =
    let rest : IsDistinct ((j, l) ∷ delete_name id s) =
      (delete-IsAbsent id j s h, delete-IsDistinct id s hs) in
    elim (Bool-cases (text_eq id j)) [
      | inl e ↦ rw (delete_name, e) hs
      | inr e ↦ rw (delete_name, e) rest
    ]

length-delete : (id : Text) (s : Store) → length (delete_name id s) ≤ length s
unfolding delete_name
length-delete id [] = omega arith
length-delete id ((j, l) ∷ s) =
    let rest = length-delete id s in
    elim (Bool-cases (text_eq id j)) [
      | inl e ↦ rw (delete_name, e) (omega arith)
      | inr e ↦ rw (delete_name, e) (omega arith)
    ]

pub deletes-IsStore : (ids : List Text) (s : Store) → IsStore s → IsStore (delete_names ids s)
unfolding delete_names
deletes-IsStore [] s h = h
deletes-IsStore (id ∷ ids) s (h, le) =
    deletes-IsStore ids (delete_name id s)
      (delete-IsDistinct id s h, omega (arith, length-delete id s))

text_eq_swap : (id j : Text) → text_eq id j ≡ false → text_eq j id ≡ false
text_eq_swap id j e = elim (Bool-cases (text_eq j id)) [
  | inl t ↦
      absurd (true-false (sym (ap (λ x. text_eq id x) (text_eq→eq j id t) ∙ text_eq_self id) ∙ e))
  | inr f ↦ f
]
  where
    true-false : true ≡ false → ⊥
    true-false e = cc

pub get-found :
    (id j : Text) (l : Label) (s : Store) → text_eq id j ≡ true → get_name id ((j, l) ∷ s) ≡ some l
unfolding get_name
get-found id j l s e = rw (get_name, e) refl

pub get-further :
    (id j : Text) (l : Label) (s : Store)
    → text_eq id j ≡ false
    → get_name id ((j, l) ∷ s) ≡ get_name id s
unfolding get_name
get-further id j l s e = rw (get_name, e) refl

replace-IsAbsent :
    (id k : Text) (label : Label) (s : Store) → IsAbsent k s → IsAbsent k (replace_name id label s)
unfolding replace_name
replace-IsAbsent id k label [] h = tt
replace-IsAbsent id k label ((j, l) ∷ s) (h, hs) =
    let rest = replace-IsAbsent id k label s hs in
    elim (Bool-cases (text_eq id j)) [
      | inl e ↦ rw (replace_name, e) (h, hs)
      | inr e ↦ rw (replace_name, e) (h, rest)
    ]

replace-IsDistinct :
    (id : Text) (label : Label) (s : Store) → IsDistinct s → IsDistinct (replace_name id label s)
unfolding replace_name
replace-IsDistinct id label [] h = tt
replace-IsDistinct id label ((j, l) ∷ s) (h, hs) =
    let rest : IsDistinct ((j, l) ∷ replace_name id label s) =
      (replace-IsAbsent id j label s h, replace-IsDistinct id label s hs) in
    elim (Bool-cases (text_eq id j)) [
      | inl e ↦ rw (replace_name, e) (h, hs)
      | inr e ↦ rw (replace_name, e) rest
    ]

length-replace :
    (id : Text) (label : Label) (s : Store) → length (replace_name id label s) ≡ length s
unfolding replace_name
length-replace id label [] = refl
length-replace id label ((j, l) ∷ s) =
    let rest = length-replace id label s in
    elim (Bool-cases (text_eq id j)) [
      | inl e ↦ rw (replace_name, e) refl
      | inr e ↦ rw (replace_name, e) (ap suc rest)
    ]

get-replace :
    (id : Text) (label : Label) (s : Store)
    → has_key id s ≡ true
    → get_name id (replace_name id label s) ≡ some label
unfolding has_key replace_name
get-replace id label [] h = cc
get-replace id label ((j, l) ∷ s) h = elim (Bool-cases (text_eq id j)) [
  | inl e ↦ rw (replace_name, e) (get-found id j label s e)
  | inr e ↦
      rw (replace_name, e)
        (get-further id j l (replace_name id label s) e ∙ get-replace id label s (rw e at h))
]

not_kept : (id : Text) (s : Store) → has_key id s ≡ false → IsAbsent id s
unfolding has_key
not_kept id [] h = tt
not_kept id ((j, l) ∷ s) h = elim (Bool-cases (text_eq id j)) [
  | inl e ↦ absurd (true-false (rw e at h))
  | inr e ↦ (e, not_kept id s (rw e at h))
]
  where
    true-false : true ≡ false → ⊥
    true-false e = cc

insert-IsAbsent :
    (id k : Text) (label : Label) (s : Store)
    → text_eq k id ≡ false
    → IsAbsent k s
    → IsAbsent k (insert_name id label s)
unfolding insert_name
insert-IsAbsent id k label [] ne h = (ne, tt)
insert-IsAbsent id k label ((j, l) ∷ s) ne (h, hs) =
    let rest = insert-IsAbsent id k label s ne hs in
    elim (Bool-cases (comes_before (index_of id) (index_of j))) [
      | inl e ↦ rw (insert_name, e) (ne, (h, hs))
      | inr e ↦ rw (insert_name, e) (h, rest)
    ]

insert-IsDistinct :
    (id : Text) (label : Label) (s : Store)
    → IsAbsent id s
    → IsDistinct s
    → IsDistinct (insert_name id label s)
unfolding insert_name
insert-IsDistinct id label [] new h = (tt, tt)
insert-IsDistinct id label ((j, l) ∷ s) (ne, new) (h, hs) =
    let rest : IsDistinct ((j, l) ∷ insert_name id label s) = (
      insert-IsAbsent id j label s (text_eq_swap id j ne) h,
      insert-IsDistinct id label s new hs,
    ) in
    elim (Bool-cases (comes_before (index_of id) (index_of j))) [
      | inl e ↦ rw (insert_name, e) ((ne, new), (h, hs))
      | inr e ↦ rw (insert_name, e) rest
    ]

length-insert :
    (id : Text) (label : Label) (s : Store) → length (insert_name id label s) ≡ suc (length s)
unfolding insert_name
length-insert id label [] = refl
length-insert id label ((j, l) ∷ s) =
    let rest = length-insert id label s in
    elim (Bool-cases (comes_before (index_of id) (index_of j))) [
      | inl e ↦ rw (insert_name, e) refl
      | inr e ↦ rw (insert_name, e) (ap suc rest)
    ]

insert-last :
    (id : Text) (label : Label) (s : Store)
    → index_of id ≡ none
    → insert_name id label s ≡ s ++ (id, label) ∷ []
unfolding insert_name
insert-last id label [] h = refl
insert-last id label ((j, l) ∷ s) h =
    rw (insert_name, h) (ap (λ t. (j, l) ∷ t) (insert-last id label s h))

-- Setting a name adds at most one key, and none twice.
pub set_name-IsDistinct :
    (id : Text) (label : Label) (s : Store)
    → IsDistinct s
    → IsDistinct (set_name id label s) × (length (set_name id label s) ≤ suc (length s))
unfolding set_name
set_name-IsDistinct id label s h = elim (Bool-cases (text_eq id prototype)) [
  | inl e ↦ rw (set_name, e) (h, omega arith)
  | inr e ↦ elim (Bool-cases (has_key id s)) [
    | inl k ↦
        rw (set_name, e, k)
          (replace-IsDistinct id label s h, omega (arith, length-replace id label s))
    | inr k ↦
        rw (set_name, e, k)
          (
            insert-IsDistinct id label s (not_kept id s k) h,
            omega (arith, length-insert id label s),
          )
  ]
]

-- What a store `t` is after the name of `id` was set in `s`: an id that is there keeps its place,
-- another is added at the end.
abbrev pub IsStored : Text → Label → Store → Store → Type 0
IsStored id label s t =
    ((length t ≡ length s) × (get_name id t ≡ some label))
    ⊎ (IsAbsent id s × (t ≡ s ++ (id, label) ∷ []))

-- An id that is neither an array index nor the key of the prototype.
pub set_name-IsStored :
    (id : Text) (label : Label) (s : Store)
    → text_eq id prototype ≡ false
    → index_of id ≡ none
    → IsStored id label s (set_name id label s)
unfolding set_name
set_name-IsStored id label s own no_index = elim (Bool-cases (has_key id s)) [
  | inl k ↦ rw (set_name, own, k) (inl (length-replace id label s, get-replace id label s k))
  | inr k ↦ rw (set_name, own, k) (inr (not_kept id s k, insert-last id label s no_index))
]
