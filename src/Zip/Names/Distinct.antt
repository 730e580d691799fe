-- ===== src/Zip/Names/Distinct.antt =====
-- The names of an archive are found, one for each entry, and differ.
use k_quickshare.Zip.Names.{
  Seen, seen_get, is_seen, candidate, stem_of, ext_of, place_name, zip_name, names_from,
  unique_names,
}
use k_quickshare.Zip.Names.Search.{free_number-ends}
use k_quickshare.Json.{Text}
use k_quickshare.E2e.Blobs.Contents.{text_eq_self}
use k_quickshare.Base.{
  arith, ◌∷◌, [], List, some, none, false, true, inr, inl, ◌≢◌, ap, refl, ◌≡◌, ◌+◌, suc, ℕ, All,
  length, Option-cases,
}

abbrev pub AreDistinct : List Text → Type 0
AreDistinct [] = Unit
AreDistinct (x ∷ xs) = All (λ y. y ≢ x) xs × AreDistinct xs

-- What has been seen stays seen.
abbrev Grows : Seen → Seen → Type 0
Grows seen later = (y : Text) → is_seen y later ≡ false → is_seen y seen ≡ false

seen_more : (k : Text) (v : ℕ) (seen : Seen) → Grows seen ((k, v) ∷ seen)
unfolding is_seen seen_get
seen_more k v seen y h = ground arith

seen_now : (k : Text) (v : ℕ) (seen : Seen) → is_seen k ((k, v) ∷ seen) ≡ true
unfolding is_seen seen_get
seen_now k v seen = rw (is_seen, text_eq_self k) refl

unseen : (name : Text) (seen : Seen) → seen_get name seen ≡ none → is_seen name seen ≡ false
unfolding is_seen
unseen name seen e = rw (is_seen, e) refl

-- An entry is always placed, under a name that was free and is taken from then on.
place_name-free :
    (name : Text) (seen : Seen)
    → (x : Text) × (later : Seen) × (place_name name seen ≡ some (x, later))
      × (is_seen x seen ≡ false)
      × (is_seen x later ≡ true)
      × Grows seen later
unfolding place_name
place_name-free name seen = elim (Option-cases (seen_get name seen)) [
  | inl fresh ↦ (
    name,
    (name, 1) ∷ seen,
    rw (place_name, fresh) refl,
    unseen name seen fresh,
    seen_now name 1 seen,
    seen_more name 1 seen,
  )
  | inr (k, used) ↦
      let (n, found, free) = free_number-ends (k + 1) (stem_of name) (ext_of name) seen in
      let x : Text = candidate (stem_of name) (ext_of name) n in
      (
        x,
        (x, 1) ∷ (name, n) ∷ seen,
        rw (place_name, used, found) refl,
        free,
        seen_now x 1 ((name, n) ∷ seen),
        λ y h. seen_more name n seen y (seen_more x 1 ((name, n) ∷ seen) y h),
      )
]

All-unseen :
    (seen later : Seen) (xs : List Text)
    → Grows seen later
    → All (λ y. is_seen y later ≡ false) xs
    → All (λ y. is_seen y seen ≡ false) xs
All-unseen seen later [] g h = tt
All-unseen seen later (x ∷ xs) g (hx, h) = (g x hx, All-unseen seen later xs g h)

All-other :
    (x : Text) (later : Seen) (xs : List Text)
    → is_seen x later ≡ true
    → All (λ y. is_seen y later ≡ false) xs
    → All (λ y. y ≢ x) xs
All-other x later [] e h = tt
All-other x later (y ∷ ys) e (hy, h) = (λ same. differ_at y same hy, All-other x later ys e h)
  where
    differ_at : (y : Text) → y ≡ x → is_seen y later ≡ false → ⊥
    differ_at y same hy = cc

names_from-AreDistinct :
    (entries : List Text) (seen : Seen)
    → (names : List Text) × (names_from entries seen ≡ some names)
      × (length names ≡ length entries)
      × All (λ y. is_seen y seen ≡ false) names
      × AreDistinct names
unfolding names_from
names_from-AreDistinct [] seen = ([], refl, refl, tt, tt)
names_from-AreDistinct (e ∷ es) seen =
    let (x, later, placed, free, taken, grows) = place_name-free (zip_name e) seen in
    let (names, rest, size, unused, distinct) = names_from-AreDistinct es later in
    (
      x ∷ names,
      rw (names_from, placed, rest) refl,
      ap suc size,
      (free, All-unseen seen later names grows unused),
      (All-other x later names taken unused, distinct),
    )

-- Every list of entries is named: the search for free names ends, there is one name for each entry,
-- and no two are the same.
pub unique_names-AreDistinct :
    (entries : List Text)
    → (names : List Text) × (unique_names entries ≡ some names)
      × (length names ≡ length entries)
      × AreDistinct names
unfolding unique_names
unique_names-AreDistinct entries =
    let (names, found, size, unused, distinct) = names_from-AreDistinct entries [] in
    (names, found, size, distinct)
