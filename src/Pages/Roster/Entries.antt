-- ===== src/Pages/Roster/Entries.antt =====
-- The map of roster entries holds entries of the roster, and joined ids tell the ids.
use k_quickshare.Base.{
  arith, ◌++◌, ◌∷◌, [], List, some, inr, inl, ◌⊎◌, ◌≢◌, subst, ◌∙◌, ap₂, ap, sym, refl, ◌≡◌, ◌<◌,
  All, length, Bool-cases,
}
use k_quickshare.Pages.Roster.{map_set, by_id, map_get, map_delete, join_ids}
use k_quickshare.E2e.Blobs.{Member}
use k_quickshare.E2e.Blobs.Contents.{text_eq→eq}
use k_quickshare.Json.{Text, text_eq}

abbrev pub IsIn : Member → List Member → Type 0
IsIn f [] = ⊥
IsIn f (g ∷ gs) = (f ≡ g) ⊎ IsIn f gs

-- An id that is not empty and has no NUL in it.
abbrev pub IsId : Text → Type 0
IsId s = (0 < length s) × All (λ c. c ≢ 0) s

split_nul :
    (s t r r' : Text)
    → All (λ c. c ≢ 0) s
    → All (λ c. c ≢ 0) t
    → s ++ 0 ∷ r ≡ t ++ 0 ∷ r'
    → (s ≡ t) × (r ≡ r')
split_nul [] [] r r' hs ht e = (refl, cc)
split_nul [] (d ∷ t) r r' hs (hd, ht) e = absurd (hd cc)
split_nul (c ∷ s) [] r r' (hc, hs) ht e = absurd (hc cc)
split_nul (c ∷ s) (d ∷ t) r r' (hc, hs) (hd, ht) e =
    let (front, back) = split_nul s t r r' hs ht cc in
    let first : c ≡ d = cc in (ap₂ (λ x y. x ∷ y) first front, back)

no_nul : (s t r : Text) → All (λ c. c ≢ 0) s → s ≡ t ++ 0 ∷ r → ⊥
no_nul [] [] r h e = cc
no_nul [] (d ∷ t) r h e = cc
no_nul (c ∷ s) [] r (hc, h) e = hc cc
no_nul (c ∷ s) (d ∷ t) r (hc, h) e = no_nul s t r h cc

pub join_ids-injective :
    (xs ys : List Text) → All IsId xs → All IsId ys → join_ids xs ≡ join_ids ys → xs ≡ ys
unfolding join_ids
join_ids-injective [] [] hx hy e = refl
join_ids-injective [] ([] ∷ []) hx ((pos, h), hy) e = absurd (omega arith)
join_ids-injective [] ((c ∷ y) ∷ []) hx hy e = cc
join_ids-injective [] ([] ∷ z ∷ ys) hx ((pos, h), hy) e = absurd (omega arith)
join_ids-injective [] ((c ∷ y) ∷ z ∷ ys) hx hy e = cc
join_ids-injective ([] ∷ []) [] ((pos, h), hx) hy e = absurd (omega arith)
join_ids-injective ((c ∷ x) ∷ []) [] hx hy e = cc
join_ids-injective ([] ∷ z ∷ xs) [] ((pos, h), hx) hy e = absurd (omega arith)
join_ids-injective ((c ∷ x) ∷ z ∷ xs) [] hx hy e = cc
join_ids-injective (x ∷ []) (y ∷ []) hx hy e = ap (λ t. t ∷ []) e
join_ids-injective (x ∷ []) (y ∷ z ∷ ys) ((px, hx), hxs) hy e = absurd (no_nul x y _ hx e)
join_ids-injective (x ∷ z ∷ xs) (y ∷ []) hx ((py, hy), hys) e = absurd (no_nul y x _ hy (sym e))
join_ids-injective (x ∷ x' ∷ xs) (y ∷ y' ∷ ys) ((px, hx), hxs) ((py, hy), hys) e =
    let (front, back) = split_nul x y (join_ids (x' ∷ xs)) (join_ids (y' ∷ ys)) hx hy e in
    ap₂ (λ s t. s ∷ t) front (join_ids-injective (x' ∷ xs) (y' ∷ ys) hxs hys back)

module _ (P : Member → Type 0) where
  map_set-All : (f : Member) (gs : List Member) → P f → All P gs → All P (map_set f gs)
  unfolding map_set
  map_set-All f [] hf h = (hf, tt)
  map_set-All f (g ∷ gs) hf (hg, h) =
      let rest = map_set-All f gs hf h in
      elim (Bool-cases (text_eq f.id g.id)) [ inl e ↦ rw e (hf, h) | inr e ↦ rw e (hg, rest) ]

  pub by_id-All : (gs fs : List Member) → All P gs → All P fs → All P (by_id gs fs)
  unfolding by_id
  by_id-All gs [] hg hf = hg
  by_id-All gs (f ∷ fs) hg (hf, hfs) = by_id-All (map_set f gs) fs (map_set-All f gs hf hg) hfs

  pub map_get-All :
      (id : Text) (gs : List Member) (f : Member)
      → All P gs
      → map_get id gs ≡ some f
      → P f × (id ≡ f.id)
  unfolding map_get
  map_get-All id [] f h e = cc
  map_get-All id (g ∷ gs) f (hg, h) e = elim (Bool-cases (text_eq id g.id)) [
    | inl same ↦ found hg (rw same at e) (text_eq→eq id g.id same)
    | inr other ↦ map_get-All id gs f h (rw other at e)
  ]
    where
      found : P g → some g ≡ some f → id ≡ g.id → P f × (id ≡ f.id)
      found hg same at = let is_f : g ≡ f = cc in (subst P is_f hg, at ∙ ap (λ x. x.id) is_f)

  pub map_delete-All : (id : Text) (gs : List Member) → All P gs → All P (map_delete id gs)
  unfolding map_delete
  map_delete-All id [] h = tt
  map_delete-All id (g ∷ gs) (hg, h) =
      let rest = map_delete-All id gs h in
      elim (Bool-cases (text_eq id g.id)) [ inl e ↦ rw e h | inr e ↦ rw e (hg, rest) ]

pub All-IsIn : (files : List Member) → All (λ f. IsIn f files) files
All-IsIn [] = tt
All-IsIn (f ∷ fs) = (inl refl, weaken fs (All-IsIn fs))
  where
    weaken : (gs : List Member) → All (λ g. IsIn g fs) gs → All (λ g. IsIn g (f ∷ fs)) gs
    weaken [] h = tt
    weaken (g ∷ gs) (hg, h) = (inr hg, weaken gs h)
