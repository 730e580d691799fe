-- ===== src/Pages/Roster/Honest.antt =====
-- A listing of what the roster lists has no finding.
use k_quickshare.Base.{
  arith, some, ap, ◌≤◌, ℕ, ltb, ap₂, ◌++◌, ◌∷◌, [], List, true, false, ok, refl, ◌≡◌, ◌∙◌, sym, All,
  map, append-nil, append_assoc, ==_self,
}
use k_quickshare.E2e.Blobs.{Member}
use k_quickshare.E2e.Blobs.Contents.{text_eq_self}
use k_quickshare.E2e.Platform.{Kdf, Utf8, Coercion}
use k_quickshare.Json.{Text, text_eq}
use k_quickshare.Pages.Roster.{
  join_ids, check_order, verify_roster, findings, Served, map_set, by_id, map_get, map_delete,
  count_unverified, digest, names_scope, check_member, match_rows,
}

-- No id of the entries is that of `f`.
abbrev IsNew : Member → List Member → Type 0
IsNew f = All (λ g. text_eq f.id g.id ≡ false)

-- No two entries have the same id.
abbrev pub AreDistinctMembers : List Member → List Member → Type 0
AreDistinctMembers before [] = Unit {0}
AreDistinctMembers before (f ∷ fs) = IsNew f before × AreDistinctMembers (before ++ f ∷ []) fs

map_set-IsNew : (f : Member) (es : List Member) → IsNew f es → map_set f es ≡ es ++ f ∷ []
unfolding map_set
map_set-IsNew f [] h = refl
map_set-IsNew f (g ∷ gs) (h, hs) = rw (h, map_set-IsNew f gs hs) refl

by_id-distinct : (es fs : List Member) → AreDistinctMembers es fs → by_id es fs ≡ es ++ fs
unfolding by_id
by_id-distinct es [] h = sym (append-nil es)
by_id-distinct es (f ∷ fs) (new, h) =
    rw (map_set-IsNew f es new) (by_id-distinct (es ++ f ∷ []) fs h ∙ append_assoc es (f ∷ []) fs)

get-first :
    (id : Text) (f : Member) (fs : List Member)
    → text_eq id f.id ≡ true
    → map_get id (f ∷ fs) ≡ some f
unfolding map_get
get-first id f fs h = rw h refl

delete-first :
    (id : Text) (f : Member) (fs : List Member)
    → text_eq id f.id ≡ true
    → map_delete id (f ∷ fs) ≡ fs
unfolding map_delete
delete-first id f fs h = rw h refl

module _ (kdf : Kdf) (u : Utf8) (co : Coercion) (scope : Text) where
  -- A row as the server has it of a file that was entered.
  abbrev pub IsServed : Served → Member → Type 0
  IsServed m f =
      (m.id ≡ f.id)
      × (m.name ≡ f.name)
      × (m.size ≡ f.size)
      × (m.content_type ≡ f.type)
      × (digest kdf u co scope m.manifest ≡ ok f.manifest)
      × (names_scope kdf u co scope m.manifest ≡ true)
      × (m.unverified ≡ false)

  abbrev pub AreServed : List Served → List Member → Type 0
  AreServed [] [] = Unit {0}
  AreServed [] (f ∷ fs) = ⊥
  AreServed (m ∷ ms) [] = ⊥
  AreServed (m ∷ ms) (f ∷ fs) = IsServed m f × AreServed ms fs

  check-served :
      (m : Served) (f : Member) → IsServed m f → check_member kdf u co scope f f.manifest m ≡ m
  unfolding check_member
  check-served m f (id, name, size, type, digested, scoped, clean) =
      rw
        (
          check_member,
          name,
          size,
          type,
          text_eq_self f.manifest,
          text_eq_self f.name,
          ==_self f.size,
          text_eq_self f.type,
          scoped,
        )
        refl

  match-served :
      (ms : List Served) (fs : List Member)
      → AreServed ms fs
      → match_rows kdf u co scope ms fs ≡ ok (ms, [])
  unfolding match_rows
  match-served [] [] h = refl
  match-served [] (f ∷ fs) h = elim h [ ]
  match-served (m ∷ ms) [] h = elim h [ ]
  match-served (m ∷ ms) (f ∷ fs) ((id, name, size, type, digested, scoped, clean), hs) =
      let same : text_eq m.id f.id ≡ true = ap (λ t. text_eq t f.id) id ∙ text_eq_self f.id in
      let passes = check-served m f (id, name, size, type, digested, scoped, clean) in
      rw
        (
          match_rows,
          get-first m.id f fs same,
          delete-first m.id f fs same,
          digested,
          match-served ms fs hs,
          passes,
        )
        refl

  none_unverified :
      (ms : List Served) (fs : List Member) → AreServed ms fs → count_unverified ms ≡ 0
  unfolding count_unverified
  none_unverified [] [] h = refl
  none_unverified [] (f ∷ fs) h = elim h [ ]
  none_unverified (m ∷ ms) [] h = elim h [ ]
  none_unverified (m ∷ ms) (f ∷ fs) ((id, name, size, type, digested, scoped, clean), hs) =
      rw clean (none_unverified ms fs hs)

  same_ids :
      (ms : List Served) (fs : List Member)
      → AreServed ms fs
      → map (λ m. m.id) ms ≡ map (λ f. f.id) fs
  same_ids [] [] h = refl
  same_ids [] (f ∷ fs) h = elim h [ ]
  same_ids (m ∷ ms) [] h = elim h [ ]
  same_ids (m ∷ ms) (f ∷ fs) (h, hs) = ap₂ (λ x xs. x ∷ xs) h.0 (same_ids ms fs hs)

  no_findings : (ms : List Served) → count_unverified ms ≡ 0 → findings kdf u co scope ms [] ≡ []
  unfolding findings
  no_findings ms h = rw h refl

  in_order :
      (fs : List Member) (ms : List Served)
      → map (λ m. m.id) ms ≡ map (λ f. f.id) fs
      → check_order kdf u co scope fs ms [] ≡ ([], ms)
  unfolding check_order
  in_order fs ms same = rw (same, text_eq_self (join_ids (map (λ f. f.id) fs))) refl

  -- A listing that has, in the order of the roster, every file that was entered, with its name,
  -- size, type and manifest, has no finding, and no row is changed. The entries' ids are distinct,
  -- each manifest is for this batch, no row was flagged before, and the version is at least 2.
  pub verify_roster-served :
      (version : ℕ) (files : List Member) (group : List Served)
      → 2 ≤ version
      → AreDistinctMembers [] files
      → AreServed group files
      → verify_roster kdf u co scope version (some files) group ≡ ok ([], group)
  unfolding verify_roster
  verify_roster-served version files group new distinct served =
      let recent : ltb version 2 ≡ false = ground arith in
      rw
        (
          verify_roster,
          recent,
          by_id-distinct [] files distinct,
          match-served group files served,
          no_findings group (none_unverified group files served),
          in_order files group (same_ids group files served),
        )
        refl
