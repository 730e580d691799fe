-- ===== src/Pages/Roster/Clean.antt =====
-- What it takes for a batch to be shown without a finding.
use k_quickshare.Base.{
  Result, map, Option, ◌≤◌, ℕ, ltb→ge, ltb, ◌>>=◌, none, ok-injective, >>=-eq-ok, Option-cases,
  arith, ◌∷◌, [], List, some, false, true, inr, inl, ◌∙◌, ap₂, ap, sym, refl, ◌≡◌, ok, All, length,
  Bool-cases,
}
use k_quickshare.Pages.Roster.{
  Finding, findings, check_order, verify_roster, flag, match_rows, count_unverified, Served, by_id,
  map_get, map_delete, join_ids, digest, names_scope, check_member,
}
use k_quickshare.E2e.Blobs.{Member}
use k_quickshare.E2e.Blobs.Contents.{text_eq→eq}
use k_quickshare.E2e.Platform.{Kdf, Utf8, Coercion}
use k_quickshare.Json.{Text}
use k_quickshare.Pages.Roster.Entries.{
  IsIn, IsId, join_ids-injective, by_id-All, map_get-All, map_delete-All, All-IsIn,
}

module _ (kdf : Kdf) (u : Utf8) (co : Coercion) (scope : Text) where
  -- The row is the entry's: its id, name, size, type and manifest digest, and its manifest names
  -- the batch.
  abbrev pub Matches : Served → Member → Type 0
  Matches m f =
      (m.id ≡ f.id)
      × (f.name ≡ m.name)
      × (f.size ≡ m.size)
      × (f.type ≡ m.content_type)
      × (digest kdf u co scope m.manifest ≡ ok f.manifest)
      × (names_scope kdf u co scope m.manifest ≡ true)

  check_member-verified :
      (f : Member) (d : Text) (m : Served)
      → (check_member kdf u co scope f d m).unverified ≡ false
      → (check_member kdf u co scope f d m ≡ m)
        × (f.manifest ≡ d)
        × (f.name ≡ m.name)
        × (f.size ≡ m.size)
        × (f.type ≡ m.content_type)
        × (names_scope kdf u co scope m.manifest ≡ true)
  unfolding check_member
  check_member-verified f d m h =
      ground
        (arith, text_eq→eq f.manifest d, text_eq→eq f.name m.name, text_eq→eq f.type m.content_type)

  match_none :
      (m : Served) (ms : List Served) (entries : List Member)
      → map_get m.id entries ≡ none
      → match_rows kdf u co scope (m ∷ ms) entries
        ≡ (match_rows kdf u co scope ms entries >>= λ r. ok (flag m ∷ r.0, r.1))
  unfolding match_rows
  match_none m ms entries e = rw (match_rows, e) refl

  match_some :
      (m : Served) (ms : List Served) (entries : List Member) (f : Member)
      → map_get m.id entries ≡ some f
      → match_rows kdf u co scope (m ∷ ms) entries ≡ (
          digest kdf u co scope m.manifest >>= λ d.
          match_rows kdf u co scope ms (map_delete m.id entries) >>= λ r.
          ok (check_member kdf u co scope f d m ∷ r.0, r.1))
  unfolding match_rows
  match_some m ms entries f e = rw (match_rows, e) refl

  none_counted :
      (m : Served) (ms : List Served)
      → count_unverified (m ∷ ms) ≡ 0
      → (m.unverified ≡ false) × (count_unverified ms ≡ 0)
  unfolding count_unverified
  none_counted m ms h = ground arith

  not_flagged : (m : Served) (ms : List Served) → count_unverified (flag m ∷ ms) ≡ 0 → ⊥
  unfolding count_unverified
  not_flagged m ms h = ground arith

  no_rows :
      (entries : List Member) (rows : List Served) (left : List Member)
      → match_rows kdf u co scope [] entries ≡ ok (rows, left)
      → rows ≡ []
  unfolding match_rows
  no_rows entries rows left e = ap (λ x. x.0) (ok-injective (sym e))

  -- Every row of a group in which none is flagged matched an entry of the roster.
  match_rows-clean :
      (files : List Member) (group : List Served) (entries : List Member) (rows : List Served)
      (left : List Member)
      → All (λ f. IsIn f files) entries
      → match_rows kdf u co scope group entries ≡ ok (rows, left)
      → count_unverified rows ≡ 0
      → (rows ≡ group) × All (λ m. (f : Member) × IsIn f files × Matches m f) group
  match_rows-clean files [] entries rows left h e none_flagged = (no_rows entries rows left e, tt)
  match_rows-clean files (m ∷ ms) entries rows left h e none_flagged =
      elim (Option-cases (map_get m.id entries)) [
        | inl missing ↦
            let (r, rest, same) =
              >>=-eq-ok (match_rows kdf u co scope ms entries) _
                (sym (match_none m ms entries missing) ∙ e) in
            let shape : flag m ∷ r.0 ≡ rows = ap (λ x. x.0) (ok-injective same) in
            absurd (not_flagged m r.0 (ap count_unverified shape ∙ none_flagged))
        | inr (f, found) ↦
            let (d, digested, e1) =
              >>=-eq-ok (digest kdf u co scope m.manifest) _
                (sym (match_some m ms entries f found) ∙ e) in
            let (r, rest, same) =
              >>=-eq-ok (match_rows kdf u co scope ms (map_delete m.id entries)) _ e1 in
            let shape : check_member kdf u co scope f d m ∷ r.0 ≡ rows =
              ap (λ x. x.0) (ok-injective same) in
            let (head, tail) =
              none_counted (check_member kdf u co scope f d m) r.0
                (ap count_unverified shape ∙ none_flagged) in
            let (inside, id) = map_get-All (λ g. IsIn g files) m.id entries f h found in
            let (unchanged, manifest, name, size, type, named) = check_member-verified f d m head in
            let (again, all) =
              match_rows-clean files ms (map_delete m.id entries) r.0 r.1
                (map_delete-All (λ g. IsIn g files) m.id entries h) rest tail in
            (
              sym shape ∙ ap₂ (λ x y. x ∷ y) unchanged again,
              ((f, inside, (id, name, size, type, digested ∙ ap ok (sym manifest), named)), all),
            )
      ]

  legacy_told :
      (group shown : List Served)
      → ◌≡◌ {A = Result (List Finding × List Served)}
          (ok (Finding.legacy ∷ [], group))
          (ok ([], shown))
      → ⊥
  legacy_told group shown e = cc

  -- A check that returns no finding.
  quiet :
      (files rest : List Member) (rows : List Served) (shown : List Served)
      → check_order kdf u co scope files rows (findings kdf u co scope rows rest) ≡ ([], shown)
      → (count_unverified rows ≡ 0)
        × (length rest ≡ 0)
        × (shown ≡ rows)
        × (join_ids (map (λ m. m.id) rows) ≡ join_ids (map (λ f. f.id) files))
  unfolding check_order findings
  quiet files rest rows shown e =
      ground
        (arith, text_eq→eq (join_ids (map (λ m. m.id) rows)) (join_ids (map (λ f. f.id) files)))

  -- A batch is shown without a finding only if its version has rosters, its roster opened, the
  -- served ids are the roster's in the sealed order, and each row is an entry's: its id, name,
  -- size, type and manifest digest, and its manifest names the batch. Then the rows are shown as
  -- they were served. No id is empty or has a NUL.
  pub verify_roster-clean :
      (v : ℕ) (roster : Option (List Member)) (group shown : List Served)
      → All IsId (map (λ m. m.id) group)
      → ((files : List Member) → roster ≡ some files → All IsId (map (λ f. f.id) files))
      → verify_roster kdf u co scope v roster group ≡ ok ([], shown)
      → (shown ≡ group)
        × (2 ≤ v)
        × ((files : List Member) × (roster ≡ some files)
            × (map (λ m. m.id) group ≡ map (λ f. f.id) files)
            × All (λ m. (f : Member) × IsIn f files × Matches m f) group)
  unfolding verify_roster
  verify_roster-clean v none group shown hg hf e = absurd (ground arith)
  verify_roster-clean v (some files) group shown hg hf e = elim (Bool-cases (ltb v 2)) [
    | inl old ↦ absurd (legacy_told group shown (rw old at e))
    | inr new ↦
        let (r, matched, same) =
          >>=-eq-ok (match_rows kdf u co scope group (by_id [] files)) _ (rw new at e) in
        let (none_flagged, none_left, as_is, order) =
          quiet files r.1 r.0 shown (ok-injective same) in
        let (rows, all) =
          match_rows-clean files group (by_id [] files) r.0 r.1
            (by_id-All (λ g. IsIn g files) [] files tt (All-IsIn files)) matched none_flagged in
        let ids : map (λ m. m.id) r.0 ≡ map (λ m. m.id) group = ap (map (λ m. m.id)) rows in
        (
          as_is ∙ rows,
          ltb→ge v 2 new,
          (
            files,
            refl,
            join_ids-injective _ _ hg (hf files refl) (ap join_ids (sym ids) ∙ order),
            all,
          ),
        )
  ]
