-- ===== src/Pages/Roster.antt =====
-- `verifyRoster` of web/static/app.js: the served members of a batch against its sealed roster. The
-- roster is the list that openRoster returned, with entries as recordMember writes them.
pub mod Clean
pub mod Entries
pub mod Honest
use k_quickshare.E2e.Blobs.{Member, is_text}
use k_quickshare.E2e.Base64.{b64u_encode, b64u_decode}
use k_quickshare.E2e.Manifest.{parse_manifest, get_field}
use k_quickshare.E2e.Platform.{Kdf, Utf8, Coercion}
use k_quickshare.Json.{Text, codes, text_eq}
use k_quickshare.Base.{
  ◌>>=◌, map, ◌++◌, ◌∷◌, [], List, some, none, Option, ◌&&◌, false, true, Bool, ◌+◌, suc, ℕ, ok,
  err, Result, length, if◌then◌else◌, ◌==◌, leb, ltb,
}

-- A row of the listing. A missing manifest is the empty text.
pub record Served : Type 0 where
  pub id : Text
  pub name : Text
  pub size : ℕ
  pub content_type : Text
  pub manifest : Text
  pub unverified : Bool

-- What the page tells of a batch.
pub data Finding : Type 0 where
  legacy : Finding
  no_roster : Finding
  unverified : ℕ → Finding
  missing : ℕ → List Text → Finding
  reordered : Finding

-- `byID.set(f.id, f)`: an entry of the same id is replaced where it stands.
unfoldable pub map_set : Member → List Member → List Member
map_set f [] = f ∷ []
map_set f (g ∷ gs) = let rest = map_set f gs in if text_eq f.id g.id then f ∷ gs else g ∷ rest

unfoldable pub by_id : List Member → List Member → List Member
by_id entries [] = entries
by_id entries (f ∷ fs) = by_id (map_set f entries) fs

unfoldable pub map_get : Text → List Member → Option Member
map_get id [] = none
map_get id (g ∷ gs) = let rest = map_get id gs in if text_eq id g.id then some g else rest

unfoldable pub map_delete : Text → List Member → List Member
map_delete id [] = []
map_delete id (g ∷ gs) = let rest = map_delete id gs in if text_eq id g.id then gs else g ∷ rest

abbrev pub flag : Served → Served
flag m = record m { unverified = true }

-- `group.filter((m) => m.unverified).length`
unfoldable pub count_unverified : List Served → ℕ
count_unverified [] = 0
count_unverified (m ∷ ms) =
    let rest = count_unverified ms in if m.unverified then suc rest else rest

-- `ids.join('\x00')`
unfoldable pub join_ids : List Text → Text
join_ids [] = []
join_ids (s ∷ []) = s
join_ids (s ∷ t ∷ ts) = s ++ 0 ∷ join_ids (t ∷ ts)

-- The place of the last entry with an id, as `pos.get` returns it.
unfoldable pub position : ℕ → Text → List Member → ℕ → ℕ
position i id [] found = found
position i id (f ∷ fs) found = position (i + 1) id fs (if text_eq id f.id then i else found)

-- `group.sort` by the places, which keeps the order of equal ones.
unfoldable pub insert_by : (Served → ℕ) → Served → List Served → List Served
insert_by key m [] = m ∷ []
insert_by key m (x ∷ xs) =
    let rest = insert_by key m xs in if leb (key m) (key x) then m ∷ x ∷ xs else x ∷ rest

unfoldable pub sort_by : (Served → ℕ) → List Served → List Served
sort_by key [] = []
sort_by key (m ∷ ms) = insert_by key m (sort_by key ms)

module _ (kdf : Kdf) (u : Utf8) (co : Coercion) (scope : Text) where
  -- `m.manifest ? await sha256b64u(b64uDecode(m.manifest)) : ''`
  unfoldable pub digest : Text → Result Text
  digest [] = ok []
  digest (c ∷ t) = do bytes ← b64u_decode (c ∷ t); ok (b64u_encode (kdf.sha256 bytes))

  -- `parseManifest(b64uDecode(m.manifest)).batch === scope`, where a failure is caught.
  unfoldable pub names_scope : Text → Bool
  names_scope manifest =
      elim (do
        bytes ← b64u_decode manifest
        f ← parse_manifest u co bytes
        b ← get_field (codes "batch") f.fields
        ok (is_text scope b)) [ ok b ↦ b | err e ↦ false ]

  -- The row's checks against the entry that was found.
  unfoldable pub check_member : Member → Text → Served → Served
  check_member entry d m =
      if text_eq entry.manifest d
        && text_eq entry.name m.name
        && entry.size == m.size
        && text_eq entry.type m.content_type
      then (if names_scope m.manifest then m else flag m)
      else flag m

  -- The loop over the group: the rows with their flags, and the entries that are left.
  unfoldable pub match_rows : List Served → List Member → Result (List Served × List Member)
  match_rows [] entries = ok ([], entries)
  match_rows (m ∷ ms) entries = elim (map_get m.id entries) [
    | none ↦ do r ← match_rows ms entries; ok (flag m ∷ r.0, r.1)
    | some entry ↦ do
      d ← digest m.manifest
      r ← match_rows ms (map_delete m.id entries)
      ok (check_member entry d m ∷ r.0, r.1)
  ]

  unfoldable pub findings : List Served → List Member → List Finding
  findings rows left =
      (if ltb 0 (count_unverified rows)
        then Finding.unverified (count_unverified rows) ∷ []
        else [])
      ++ (if ltb 0 (length left)
          then Finding.missing (length left) (map (λ f. f.name) left) ∷ []
          else [])

  -- The order is compared only where nothing else was found.
  unfoldable pub check_order : List Member → List Served → List Finding → List Finding × List Served
  check_order files rows (n ∷ ns) = (n ∷ ns, rows)
  check_order files rows [] =
      if text_eq (join_ids (map (λ m. m.id) rows)) (join_ids (map (λ f. f.id) files))
      then ([], rows)
      else (Finding.reordered ∷ [], sort_by (λ m. position 0 m.id files 0) rows)

  -- `roster` is `none` where there is none or it does not open.
  unfoldable pub verify_roster :
      ℕ → Option (List Member) → List Served → Result (List Finding × List Served)
  verify_roster batch_version none group =
      if ltb batch_version 2
      then ok (Finding.legacy ∷ [], group)
      else ok (Finding.no_roster ∷ [], map flag group)
  verify_roster batch_version (some files) group =
      if ltb batch_version 2
      then ok (Finding.legacy ∷ [], group)
      else do r ← match_rows group (by_id [] files); ok (check_order files r.0 (findings r.0 r.1))
