-- ===== src/Tests/Pages.antt =====
-- A served batch and its roster.
use k_quickshare.Pages.Roster.{
  digest, names_scope, match_rows, by_id, map_set, map_get, map_delete, check_member, findings,
  check_order, count_unverified, join_ids, Served, verify_roster,
}
use k_quickshare.Pages.Roster.Entries.{IsIn, IsId}
use k_quickshare.Pages.Roster.Honest.{verify_roster-served}
use k_quickshare.Pages.Roster.Clean.{Matches, verify_roster-clean}
use k_quickshare.E2e.Blobs.{Member}
use k_quickshare.E2e.Manifest.RoundTrip.{parse_manifest-build_manifest}
use k_quickshare.E2e.Blobs.{is_text}
use k_quickshare.E2e.Blobs.Contents.{text_eq_self}
use k_quickshare.E2e.Base64.{b64u_decode}
use k_quickshare.E2e.Base64.RoundTrip.{b64u_decode-b64u_encode, b64u_encode_shape}
use k_quickshare.Json.Write.{stringify}
use k_quickshare.Json.Steps.{IsText}
use k_quickshare.Json.{Value, value}
use k_quickshare.E2e.Manifest.{Manifest, parse_manifest, get_field, manifest_json, build_manifest}
use k_quickshare.E2e.Base64.{b64u_encode}
use k_quickshare.Json.{Text, codes}
use k_quickshare.Tests.Instances.{plain, no_numbers, toy_kdf}
use k_quickshare.Base.{
  Option, ◌∙◌, true, ◌<◌, length, AreBytes, Bytes, arith, map, ◌∷◌, [], List, some, false, subst,
  refl, ◌≡◌, ◌≤◌, ok, All,
}

abbrev scope : Text
scope = codes "b1"

abbrev manifest : Text
manifest = b64u_encode (build_manifest plain (codes "f1") scope 3)

abbrev group : List Served
group =
    record {
      id = codes "f1";
      name = codes "a.txt";
      size = 3;
      content_type = codes "text/plain";
      manifest = manifest;
      unverified = false;
    }
    ∷ []

abbrev files : List Member
files =
    record {
      id = codes "f1";
      name = codes "a.txt";
      size = 3;
      type = codes "text/plain";
      manifest = manifest;
    }
    ∷ []

abbrev id_of : Served → Text
id_of m = m.id

group_ids : All IsId (map (λ (m : Served). m.id) group)
group_ids = ((omega arith, omega arith), tt)

file_ids : (fs : List Member) → some files ≡ some fs → All IsId (map (λ f. f.id) fs)
file_ids fs e =
    let same : files ≡ fs = cc in subst (λ gs. All IsId (map (λ f. f.id) gs)) same group_ids

abbrev bytes : Bytes
bytes = build_manifest plain (codes "f1") scope 3

bytes_lem : AreBytes bytes × (0 < length bytes)
unfolding build_manifest stringify
bytes_lem = (omega arith, omega arith)

decodes : b64u_decode manifest ≡ ok bytes
decodes = b64u_decode-b64u_encode bytes bytes_lem.0

digest_decoded :
    (t b : Bytes)
    → 0 < length t
    → b64u_decode t ≡ ok b
    → digest toy_kdf plain no_numbers scope t ≡ ok (b64u_encode b)
unfolding digest
digest_decoded [] b pos e = absurd (omega arith)
digest_decoded (c ∷ t) b pos e = rw e refl

has_digest : digest toy_kdf plain no_numbers scope manifest ≡ ok manifest
has_digest =
    let size = b64u_encode_shape bytes bytes_lem.0 in
    digest_decoded manifest bytes (omega (arith, size.1, bytes_lem.1)) decodes

is_id : IsText (codes "f1")
is_id = omega arith

is_scope : IsText scope
is_scope = omega arith

names_decoded :
    (t b : Bytes) (f : Manifest) (x : Option Value)
    → b64u_decode t ≡ ok b
    → parse_manifest plain no_numbers b ≡ ok f
    → get_field (codes "batch") f.fields ≡ ok x
    → names_scope toy_kdf plain no_numbers scope t ≡ is_text scope x
unfolding names_scope
names_decoded t b f x decoded parsed got = rw (names_scope, decoded, parsed, got) refl

names_batch :
    get_field (codes "batch") (value (manifest_json (codes "f1") scope 3))
    ≡ ok (some (Value.str scope))
unfolding get_field manifest_json
names_batch = refl

has_scope : names_scope toy_kdf plain no_numbers scope manifest ≡ true
has_scope =
    names_decoded manifest bytes _ (some (Value.str scope)) decodes
      (parse_manifest-build_manifest plain no_numbers (codes "f1") scope 3 is_id is_scope)
      names_batch
    ∙ unfold is_text in refl

shown : verify_roster toy_kdf plain no_numbers scope 5 (some files) group ≡ ok ([], group)
unfolding verify_roster match_rows by_id map_set map_get map_delete check_member findings
    check_order count_unverified join_ids
shown = rw (has_digest, text_eq_self manifest, has_scope) refl

verify_roster-clean_example :
    (group ≡ group)
    × (2 ≤ 5)
    × ((fs : List Member) × (some files ≡ some fs)
        × (map (λ m. m.id) group ≡ map (λ f. f.id) fs)
        × All (λ m. (f : Member) × IsIn f fs × Matches toy_kdf plain no_numbers scope m f) group)
verify_roster-clean_example =
    verify_roster-clean toy_kdf plain no_numbers scope 5 (some files) group group group_ids file_ids
      shown

verify_roster-served_example :
    verify_roster toy_kdf plain no_numbers scope 5 (some files) group ≡ ok ([], group)
verify_roster-served_example =
    verify_roster-served toy_kdf plain no_numbers scope 5 files group (omega arith) (tt, tt)
      ((refl, refl, refl, refl, has_digest, has_scope, refl), tt)
