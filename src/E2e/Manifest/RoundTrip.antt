-- ===== src/E2e/Manifest/RoundTrip.antt =====
-- The manifest that is built is the manifest that is read.
use k_quickshare.Base.{
  not, sym, refl, manifest_chunks, manifest_version, ok-injective, passed, >>=-eq-ok, Error, Bytes,
  arith, ◌∙◌, ap, ◌≡◌, ℕ, ok, ==_self,
}
use k_quickshare.E2e.Manifest.{
  is_number, read_size, as_number, outside, get_field, size_chunks, Manifest, or_syntax_error,
  chunk_count, Size, manifest_json, build_manifest, parse_manifest, check_manifest, read_json,
}
use k_quickshare.E2e.Platform.{Coercion, Utf8}
use k_quickshare.Json.{codes, value, Text, Json}
use k_quickshare.Json.Steps.{IsText, HasTexts}
use k_quickshare.Json.Write.{stringify}
use k_quickshare.Json.WellFormed.{has_mark-stringify, is_well_formed-stringify}
use k_quickshare.Json.RoundTrip.{parse-stringify}
use k_quickshare.Json.Read.{parse}
use k_quickshare.E2e.{chunk_size, version}

-- What was written as JSON and encoded is read back.
pub read_json-stringify :
    (u : Utf8) (j : Json) → HasTexts j → read_json u (u.encode (stringify j)) ≡ ok (value j)
unfolding read_json
read_json-stringify u j h = ap or_syntax_error (
    ap parse (u.decode_encode (stringify j) (is_well_formed-stringify j) (has_mark-stringify j))
    ∙ parse-stringify j h)

manifest-HasTexts :
    (id batch : Text) (size : ℕ) → IsText id → IsText batch → HasTexts (manifest_json id batch size)
unfolding manifest_json
manifest-HasTexts id batch size hid hbatch =
    (omega arith, tt, (omega arith, hid, (omega arith, hbatch, omega arith)))

check_manifest-json :
    (co : Coercion) (id batch : Text) (size : ℕ)
    → check_manifest co (value (manifest_json id batch size))
      ≡ ok (record {
        fields = value (manifest_json id batch size);
        size = Size.whole size;
        chunks = chunk_count size;
      })
unfolding check_manifest manifest_json
check_manifest-json co id batch size = rw (==_self (chunk_count size))

-- Reading the manifest of a new file returns its fields, its size and its chunk count. The
-- identifiers are texts.
pub parse_manifest-build_manifest :
    (u : Utf8) (co : Coercion) (id batch : Text) (size : ℕ)
    → IsText id
    → IsText batch
    → parse_manifest u co (build_manifest u id batch size)
      ≡ ok (record {
        fields = value (manifest_json id batch size);
        size = Size.whole size;
        chunks = chunk_count size;
      })
unfolding parse_manifest build_manifest
parse_manifest-build_manifest u co id batch size hid hbatch =
    rw
      (read_json-stringify u (manifest_json id batch size)
        (manifest-HasTexts id batch size hid hbatch))
      (check_manifest-json co id batch size)

-- The chunk count of a manifest that is read is that of its size.
pub parse_manifest-chunks :
    (u : Utf8) (co : Coercion) (bytes : Bytes) (f : Manifest)
    → parse_manifest u co bytes ≡ ok f
    → f.chunks ≡ size_chunks f.size
unfolding parse_manifest check_manifest
parse_manifest-chunks u co bytes f e =
    let (m, read, e1) = >>=-eq-ok (read_json u bytes) (check_manifest co) e in
    let (v, got_v, e2) = >>=-eq-ok (get_field (codes "v") m) _ e1 in
    let (range, e3) = passed (outside 2 version (as_number co v)) manifest_version _ e2 in
    let (s, got_s, e4) = >>=-eq-ok (get_field (codes "size") m) _ e3 in
    let (size, is_read, e5) = >>=-eq-ok (read_size s) _ e4 in
    let (chunk, got_chunk, e6) = >>=-eq-ok (get_field (codes "chunk") m) _ e5 in
    let (fixed, e7) = passed (not (is_number chunk_size chunk)) Error.chunk_size _ e6 in
    let (chunks, got_chunks, e8) = >>=-eq-ok (get_field (codes "chunks") m) _ e7 in
    let (count, e9) = passed (not (is_number (size_chunks size) chunks)) manifest_chunks _ e8 in
    let same : f ≡ record { fields = m; size = size; chunks = size_chunks size } =
      ok-injective (sym e9) in
    rw same refl
