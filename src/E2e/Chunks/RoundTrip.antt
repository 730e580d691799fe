-- ===== src/E2e/Chunks/RoundTrip.antt =====
-- A file that was sealed is opened to its content.
use k_quickshare.E2e.Chunks.{
  blob_type, encrypt_file, Blob, File, or_type, decrypt_loop, decrypt_chunks, decrypt_file,
  is_length, differs,
}
use k_quickshare.E2e.Chunks.Stream.{open_stream-seal_stream, seal_stream, Fills, length-seal_stream}
use k_quickshare.E2e.Chunks.Sealed.{
  encrypt_file-seals, encrypt_file-manifest, Holds, decrypt_loop-opens, container,
}
use k_quickshare.E2e.Manifest.{
  is_size, get_field, chunk_count, build_manifest, manifest_json, Manifest, Size,
}
use k_quickshare.E2e.Header.RoundTrip.{write_header-eq, read_header-write_header, header_bytes}
use k_quickshare.E2e.Platform.{Aead, Utf8, Coercion}
use k_quickshare.Json.Steps.{IsText}
use k_quickshare.Json.{Value, codes, Text, value}
use k_quickshare.Base.{
  subst, sym, ◌++◌, true, ◌∙◌, refl, drop-append, ==_self, arith, [], some, none, Option, false,
  ◌≡◌, ◌<◌, ◌≤◌, ◌*◌, ◌+◌, ℕ, ok, length-append, length, Bytes,
}
use k_quickshare.E2e.{tag_size, version, chunk_size}
use k_quickshare.E2e.Manifest.RoundTrip.{parse_manifest-build_manifest}

-- As many chunks as are counted hold the content, and no chunk but a first one is empty.
pub chunk_count-Fills : (n : ℕ) → Fills chunk_size (chunk_count n) n
unfolding chunk_count
chunk_count-Fills n = (omega arith, omega arith)

-- The manifest that `parseManifest` makes of a new file's.
abbrev pub manifest_of : Text → Text → ℕ → Manifest
manifest_of id batch size = record {
  fields = value (manifest_json id batch size);
  size = Size.whole size;
  chunks = chunk_count size;
}

module _ (a : Aead) where
  open a use {Key}

  -- From the header's end on, the loop opens the sealed chunks.
  opens_container :
      (key : Key) (m p : Bytes)
      → decrypt_loop a
          (chunk_count (length p))
          0
          (container a key m p)
          (length (header_bytes version m))
          key
          m
          []
        ≡ ok p
  opens_container key m p =
      let s : Bytes = seal_stream a chunk_size (chunk_count (length p)) 0 key m p in
      let h : Bytes = header_bytes version m in
      let at : length h + 0 * (chunk_size + tag_size) ≡ length h = omega arith in
      decrypt_loop-opens a (chunk_count (length p)) 0 (h ++ s) (length h) key m []
      ∙ rw
          (
            at,
            drop-append (length h) h s refl,
            open_stream-seal_stream a chunk_size (chunk_count (length p)) 0 key m p
                (chunk_count-Fills (length p)),
          )
          refl

  length-container :
      (key : Key) (m p : Bytes)
      → length (container a key m p)
        ≡ length (header_bytes version m) + length p + chunk_count (length p) * tag_size
  length-container key m p = omega (
    arith,
    length-append (header_bytes version m)
        (seal_stream a chunk_size (chunk_count (length p)) 0 key m p),
    length-seal_stream a chunk_size (chunk_count (length p)) 0 key m p
        (chunk_count-Fills (length p)),
  )

  module _ (u : Utf8) (co : Coercion) where
    no_type :
        (id batch : Text) (size : ℕ)
        → get_field (codes "type") (value (manifest_json id batch size)) ≡ ok none
    unfolding get_field manifest_json
    no_type id batch size = refl

    counted :
        (h n chunks : ℕ) (fields : Value)
        → is_length
            (h + n + chunks * tag_size)
            h
            (record { fields = fields; size = Size.whole n; chunks = chunks })
          ≡ true
    unfolding is_length is_size
    counted h n chunks fields = ground arith

    right_size : (n : ℕ) → is_size n (Size.whole n) ≡ true
    unfolding is_size
    right_size n = ==_self n

    decrypt_container :
        (key : Key) (id batch type : Text) (p : Bytes) (expected : Option Bytes)
        → IsText id
        → IsText batch
        → let m = build_manifest u id batch (length p) in
          0 < length m
          → length m ≤ 0xffff
          → differs expected m ≡ false
          → decrypt_file a u co (container a key m p) key expected type
            ≡ ok (record {
              blob = record { content = p; type = blob_type (or_type co none type) };
              manifest = some (manifest_of id batch (length p));
            })
    unfolding decrypt_file decrypt_chunks
    decrypt_container key id batch type p expected hid hbatch pos fits same =
        let m : Bytes = build_manifest u id batch (length p) in
        let n : ℕ = length p in
        rw
          (
            read_header-write_header version m (header_bytes version m)
                (seal_stream a chunk_size (chunk_count n) 0 key m p) pos
                (write_header-eq m version fits),
            same,
            parse_manifest-build_manifest u co id batch n hid hbatch,
            length-container key m p,
            counted (length (header_bytes version m)) n (chunk_count n)
                (value (manifest_json id batch n)),
            opens_container key m p,
            right_size n,
            no_type id batch n,
          )
          refl

    -- A file that `encryptFile` seals under the manifest of its size is opened by `decryptFile` to
    -- its content, with that manifest and the type that is passed, when no manifest is expected or
    -- this one. The identifiers are texts, and no read of the file of the right length yields other
    -- bytes than the file's.
    pub decrypt_file-encrypt_file :
        (file : File) (key : Key) (id batch type : Text) (p : Bytes) (expected : Option Bytes)
        (b : Blob)
        → IsText id
        → IsText batch
        → Holds file p
        → differs expected (build_manifest u id batch file.size) ≡ false
        → encrypt_file a file key (build_manifest u id batch file.size) ≡ ok b
        → decrypt_file a u co b.content key expected type
          ≡ ok (record {
            blob = record { content = p; type = blob_type (or_type co none type) };
            manifest = some (manifest_of id batch (length p));
          })
    decrypt_file-encrypt_file file key id batch type p expected b hid hbatch h same e =
        let (pos, fits) = encrypt_file-manifest a file key _ b e in
        let size : file.size ≡ length p = h.0 in
        let whole : b.content ≡ container a key (build_manifest u id batch file.size) p =
          encrypt_file-seals a file key _ p b h fits e in
        rw whole (
          subst
            (λ n.
              0 < length (build_manifest u id batch n)
              → length (build_manifest u id batch n) ≤ 0xffff
              → differs expected (build_manifest u id batch n) ≡ false
              → decrypt_file a u co (container a key (build_manifest u id batch n) p) key expected
                  type
                ≡ ok (record {
                  blob = record { content = p; type = blob_type (or_type co none type) };
                  manifest = some (manifest_of id batch (length p));
                }))
            (sym size) (decrypt_container key id batch type p expected hid hbatch) pos fits same)
