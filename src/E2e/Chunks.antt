-- ===== src/E2e/Chunks.antt =====
-- `encryptFile`, `decryptChunks`, `decryptFile`, `decryptV2`, `decryptLegacy` and `openFile` of
-- web/static/e2e.js. A `Blob` is its bytes and its type; `onProgress` only reports and is left out.
pub mod Stream
pub mod Sealed
pub mod RoundTrip
pub mod Sound
pub mod Older
use k_quickshare.Base.{
  ◌&&◌, true, ◌>>◌, ◌>>=◌, ◌++◌, ◌∷◌, [], List, some, none, Option, not, false, Bool, min, ◌*◌, ◌-◌,
  ◌+◌, suc, zero, ℕ, err, ok, aborted, metadata_mismatch, plain_length, ciphertext_length,
  manifest_required, operation_error, throw_if, Result, concat, drop, take, length, Bytes, ceil_div,
  if◌then◌else◌, ◌==◌, leb,
}
use k_quickshare.Json.{Value, codes, Text}
use k_quickshare.E2e.Slice.{read_slice, Attempt, bytes_equal}
use k_quickshare.E2e.Platform.{Utf8, Coercion, Aead}
use k_quickshare.E2e.Manifest.{get_field, chunk_count, parse_manifest, is_size, Manifest}
use k_quickshare.E2e.{version, chunk_size, tag_size}
use k_quickshare.E2e.Header.{write_header, read_header}
use k_quickshare.E2e.Nonce.{chunk_nonce}

-- The type that `new Blob` makes of the one it is given: none where a character is not printable
-- ASCII, and else its lower case.
unfoldable pub is_printable : Text → Bool
is_printable [] = true
is_printable (c ∷ t) = leb 32 c && leb c 126 && is_printable t

unfoldable pub lower_ascii : Text → Text
lower_ascii [] = []
lower_ascii (c ∷ t) = (if leb 65 c && leb c 90 then c + 32 else c) ∷ lower_ascii t

unfoldable pub blob_type : Text → Text
unfolding is_printable lower_ascii
blob_type t = if is_printable t then lower_ascii t else []

-- `Blob` as a result
pub record Blob : Type 0 where
  pub content : Bytes
  pub type : Text

pub record Opened : Type 0 where
  pub blob : Blob
  pub manifest : Option Manifest

-- A file as the browser hands it over: its size, how the passes of each chunk's reading go, and the
-- cancellation token as each chunk starts.
pub record File : Type 0 where
  pub size : ℕ
  pub reads : ℕ → ℕ → Attempt
  pub cancelled : ℕ → Bool

-- FLUSH_BYTES
abbrev pub flush_bytes : ℕ
flush_bytes = 4194304

abbrev pub octet_stream : Text
octet_stream = codes "application/octet-stream"

-- The variables of the loop in `encryptFile`.
pub record Output : Type 0 where
  pub flushed : List Bytes
  pub parts : List Bytes
  pub pending : ℕ

-- A sealed chunk is pushed; every 4 MiB the parts become one blob.
unfoldable pub push_chunk : Bytes → Output → Output
push_chunk ct o =
    if leb flush_bytes (o.pending + length ct)
    then record { flushed = o.flushed ++ concat (o.parts ++ ct ∷ []) ∷ []; parts = []; pending = 0 }
    else record o { parts = o.parts ++ ct ∷ []; pending = o.pending + length ct }

unfoldable pub close_output : Output → Bytes
close_output o =
    if length o.parts == 0 then concat o.flushed else concat (o.flushed ++ concat o.parts ∷ [])

-- `offset + m.size + m.chunks * TAG === n`
unfoldable pub is_length : ℕ → ℕ → Manifest → Bool
is_length n offset m =
    let overhead = offset + m.chunks * tag_size in
    if leb overhead n then is_size (n - overhead) m.size else false

-- `s || d` of texts
abbrev pub or_text : Text → Text → Text
or_text [] d = d
or_text (c ∷ s) d = c ∷ s

-- `m.type || type || 'application/octet-stream'`
unfoldable pub or_type : Coercion → Option Value → Text → Text
or_type co none d = or_text d octet_stream
or_type co (some Value.null) d = or_text d octet_stream
or_type co (some (Value.bool b)) d = if b then co.to_text (Value.bool b) else or_text d octet_stream
or_type co (some (Value.num n)) d =
    if n == 0 then or_text d octet_stream else co.to_text (Value.num n)
or_type co (some (Value.str s)) d = or_text s (or_text d octet_stream)
or_type co (some v) d = co.to_text v

-- `expected && expected.length && !bytesEqual(expected, manifest)`
unfoldable pub differs : Option Bytes → Bytes → Bool
differs none manifest = false
differs (some []) manifest = false
differs (some (b ∷ bs)) manifest = not (bytes_equal (b ∷ bs) manifest)

-- `Number(version) || 1`
abbrev pub or_one : ℕ → ℕ
or_one v = if v == 0 then 1 else v

module _ (a : Aead) where
  open a use {Key, encrypt, decrypt}

  -- `rounds` chunks remain, the first of them chunk `i`.
  unfoldable pub encrypt_loop : ℕ → ℕ → File → Key → Bytes → Output → Result Output
  encrypt_loop zero i file key manifest o = ok o
  encrypt_loop (suc rounds) i file key manifest o = do
    throw_if (file.cancelled i) aborted
    let start = i * chunk_size
    buf ← read_slice start (min (start + chunk_size) file.size) (file.reads i)
    let ct = encrypt key (chunk_nonce i) manifest buf
    encrypt_loop rounds (i + 1) file key manifest (push_chunk ct o)

  unfoldable pub encrypt_file : File → Key → Bytes → Result Blob
  encrypt_file file key manifest = do
    throw_if (length manifest == 0) manifest_required
    let chunks = chunk_count file.size
    head ← write_header manifest version
    o ←
        encrypt_loop chunks 0 file key manifest
          (record { flushed = []; parts = head ∷ []; pending = 0 })
    ok (record { content = close_output o; type = octet_stream })

  -- `decrypt` rejects where the tag does not verify.
  unfoldable pub open_chunk : Key → Bytes → Bytes → Bytes → Result Bytes
  open_chunk key iv aad c = elim (decrypt key iv aad c) [
    | none ↦ err operation_error
    | some p ↦ ok p
  ]

  -- The loop of `decryptChunks` and `decryptLegacy`: chunk `i` and those after it.
  unfoldable pub decrypt_loop : ℕ → ℕ → Bytes → ℕ → Key → Bytes → Bytes → Result Bytes
  decrypt_loop zero i ct offset key aad out = ok out
  decrypt_loop (suc rounds) i ct offset key aad out = do
    let start = offset + i * (chunk_size + tag_size)
    let end = min (start + chunk_size + tag_size) (length ct)
    p ← open_chunk key (chunk_nonce i) aad (take (end - start) (drop start ct))
    decrypt_loop rounds (i + 1) ct offset key aad (out ++ p)

  module _ (u : Utf8) (co : Coercion) where
    unfoldable pub decrypt_chunks : Bytes → ℕ → Key → Bytes → Text → Result Opened
    decrypt_chunks ct offset key manifest type = do
      m ← parse_manifest u co manifest
      throw_if (not (is_length (length ct) offset m)) ciphertext_length
      out ← decrypt_loop m.chunks 0 ct offset key manifest []
      throw_if (not (is_size (length out) m.size)) plain_length
      t ← get_field (codes "type") m.fields
      ok (record {
        blob = record { content = out; type = blob_type (or_type co t type) };
        manifest = some m;
      })

    -- `expected` is the server's copy of the manifest, if there is one.
    unfoldable pub decrypt_file : Bytes → Key → Option Bytes → Text → Result Opened
    decrypt_file ct key expected type = do
      head ← read_header ct
      throw_if (differs expected head.manifest) metadata_mismatch
      decrypt_chunks ct head.body key head.manifest type

    unfoldable pub decrypt_v2 : Bytes → Key → Option Bytes → Result Opened
    decrypt_v2 ct key none = err manifest_required
    decrypt_v2 ct key (some manifest) = do
      throw_if (length manifest == 0) manifest_required
      decrypt_chunks ct 0 key manifest []

  unfoldable pub decrypt_legacy : Bytes → Key → Text → Result Blob
  decrypt_legacy ct key type = do
    out ← decrypt_loop (ceil_div (length ct) (chunk_size + tag_size)) 0 ct 0 key [] []
    ok (record { content = out; type = blob_type (or_text type octet_stream) })

  module _ (u : Utf8) (co : Coercion) where
    unfoldable pub open_file : ℕ → Bytes → Key → Option Bytes → Text → Result Opened
    open_file version ct key manifest type =
        if leb 3 (or_one version)
        then decrypt_file u co ct key manifest type
        else if or_one version == 2
        then decrypt_v2 u co ct key manifest
        else do blob ← decrypt_legacy ct key type; ok (record { blob = blob; manifest = none })
