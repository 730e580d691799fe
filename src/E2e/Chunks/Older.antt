-- ===== src/E2e/Chunks/Older.antt =====
-- Objects of the versions 1 and 2, as `openFile` reads them.
use k_quickshare.E2e.Chunks.{
  blob_type, or_type, decrypt_chunks, decrypt_v2, or_one, is_length, decrypt_loop, decrypt_legacy,
  open_file, or_text, octet_stream,
}
use k_quickshare.E2e.Chunks.Stream.{seal_stream, open_stream-seal_stream, length-seal_stream}
use k_quickshare.E2e.Chunks.Sealed.{decrypt_loop-opens}
use k_quickshare.E2e.Chunks.RoundTrip.{chunk_count-Fills}
use k_quickshare.E2e.Manifest.{
  get_field, parse_manifest, Size, Manifest, size_chunks, is_size, chunk_count,
}
use k_quickshare.E2e.Platform.{Aead, Utf8, Coercion}
use k_quickshare.Json.{codes, Value, Text}
use k_quickshare.Base.{
  sym, ◌∷◌, some, false, true, suc, ==_self, ◌==◌, leb, arith, [], none, Option, ◌∙◌, ap, refl, ◌≡◌,
  ◌<◌, ◌≤◌, ◌*◌, ◌+◌, ℕ, ok, length, Bytes, ceil_div,
}
use k_quickshare.E2e.{tag_size, chunk_size}
use k_quickshare.E2e.Manifest.RoundTrip.{parse_manifest-chunks}

-- The chunk count that is inferred from a ciphertext without a manifest.
inferred :
    (n len : ℕ)
    → 0 < n
    → len ≡ n + chunk_count n * tag_size
    → ceil_div len (chunk_size + tag_size) ≡ chunk_count n
unfolding chunk_count
inferred n len pos h = omega arith

whole_chunks : (f : Manifest) (n : ℕ) → f.size ≡ Size.whole n → size_chunks f.size ≡ chunk_count n
unfolding size_chunks
whole_chunks f n size = rw size refl

right_size : (f : Manifest) (n : ℕ) → f.size ≡ Size.whole n → is_size n f.size ≡ true
unfolding is_size
right_size f n size = rw size (==_self n)

separate_length :
    (len n : ℕ) (f : Manifest)
    → f.size ≡ Size.whole n
    → len ≡ n + f.chunks * tag_size
    → is_length len 0 f ≡ true
unfolding is_length is_size
separate_length len n f size h = rw size (ground arith)

module _ (a : Aead) where
  open a use {Key}

  opens_stream :
      (key : Key) (aad p : Bytes)
      → decrypt_loop a
          (chunk_count (length p))
          0
          (seal_stream a chunk_size (chunk_count (length p)) 0 key aad p)
          0
          key
          aad
          []
        ≡ ok p
  opens_stream key aad p =
      let s : Bytes = seal_stream a chunk_size (chunk_count (length p)) 0 key aad p in
      let at : 0 + 0 * (chunk_size + tag_size) ≡ 0 = omega arith in
      decrypt_loop-opens a (chunk_count (length p)) 0 s 0 key aad []
      ∙ rw
          (
            at,
            open_stream-seal_stream a chunk_size (chunk_count (length p)) 0 key aad p
                (chunk_count-Fills (length p)),
          )
          refl

  legacy_blob :
      (s : Bytes) (key : Key) (type : Text) (p : Bytes)
      → decrypt_loop a (ceil_div (length s) (chunk_size + tag_size)) 0 s 0 key [] [] ≡ ok p
      → decrypt_legacy a s key type
        ≡ ok (record { content = p; type = blob_type (or_text type octet_stream) })
  unfolding decrypt_legacy
  legacy_blob s key type p opened = rw (decrypt_legacy, opened) refl

  -- An object of version 1, which is the chunks of a content sealed with no additional data, is
  -- opened to its content, with no manifest, whether the version is given as 1 or not at all. The
  -- content is not empty.
  pub open_file-legacy :
      (u : Utf8) (co : Coercion) (v : ℕ) (key : Key) (manifest : Option Bytes) (type : Text)
      (p : Bytes)
      → v ≤ 1
      → 0 < length p
      → open_file a u co v
          (seal_stream a chunk_size (chunk_count (length p)) 0 key [] p)
          key
          manifest
          type
        ≡ ok (record {
          blob = record { content = p; type = blob_type (or_text type octet_stream) };
          manifest = none;
        })
  unfolding open_file
  open_file-legacy u co v key manifest type p old pos =
      let n : ℕ = length p in
      let s : Bytes = seal_stream a chunk_size (chunk_count n) 0 key [] p in
      let count : ceil_div (length s) (chunk_size + tag_size) ≡ chunk_count n =
        inferred n (length s) pos
          (length-seal_stream a chunk_size (chunk_count n) 0 key [] p (chunk_count-Fills n)) in
      let opened : decrypt_loop a (ceil_div (length s) (chunk_size + tag_size)) 0 s 0 key [] []
          ≡ ok p =
        ap (λ r. decrypt_loop a r 0 s 0 key [] []) count ∙ opens_stream key [] p in
      let not_three : leb 3 (or_one v) ≡ false = ground arith in
      let not_two : (or_one v == 2) ≡ false = ground arith in
      rw (open_file, not_three, not_two, legacy_blob s key type p opened) refl

  -- An object of version 2, which is the chunks of a content sealed against a manifest that comes
  -- apart from it, is opened to its content. The manifest is not empty, is read, and has the
  -- content's size; its type is used where it states one.
  pub open_file-separate :
      (u : Utf8) (co : Coercion) (key : Key) (b : ℕ) (bs : Bytes) (type : Text) (p : Bytes)
      (f : Manifest) (t : Option Value)
      → parse_manifest u co (b ∷ bs) ≡ ok f
      → f.size ≡ Size.whole (length p)
      → get_field (codes "type") f.fields ≡ ok t
      → open_file a u co 2
          (seal_stream a chunk_size (chunk_count (length p)) 0 key (b ∷ bs) p)
          key
          (some (b ∷ bs))
          type
        ≡ ok (record {
          blob = record { content = p; type = blob_type (or_type co t []) };
          manifest = some f;
        })
  unfolding open_file decrypt_v2 decrypt_chunks
  open_file-separate u co key b bs type p f t parsed size typed =
      let n : ℕ = length p in
      let s : Bytes = seal_stream a chunk_size (chunk_count n) 0 key (b ∷ bs) p in
      let count : f.chunks ≡ chunk_count n =
        parse_manifest-chunks u co (b ∷ bs) f parsed ∙ whole_chunks f n size in
      let long : length s ≡ n + chunk_count n * tag_size =
        length-seal_stream a chunk_size (chunk_count n) 0 key (b ∷ bs) p (chunk_count-Fills n) in
      let fits : is_length (length s) 0 f ≡ true =
        separate_length (length s) n f size (long ∙ ap (λ r. n + r * tag_size) (sym count)) in
      let opened : decrypt_loop a f.chunks 0 s 0 key (b ∷ bs) [] ≡ ok p =
        ap (λ r. decrypt_loop a r 0 s 0 key (b ∷ bs) []) count ∙ opens_stream key (b ∷ bs) p in
      let plain : is_size n f.size ≡ true = right_size f n size in
      let some_bytes : (suc (length bs) == 0) ≡ false = ground arith in
      rw (some_bytes, parsed, fits, opened, plain, typed) refl
