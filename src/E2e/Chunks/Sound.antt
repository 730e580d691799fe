-- ===== src/E2e/Chunks/Sound.antt =====
-- Only what sealing yields is opened.
use k_quickshare.E2e.Chunks.{
  blob_type, Opened, or_type, decrypt_loop, decrypt_chunks, decrypt_file, is_length, differs,
}
use k_quickshare.E2e.Chunks.Stream.{seal_stream-open_stream, open_stream, seal_stream}
use k_quickshare.E2e.Chunks.Sealed.{decrypt_loop-opens}
use k_quickshare.E2e.Manifest.{
  size_chunks, parse_manifest, is_size, get_field, chunk_count, Manifest, Size,
}
use k_quickshare.E2e.Header.RoundTrip.{
  read_header_sound, magic_version, write_header-eq, header_bytes,
}
use k_quickshare.E2e.Platform.{Aead, Utf8, Coercion}
use k_quickshare.Json.{Value, codes, Text}
use k_quickshare.Base.{
  metadata_mismatch, take-append-drop, take, ◌>>=◌, length-drop, AreBytes, not-eq-false, not, ap,
  sym, plain_length, ciphertext_length, ok-injective, passed, >>=-eq-ok, drop, ◌++◌, true, ◌∙◌,
  refl, arith, [], some, Option, false, ◌≡◌, ◌*◌, ◌+◌, ℕ, ok, length, Bytes,
}
use k_quickshare.E2e.{tag_size, chunk_size}
use k_quickshare.E2e.Manifest.RoundTrip.{parse_manifest-chunks}
use k_quickshare.E2e.Header.{read_header}
use k_quickshare.E2e.Chunks.RoundTrip.{chunk_count-Fills}

module _ (a : Aead) where
  open a use {Key}

  module _ (u : Utf8) (co : Coercion) where
    -- What `decryptChunks` has established when it returns.
    decrypt_chunks-checks :
        (ct : Bytes) (offset : ℕ) (key : Key) (m : Bytes) (type : Text) (o : Opened)
        → decrypt_chunks a u co ct offset key m type ≡ ok o
        → (f : Manifest) × (parse_manifest u co m ≡ ok f)
          × (o.manifest ≡ some f)
          × (is_length (length ct) offset f ≡ true)
          × (decrypt_loop a f.chunks 0 ct offset key m [] ≡ ok o.blob.content)
    unfolding decrypt_chunks
    decrypt_chunks-checks ct offset key m type o e =
        let (f, parsed, e1) = >>=-eq-ok _ _ e in
        let (len, e2) = passed (not (is_length (length ct) offset f)) ciphertext_length _ e1 in
        let (out, loop, e3) = >>=-eq-ok _ _ e2 in
        let (size, e4) = passed (not (is_size (length out) f.size)) plain_length _ e3 in
        let (t, typed, e5) = >>=-eq-ok (get_field (codes "type") f.fields) _ e4 in
        let same : o ≡ record {
          blob = record { content = out; type = blob_type (or_type co t type) };
          manifest = some f;
        } =
          ok-injective (sym e5) in
        (
          f,
          parsed,
          ap (λ x. x.manifest) same,
          not-eq-false _ len,
          loop ∙ ap (λ x. ok x.blob.content) (sym same),
        )

    body_length :
        (offset n chunks : ℕ) (ct : Bytes) (fields : Value)
        → is_length
            (length ct)
            offset
            (record { fields = fields; size = Size.whole n; chunks = chunks })
          ≡ true
        → length (drop offset ct) ≡ n + chunks * tag_size
    unfolding is_length is_size
    body_length offset n chunks ct fields h = ground (arith, length-drop offset ct)

    -- The stretch of an object that holds its chunks, when it opens.
    opened_body :
        (ct : Bytes) (offset n : ℕ) (key : Key) (m p : Bytes) (f : Manifest)
        → f.size ≡ Size.whole n
        → f.chunks ≡ chunk_count n
        → is_length (length ct) offset f ≡ true
        → decrypt_loop a f.chunks 0 ct offset key m [] ≡ ok p
        → (length p ≡ n) × (seal_stream a chunk_size (chunk_count n) 0 key m p ≡ drop offset ct)
    opened_body ct offset n key m p f size chunks len loop =
        let size_is : is_length (length ct) offset
              (record { fields = f.fields; size = Size.whole n; chunks = chunk_count n })
            ≡ true =
          rw (size, chunks) at len in
        let all : length (drop offset ct) ≡ n + chunk_count n * tag_size =
          body_length offset n (chunk_count n) ct f.fields size_is in
        let at : offset + 0 * (chunk_size + tag_size) ≡ offset = omega arith in
        let opens : (open_stream a chunk_size (chunk_count n) 0 key m (drop offset ct) >>= λ q.
        ok q)
            ≡ ok p =
          rw (chunks, decrypt_loop-opens a (chunk_count n) 0 ct offset key m [], at) at loop in
        let (q, stream, same) = >>=-eq-ok _ _ opens in
        seal_stream-open_stream a chunk_size (chunk_count n) 0 n key m (drop offset ct) p all
          (chunk_count-Fills n) (stream ∙ same)

    counted_whole :
        (f : Manifest) (n : ℕ) → f.size ≡ Size.whole n → size_chunks f.size ≡ chunk_count n
    unfolding size_chunks
    counted_whole f n size = rw size refl

    -- An object of bytes that `decryptFile` accepts is, byte for byte, the header for its manifest
    -- and the sealed chunks of the content that is returned, so it is not cut short, extended or
    -- reordered; the content has the manifest's size, and the manifest is the expected one, if one
    -- is expected. The manifest's size is a whole number.
    pub decrypt_file_sound :
        (ct : Bytes) (key : Key) (expected : Option Bytes) (type : Text) (o : Opened) (f : Manifest)
        (n : ℕ)
        → AreBytes ct
        → decrypt_file a u co ct key expected type ≡ ok o
        → o.manifest ≡ some f
        → f.size ≡ Size.whole n
        → (length o.blob.content ≡ n)
          × ((m : Bytes) × (parse_manifest u co m ≡ ok f)
              × (differs expected m ≡ false)
              × (ct
                  ≡ header_bytes (magic_version ct) m
                    ++ seal_stream a chunk_size (chunk_count n) 0 key m o.blob.content))
    unfolding decrypt_file
    decrypt_file_sound ct key expected type o f n bytes e shown size =
        let (h, read, e1) = >>=-eq-ok (read_header ct) _ e in
        let (same, e2) = passed (differs expected h.manifest) metadata_mismatch _ e1 in
        let (g, parsed, named, len, loop) =
          decrypt_chunks-checks ct h.body key h.manifest type o e2 in
        let is_f : g ≡ f = cc in
        let (wrote, pos, fits, at, inside) = read_header_sound ct h bytes read in
        let head : header_bytes (magic_version ct) h.manifest ≡ take h.body ct =
          ok-injective (sym (write_header-eq h.manifest (magic_version ct) fits) ∙ wrote) in
        let parsed_f : parse_manifest u co h.manifest ≡ ok f = parsed ∙ ap ok is_f in
        let count : f.chunks ≡ chunk_count n =
          parse_manifest-chunks u co h.manifest f parsed_f ∙ counted_whole f n size in
        let (long, stream) =
          opened_body ct h.body n key h.manifest o.blob.content f size count (rw (← is_f) len)
            (rw (← is_f) loop) in
        (long, (h.manifest, parsed_f, same, rw (head, stream) (sym (take-append-drop h.body ct))))
