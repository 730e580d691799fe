-- ===== src/E2e/Chunks/Sealed.antt =====
-- `encryptFile` is the chunk stream behind a header, and the loop of `decryptChunks` opens it.
use k_quickshare.E2e.Chunks.{
  octet_stream, open_chunk, Blob, encrypt_file, decrypt_loop, flush_bytes, File, Output, push_chunk,
  close_output, encrypt_loop,
}
use k_quickshare.E2e.Chunks.Stream.{open_stream, seal_stream}
use k_quickshare.E2e.Slice.Retry.{
  read_slice-retries, AreHonest, FailsOver, Succeeds, read_slice-honest,
}
use k_quickshare.Base.{
  manifest_too_large, ltb, err, manifest_required, Result, ◌>>=◌, ◌≤◌, ok-injective, take-min,
  aborted, passed, if◌then◌else◌, arith, append_assoc, append-nil, ◌++◌, ◌∷◌, [], List, false, inr,
  inl, ◌∙◌, ap, sym, refl, ◌≡◌, min, ◌<◌, ◌*◌, ◌-◌, ◌+◌, suc, zero, ℕ, ok, >>=-eq-ok, concat-append,
  drop-drop, concat, drop, take, length, Bytes, Bool-cases, ◌==◌, leb,
}
use k_quickshare.E2e.{version, tag_size, chunk_size}
use k_quickshare.E2e.Platform.{Aead}
use k_quickshare.E2e.Nonce.{chunk_nonce}
use k_quickshare.E2e.Header.RoundTrip.{write_header-eq, header_bytes}
use k_quickshare.E2e.Manifest.{chunk_count}
use k_quickshare.E2e.Header.{write_header}

-- The bytes that have been put out.
abbrev pub put_out : Output → Bytes
put_out o = concat o.flushed ++ concat o.parts

pub close_output-eq : (o : Output) → close_output o ≡ put_out o
unfolding close_output
close_output-eq o = closed o.flushed o.parts
  where
    closed :
        (f p : List Bytes)
        → (if length p == 0 then concat f else concat (f ++ concat p ∷ [])) ≡ concat f ++ concat p
    closed f [] = sym (append-nil (concat f))
    closed f (x ∷ xs) =
        let some_left : (suc (length xs) == 0) ≡ false = ground arith in
        rw some_left (
          concat-append f ((x ++ concat xs) ∷ [])
          ∙ ap (λ t. concat f ++ t) (append-nil (x ++ concat xs)))

concat-snoc : (xss : List Bytes) (x : Bytes) → concat (xss ++ x ∷ []) ≡ concat xss ++ x
concat-snoc xss x = concat-append xss (x ∷ []) ∙ ap (λ t. concat xss ++ t) (append-nil x)

-- Flushing changes how the bytes are kept and not the bytes.
pub push_chunk-put_out : (ct : Bytes) (o : Output) → put_out (push_chunk ct o) ≡ put_out o ++ ct
unfolding push_chunk
push_chunk-put_out ct o = elim (Bool-cases (leb flush_bytes (o.pending + length ct))) [
  | inl e ↦ rw e (
      append-nil (concat (o.flushed ++ concat (o.parts ++ ct ∷ []) ∷ []))
      ∙ concat-snoc o.flushed (concat (o.parts ++ ct ∷ []))
      ∙ put_last)
  | inr e ↦ rw e put_last
]
  where
    put_last : concat o.flushed ++ concat (o.parts ++ ct ∷ []) ≡ put_out o ++ ct
    put_last =
        ap (λ t. concat o.flushed ++ t) (concat-snoc o.parts ct)
        ∙ sym (append_assoc (concat o.flushed) (concat o.parts) ct)

-- Chunk `i` of a content.
abbrev pub piece : ℕ → ℕ → Bytes → Bytes
piece unit i p = take unit (drop (i * unit) p)

-- The file holds the bytes `p`: no read of the right length yields others.
abbrev pub Holds : File → Bytes → Type 0
Holds file p =
    (file.size ≡ length p)
    × ((i : ℕ)
        → AreHonest (min (i * chunk_size + chunk_size) file.size - i * chunk_size)
            (piece chunk_size i p) (file.reads i))

-- The upload is not cancelled, and of each chunk's passes at most three fail before one succeeds.
abbrev pub IsReadable : File → Type 0
IsReadable file =
    (i : ℕ)
    → let want = min (i * chunk_size + chunk_size) file.size - i * chunk_size in
      (file.cancelled i ≡ false)
      × ((k : ℕ) × (k < 4)
          × ((j : ℕ) → j < k → FailsOver want (file.reads i j))
          × ((file.reads i k).cancelled ≡ false)
          × Succeeds want (file.reads i k))

piece-next : (unit i : ℕ) (p : Bytes) → drop unit (drop (i * unit) p) ≡ drop ((i + 1) * unit) p
piece-next unit i p =
    let next : i * unit + unit ≡ (i + 1) * unit = omega arith in
    drop-drop unit (i * unit) p ∙ ap (λ n. drop n p) next

regroup : (x o s t y : Bytes) → x ≡ o ++ s → y ≡ s ++ t → x ++ t ≡ o ++ y
regroup x o s t y ex ey = ap (λ l. l ++ t) ex ∙ append_assoc o s t ∙ ap (λ l. o ++ l) (sym ey)

rejoined :
    (out p : Bytes) (r : Result Bytes)
    → (r >>= λ q. ok ((out ++ p) ++ q)) ≡ ((r >>= λ q. ok (p ++ q)) >>= λ q. ok (out ++ q))
rejoined out p (ok q) = ap ok (append_assoc out p q)
rejoined out p (err e) = refl

module _ (a : Aead) where
  open a use {Key, encrypt}

  seal_stream-next :
      (unit rounds i : ℕ) (key : Key) (aad p : Bytes)
      → seal_stream a unit (suc rounds) i key aad (drop (i * unit) p)
        ≡ encrypt key (chunk_nonce i) aad (piece unit i p)
          ++ seal_stream a unit rounds (i + 1) key aad (drop ((i + 1) * unit) p)
  unfolding seal_stream
  seal_stream-next unit rounds i key aad p = rw (piece-next unit i p) refl

  -- One round that is not refused.
  encrypt_step :
      (rounds i : ℕ) (file : File) (key : Key) (m p : Bytes) (o o' : Output)
      → Holds file p
      → encrypt_loop a (suc rounds) i file key m o ≡ ok o'
      → encrypt_loop a rounds
          (i + 1)
          file
          key
          m
          (push_chunk (encrypt key (chunk_nonce i) m (piece chunk_size i p)) o)
        ≡ ok o'
  unfolding encrypt_loop
  encrypt_step rounds i file key m p o o' (size, honest) e =
      let (live, e1) = passed (file.cancelled i) aborted _ e in
      let (buf, got, e2) = >>=-eq-ok _ _ e1 in
      let same : buf ≡ piece chunk_size i p =
        read_slice-honest _ _ (file.reads i) (piece chunk_size i p) buf (honest i) got in
      rw (← same) e2

  encrypt_loop-seals :
      (rounds i : ℕ) (file : File) (key : Key) (m p : Bytes) (o o' : Output)
      → Holds file p
      → encrypt_loop a rounds i file key m o ≡ ok o'
      → put_out o' ≡ put_out o ++ seal_stream a chunk_size rounds i key m (drop (i * chunk_size) p)
  unfolding encrypt_loop seal_stream
  encrypt_loop-seals zero i file key m p o o' h e =
      ap put_out (ok-injective (sym e)) ∙ sym (append-nil (put_out o))
  encrypt_loop-seals (suc rounds) i file key m p o o' h e =
      let s : Bytes = encrypt key (chunk_nonce i) m (piece chunk_size i p) in
      encrypt_loop-seals rounds (i + 1) file key m p (push_chunk s o) o' h
        (encrypt_step rounds i file key m p o o' h e)
      ∙ regroup (put_out (push_chunk s o)) (put_out o) s
          (seal_stream a chunk_size rounds (i + 1) key m (drop ((i + 1) * chunk_size) p)) _
          (push_chunk-put_out s o) (seal_stream-next chunk_size rounds i key m p)

  encrypt_loop-returns :
      (rounds i : ℕ) (file : File) (key : Key) (m : Bytes) (o : Output)
      → IsReadable file
      → (o' : Output) × (encrypt_loop a rounds i file key m o ≡ ok o')
  unfolding encrypt_loop
  encrypt_loop-returns zero i file key m o h = (o, refl)
  encrypt_loop-returns (suc rounds) i file key m o h =
      let (live, (k, few, fails, live_k, good)) = h i in
      let (buf, e) = read_slice-retries k _ _ (file.reads i) few fails live_k good in
      let (o', rest) =
        encrypt_loop-returns rounds (i + 1) file key m
          (push_chunk (encrypt key (chunk_nonce i) m buf) o) h in
      (o', rw (live, e) rest)

  -- The container of a content: the header and the sealed chunks.
  abbrev pub container : Key → Bytes → Bytes → Bytes
  container key m p =
      header_bytes version m ++ seal_stream a chunk_size (chunk_count (length p)) 0 key m p

  abbrev opened : Bytes → Output
  opened m = record { flushed = []; parts = header_bytes version m ∷ []; pending = 0 }

  -- A manifest that is sealed is not empty and fits the header.
  pub encrypt_file-manifest :
      (file : File) (key : Key) (m : Bytes) (b : Blob)
      → encrypt_file a file key m ≡ ok b
      → (0 < length m) × (length m ≤ 0xffff)
  unfolding encrypt_file write_header
  encrypt_file-manifest file key m b e =
      let (some_bytes, e1) = passed (length m == 0) manifest_required _ e in
      let (head, written, e2) = >>=-eq-ok _ _ e1 in
      let (small, e3) = passed (ltb 0xffff (length m)) manifest_too_large _ written in
      (ground arith, ground arith)

  -- Whatever `encryptFile` returns for a file that holds `p` is the container of `p`.
  pub encrypt_file-seals :
      (file : File) (key : Key) (m p : Bytes) (b : Blob)
      → Holds file p
      → length m ≤ 0xffff
      → encrypt_file a file key m ≡ ok b
      → b.content ≡ container key m p
  unfolding encrypt_file
  encrypt_file-seals file key m p b h k e =
      let (some_bytes, e1) = passed (length m == 0) manifest_required _ e in
      let e2 : (encrypt_loop a (chunk_count file.size) 0 file key m (opened m) >>= λ o.
      ok (record { content = close_output o; type = octet_stream }))
          ≡ ok b =
        rw (write_header-eq m version k) at e1 in
      let (o, loop, fin) = >>=-eq-ok _ _ e2 in
      ap (λ r. r.content) (ok-injective (sym fin))
      ∙ close_output-eq o
      ∙ encrypt_loop-seals (chunk_count file.size) 0 file key m p (opened m) o h loop
      ∙ regroup (put_out (opened m)) (header_bytes version m) [] _ _ refl refl
      ∙ ap (λ n. header_bytes version m ++ seal_stream a chunk_size (chunk_count n) 0 key m p) h.0

  -- `encryptFile` returns, and what it returns is the header and the sealed chunks of the file's
  -- content, if the upload is not cancelled and of the four passes over each chunk one succeeds
  -- after passes that fail. The manifest is not empty and has at most 65,535 bytes, and no read of
  -- the right length yields other bytes than the file's.
  pub encrypt_file-returns :
      (file : File) (key : Key) (m p : Bytes)
      → Holds file p
      → IsReadable file
      → 0 < length m
      → length m ≤ 0xffff
      → (b : Blob) × (encrypt_file a file key m ≡ ok b) × (b.content ≡ container key m p)
  unfolding encrypt_file
  encrypt_file-returns file key m p h r pos k =
      let some_bytes : (length m == 0) ≡ false = ground arith in
      let (o, loop) = encrypt_loop-returns (chunk_count file.size) 0 file key m (opened m) r in
      let b : Blob = record { content = close_output o; type = octet_stream } in
      let done : encrypt_file a file key m ≡ ok b =
        rw (some_bytes, write_header-eq m version k, loop) refl in
      (b, done, encrypt_file-seals file key m p b h k done)

  window :
      (unit s : ℕ) (ct : Bytes)
      → take (min (s + unit + tag_size) (length ct) - s) (drop s ct)
        ≡ take (unit + tag_size) (drop s ct)
  window unit s ct =
      let same : s + unit + tag_size ≡ s + (unit + tag_size) = omega arith in
      rw same (take-min s (unit + tag_size) ct)

  -- The loop that opens is the opening of the chunk stream from there on.
  pub decrypt_loop-opens :
      (rounds i : ℕ) (ct : Bytes) (offset : ℕ) (key : Key) (aad out : Bytes)
      → decrypt_loop a rounds i ct offset key aad out ≡ (
          open_stream a chunk_size rounds i key aad (drop (offset + i * (chunk_size + tag_size)) ct)
          >>= λ p. ok (out ++ p))
  unfolding decrypt_loop open_stream
  decrypt_loop-opens zero i ct offset key aad out = ap ok (sym (append-nil out))
  decrypt_loop-opens (suc rounds) i ct offset key aad out =
      let start : ℕ = offset + i * (chunk_size + tag_size) in
      let next : start + (chunk_size + tag_size) ≡ offset + (i + 1) * (chunk_size + tag_size) =
        omega arith in
      rw (window chunk_size start ct, drop-drop (chunk_size + tag_size) start ct, next)
        (opens_then (λ o. decrypt_loop-opens rounds (i + 1) ct offset key aad o)
          (open_chunk a key (chunk_nonce i) aad (take (chunk_size + tag_size) (drop start ct))))
    where
      opens_then :
          ((o : Bytes)
            → decrypt_loop a rounds (i + 1) ct offset key aad o ≡ (
                open_stream a chunk_size rounds
                  (i + 1)
                  key
                  aad
                  (drop (offset + (i + 1) * (chunk_size + tag_size)) ct)
                >>= λ p. ok (o ++ p)))
          → (r : Result Bytes)
          → (r >>= λ p. decrypt_loop a rounds (i + 1) ct offset key aad (out ++ p)) ≡ (
              (r >>= λ p.
              open_stream a chunk_size rounds
                (i + 1)
                key
                aad
                (drop (offset + (i + 1) * (chunk_size + tag_size)) ct)
              >>= λ rest. ok (p ++ rest))
              >>= λ p. ok (out ++ p))
      opens_then ih (err x) = refl
      opens_then ih (ok p) = ih (out ++ p) ∙ rejoined out p _
