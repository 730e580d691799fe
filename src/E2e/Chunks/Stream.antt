-- ===== src/E2e/Chunks/Stream.antt =====
-- The chunk stream without indices: what sealing and opening a content mean, and that the one
-- undoes the other. `unit` stands for CHUNK.
use k_quickshare.Base.{
  sym, ◌-◌, ok-injective, >>=-eq-ok, length-append, ◌>>=◌, arith, append-nil, ◌++◌, ◌∷◌, [], some,
  inr, inl, ◌⊎◌, ◌∙◌, ap, refl, ◌≡◌, min, ◌≤◌, ◌*◌, ◌+◌, suc, zero, ℕ, ok, Result, drop-all,
  take-all, drop-append, take-append, length-drop, length-take, take-append-drop, drop, take,
  length, Bytes,
}
use k_quickshare.E2e.Platform.{Aead}
use k_quickshare.E2e.{tag_size}
use k_quickshare.E2e.Nonce.{chunk_nonce}
use k_quickshare.E2e.Chunks.{open_chunk}

-- `rounds` pieces of size `unit` hold `n` bytes, and one piece fewer does not hold more than `n`.
abbrev pub Fills : ℕ → ℕ → ℕ → Type 0
Fills unit rounds n = (n ≤ rounds * unit) × (rounds * unit ≤ n + unit)

-- A first piece that is whole, or the only one, is found again in front of the others.
split_first :
    (n : ℕ) (s t : Bytes)
    → (length s ≡ n) ⊎ ((t ≡ []) × (length s ≤ n))
    → (take n (s ++ t) ≡ s) × (drop n (s ++ t) ≡ t)
split_first n s t (inl h) = (take-append n s t h, drop-append n s t h)
split_first n s t (inr (e, h)) = rw (e, append-nil s) (take-all n s h, drop-all n s h)

module _ (a : Aead) (unit : ℕ) where
  open a use {Key, encrypt, decrypt, decrypt_encrypt, encrypt_decrypt, length_encrypt}

  -- `rounds` chunks of the content, the first of them chunk `i`.
  unfoldable pub seal_stream : ℕ → ℕ → Key → Bytes → Bytes → Bytes
  seal_stream zero i key aad p = []
  seal_stream (suc rounds) i key aad p =
      encrypt key (chunk_nonce i) aad (take unit p)
      ++ seal_stream rounds (i + 1) key aad (drop unit p)

  unfoldable pub open_stream : ℕ → ℕ → Key → Bytes → Bytes → Result Bytes
  open_stream zero i key aad c = ok []
  open_stream (suc rounds) i key aad c = do
    p ← open_chunk a key (chunk_nonce i) aad (take (unit + tag_size) c)
    rest ← open_stream rounds (i + 1) key aad (drop (unit + tag_size) c)
    ok (p ++ rest)

  pub open_chunk-encrypt :
      (key : Key) (iv aad p : Bytes) → open_chunk a key iv aad (encrypt key iv aad p) ≡ ok p
  unfolding open_chunk
  open_chunk-encrypt key iv aad p = rw (decrypt_encrypt key iv aad p, open_chunk)

  pub open_chunk-decrypt :
      (key : Key) (iv aad c p : Bytes)
      → open_chunk a key iv aad c ≡ ok p
      → decrypt key iv aad c ≡ some p
  unfolding open_chunk
  open_chunk-decrypt key iv aad c p e = ground arith

  length-first :
      (key : Key) (iv aad p : Bytes)
      → length (encrypt key iv aad (take unit p)) ≡ min unit (length p) + tag_size
  length-first key iv aad p =
      length_encrypt key iv aad (take unit p) ∙ ap (λ n. n + 16) (length-take unit p)

  -- The first sealed chunk is whole or alone.
  first_sealed :
      (rounds i : ℕ) (key : Key) (aad p : Bytes)
      → Fills unit (suc rounds) (length p)
      → let s = encrypt key (chunk_nonce i) aad (take unit p) in
        let t = seal_stream rounds (i + 1) key aad (drop unit p) in
        (length s ≡ unit + tag_size) ⊎ ((t ≡ []) × (length s ≤ unit + tag_size))
  first_sealed zero i key aad p h =
      inr (unfold seal_stream in refl, omega (arith, length-first key (chunk_nonce i) aad p))
  first_sealed (suc rounds) i key aad p h =
      inl (omega (arith, length-first key (chunk_nonce i) aad p))

  rest_Fills :
      (rounds : ℕ) (p : Bytes)
      → Fills unit (suc rounds) (length p)
      → Fills unit rounds (length (drop unit p))
  rest_Fills rounds p h = (omega (arith, length-drop unit p), omega (arith, length-drop unit p))

  open_step :
      (rounds i : ℕ) (key : Key) (aad s t p q : Bytes)
      → (take (unit + tag_size) (s ++ t) ≡ s) × (drop (unit + tag_size) (s ++ t) ≡ t)
      → open_chunk a key (chunk_nonce i) aad s ≡ ok p
      → open_stream rounds (i + 1) key aad t ≡ ok q
      → open_stream (suc rounds) i key aad (s ++ t) ≡ ok (p ++ q)
  unfolding open_stream
  open_step rounds i key aad s t p q (front, back) one rest = rw (front, back, one, rest)

  -- Opening a sealed content returns it.
  pub open_stream-seal_stream :
      (rounds i : ℕ) (key : Key) (aad p : Bytes)
      → Fills unit rounds (length p)
      → open_stream rounds i key aad (seal_stream rounds i key aad p) ≡ ok p
  open_stream-seal_stream zero i key aad [] h = unfold open_stream seal_stream in refl
  open_stream-seal_stream zero i key aad (x ∷ p) h = absurd (omega arith)
  open_stream-seal_stream (suc rounds) i key aad p h =
      let rest =
        open_stream-seal_stream rounds (i + 1) key aad (drop unit p) (rest_Fills rounds p h) in
      opened rest
    where
      opened :
          open_stream rounds (i + 1) key aad (seal_stream rounds (i + 1) key aad (drop unit p))
            ≡ ok (drop unit p)
          → open_stream (suc rounds) i key aad (seal_stream (suc rounds) i key aad p) ≡ ok p
      opened rest =
          let step : open_stream (suc rounds) i key aad (seal_stream (suc rounds) i key aad p)
              ≡ ok (take unit p ++ drop unit p) =
            unfold seal_stream in
            open_step rounds i key aad _ _ (take unit p) (drop unit p)
              (split_first (unit + tag_size) _ _ (first_sealed rounds i key aad p h))
              (open_chunk-encrypt key (chunk_nonce i) aad (take unit p)) rest in
          step ∙ ap ok (take-append-drop unit p)

  pub length-seal_stream :
      (rounds i : ℕ) (key : Key) (aad p : Bytes)
      → Fills unit rounds (length p)
      → length (seal_stream rounds i key aad p) ≡ length p + rounds * tag_size
  unfolding seal_stream
  length-seal_stream zero i key aad [] h = refl
  length-seal_stream zero i key aad (x ∷ p) h = absurd (omega arith)
  length-seal_stream (suc rounds) i key aad p h = omega (
    arith,
    length-append (encrypt key (chunk_nonce i) aad (take unit p))
        (seal_stream rounds (i + 1) key aad (drop unit p)),
    length-first key (chunk_nonce i) aad p,
    length-drop unit p,
    length-seal_stream rounds (i + 1) key aad (drop unit p) (rest_Fills rounds p h),
  )

  -- The pieces of an opened stream.
  open_split :
      (rounds i : ℕ) (key : Key) (aad c p : Bytes)
      → open_stream (suc rounds) i key aad c ≡ ok p
      → (q r : Bytes) × (decrypt key (chunk_nonce i) aad (take (unit + tag_size) c) ≡ some q)
        × (open_stream rounds (i + 1) key aad (drop (unit + tag_size) c) ≡ ok r)
        × (p ≡ q ++ r)
  unfolding open_stream
  open_split rounds i key aad c p e =
      let (q, first, e1) = >>=-eq-ok _ _ e in
      let (r, rest, e2) = >>=-eq-ok _ _ e1 in
      (q, r, open_chunk-decrypt key (chunk_nonce i) aad _ q first, rest, ok-injective (sym e2))

  -- How a ciphertext of the length of `n` sealed bytes falls into its first chunk and the rest.
  first_piece :
      (rounds n len : ℕ)
      → len ≡ n + suc rounds * tag_size
      → Fills unit (suc rounds) n
      → (min (unit + tag_size) len ≡ min unit n + tag_size)
        × (len - (unit + tag_size) ≡ n - unit + rounds * tag_size)
        × ((unit ≤ n) ⊎ (n - unit ≡ 0))
  first_piece zero n len h f = (omega arith, omega arith, omega arith)
  first_piece (suc rounds) n len h f = (omega arith, omega arith, omega arith)

  nil_of : (r : Bytes) → length r ≡ 0 → r ≡ []
  nil_of [] h = refl
  nil_of (x ∷ r) h = absurd (omega arith)

  joined :
      (n : ℕ) (q r : Bytes)
      → length q ≡ min unit n
      → length r ≡ n - unit
      → (unit ≤ n) ⊎ (n - unit ≡ 0)
      → (take unit (q ++ r) ≡ q) × (drop unit (q ++ r) ≡ r)
  joined n q r hq hr (inl h) = split_first unit q r (inl (omega arith))
  joined n q r hq hr (inr h) = split_first unit q r (inr (nil_of r (omega arith), omega arith))

  whole :
      (rounds i n : ℕ) (key : Key) (aad c p q r : Bytes)
      → encrypt key (chunk_nonce i) aad q ≡ take (unit + tag_size) c
      → length r ≡ n - unit
      → seal_stream rounds (i + 1) key aad r ≡ drop (unit + tag_size) c
      → p ≡ q ++ r
      → min (unit + tag_size) (length c) ≡ min unit n + tag_size
      → (unit ≤ n) ⊎ (n - unit ≡ 0)
      → (length p ≡ n) × (seal_stream (suc rounds) i key aad p ≡ c)
  unfolding seal_stream
  whole rounds i n key aad c p q r sealed size again shape front which =
      let hq : length q ≡ min unit n = omega (
        arith,
        length_encrypt key (chunk_nonce i) aad q,
        ap length sealed,
        length-take (unit + tag_size) c,
      ) in
      let (one, others) = joined n q r hq size which in
      rw shape (
        omega (arith, length-append q r),
        rw (one, others, sealed, again) (take-append-drop (unit + tag_size) c),
      )

  -- A ciphertext of the length of `n` sealed bytes that opens is what sealing the result yields.
  pub seal_stream-open_stream :
      (rounds i n : ℕ) (key : Key) (aad c p : Bytes)
      → length c ≡ n + rounds * tag_size
      → Fills unit rounds n
      → open_stream rounds i key aad c ≡ ok p
      → (length p ≡ n) × (seal_stream rounds i key aad p ≡ c)
  seal_stream-open_stream zero i n key aad [] p h f e =
      unfold seal_stream open_stream in ground arith
  seal_stream-open_stream zero i n key aad (x ∷ c) p h f e = absurd (omega arith)
  seal_stream-open_stream (suc rounds) i n key aad c p h f e =
      let (q, r, first, rest, shape) = open_split rounds i key aad c p e in
      let (front, back, which) = first_piece rounds n (length c) h f in
      let (size, again) =
        seal_stream-open_stream rounds (i + 1) (n - unit) key aad (drop (unit + tag_size) c) r
          (length-drop (unit + tag_size) c ∙ back) (omega arith, omega arith) rest in
      let sealed : encrypt key (chunk_nonce i) aad q ≡ take (unit + tag_size) c =
        encrypt_decrypt key (chunk_nonce i) aad (take (unit + tag_size) c) q first in
      whole rounds i n key aad c p q r sealed size again shape front which
