-- ===== src/E2e/Nonce.antt =====
-- `chunkNonce` of web/static/e2e.js: the AES-GCM nonce of a chunk is its index.
use k_quickshare.Base.{
  ℕ, ◌+◌, ◌*◌, ◌/◌, ◌^◌, ◌<◌, ◌≡◌, refl, ap, ◌∙◌, sym, [], ◌∷◌, ◌++◌, length, arith, Bytes,
  AreBytes, be32, zeros, write,
}

unfoldable pub chunk_nonce : ℕ → Bytes
chunk_nonce idx =
    let n = zeros 12 in let n' = write 4 (be32 (idx / 4294967296)) n in write 8 (be32 idx) n'

-- The big-endian number that the bytes spell.
abbrev be_value : ℕ → Bytes → ℕ
be_value acc [] = acc
be_value acc (b ∷ bs) = be_value (acc * 256 + b) bs

-- A nonce is four zero bytes and the index as a big-endian 64-bit number.
pub chunk_nonce_lem :
    (idx : ℕ)
    → (chunk_nonce idx ≡ zeros 4 ++ (be32 (idx / 4294967296) ++ be32 idx))
      × (length (chunk_nonce idx) ≡ 12)
      × AreBytes (chunk_nonce idx)
unfolding chunk_nonce
chunk_nonce_lem idx = (refl, refl, omega arith)

be_value-chunk_nonce : (idx : ℕ) → idx < 2 ^ 64 → be_value 0 (chunk_nonce idx) ≡ idx
unfolding chunk_nonce
be_value-chunk_nonce idx h = omega arith

-- Two chunks of one file never share a nonce, for the indices below 2 ^ 64.
pub chunk_nonce-injective :
    (i j : ℕ) → i < 2 ^ 64 → j < 2 ^ 64 → chunk_nonce i ≡ chunk_nonce j → i ≡ j
chunk_nonce-injective i j hi hj e =
    sym (be_value-chunk_nonce i hi) ∙ ap (be_value 0) e ∙ be_value-chunk_nonce j hj
