-- ===== src/E2e/Blobs/Opens.antt =====
-- The frame that all sealed blobs share.
use k_quickshare.E2e.Blobs.{lay_sealed, open_sealed}
use k_quickshare.E2e.Platform.{Aead}
use k_quickshare.Base.{
  arith, false, ◌∙◌, ap, ◌+◌, ℕ, passed, drop-append, take-append, length-replicate, length-take,
  take-append-drop, length-append, drop, write_end, drop-zeros, write, zeros, leb, ◌++◌, some, ◌≡◌,
  ok, Error, take, length, Bytes,
}
use k_quickshare.E2e.{seal_nonce}
use k_quickshare.E2e.Chunks.Stream.{open_chunk-encrypt, open_chunk-decrypt}

pub lay_sealed-eq :
    (nonce sealed : Bytes) → length nonce ≡ seal_nonce → lay_sealed nonce sealed ≡ nonce ++ sealed
unfolding lay_sealed
lay_sealed-eq nonce sealed h =
    let n : ℕ = length sealed in
    let first : write 0 nonce (zeros (seal_nonce + n)) ≡ nonce ++ zeros n =
      rw h (ap (λ z. nonce ++ z) (drop-zeros seal_nonce n)) in
    rw first (write_end seal_nonce sealed nonce (zeros n) h (length-replicate {A = ℕ} n 0))

module _ (a : Aead) where
  open a use {Key, encrypt, decrypt}

  pub open_sealed-encrypt :
      (e : Error) (key : Key) (aad nonce body : Bytes)
      → length nonce ≡ seal_nonce
      → open_sealed a e key aad (some (lay_sealed nonce (encrypt key nonce aad body))) ≡ ok body
  unfolding open_sealed
  open_sealed-encrypt e key aad nonce body h =
      let c : Bytes = encrypt key nonce aad body in
      let long : leb (length (nonce ++ c)) seal_nonce ≡ false =
        ground (arith, length-append nonce c, a.length_encrypt key nonce aad body) in
      rw
        (
          lay_sealed-eq nonce c h,
          long,
          take-append seal_nonce nonce c h,
          drop-append seal_nonce nonce c h,
        )
        (open_chunk-encrypt a 0 key nonce aad body)

  -- What opens is a nonce and the sealing, under it, of the body that is returned.
  pub open_sealed_sound :
      (e : Error) (key : Key) (aad blob body : Bytes)
      → open_sealed a e key aad (some blob) ≡ ok body
      → (length (take seal_nonce blob) ≡ seal_nonce)
        × (lay_sealed (take seal_nonce blob) (encrypt key (take seal_nonce blob) aad body) ≡ blob)
  unfolding open_sealed
  open_sealed_sound e key aad blob body h =
      let (long, opened) = passed (leb (length blob) seal_nonce) e _ h in
      let twelve : length (take seal_nonce blob) ≡ seal_nonce =
        ground (arith, length-take seal_nonce blob) in
      let sealed : encrypt key (take seal_nonce blob) aad body ≡ drop seal_nonce blob =
        a.encrypt_decrypt key (take seal_nonce blob) aad (drop seal_nonce blob) body (
          open_chunk-decrypt a 0 key (take seal_nonce blob) aad (drop seal_nonce blob) body
            opened) in
      (
        twelve,
        rw sealed (
            lay_sealed-eq (take seal_nonce blob) (drop seal_nonce blob) twelve
            ∙ take-append-drop seal_nonce blob),
      )
