-- ===== src/Pages/Drops/Create/Opens.antt =====
-- The public link of a new drop opens the drop's key.
use k_quickshare.Base.{
  Bytes, ◌++◌, ◌∷◌, [], some, ◌∙◌, ap₂, ap, sym, refl, ok, ok-injective, >>=-eq-ok, drop, length,
  AreBytes, ◌≡◌,
}
use k_quickshare.E2e.Keys.{derive_drop_share_keys, ShareKeys, OwnerKeys, derive_drop_owner_keys}
use k_quickshare.E2e.Platform.{Kem, Utf8, Kdf, Aead}
use k_quickshare.Pages.Drops.Create.{
  password_params, drop_params, DropKey, drop_version, NewDrop, DropForm, DropDraws, unseal_key,
  with_sealed_key, create_drop,
}
use k_quickshare.Json.{codes, Text}
use k_quickshare.E2e.{seal_nonce}
use k_quickshare.E2e.Blobs.{seal_drop_public_key}
use k_quickshare.Pages.Upload.Options.{Params}
use k_quickshare.E2e.Base64.{b64u_encode}
use k_quickshare.E2e.Blobs.RoundTrip.{open_drop_public_key-seal_drop_public_key}
use k_quickshare.E2e.Base64.RoundTrip.{b64u_decode-b64u_encode}

module _ (a : Aead) (kdf : Kdf) (u : Utf8) where
  open a use {Key}

  unseal_key-sealed :
      (d : DropDraws) (o : OwnerKeys) (share : ShareKeys Key)
      → length d.key_nonce ≡ seal_nonce
      → derive_drop_share_keys a kdf u o.share_secret drop_version ≡ ok share
      → AreBytes o.share_secret
      → AreBytes (seal_drop_public_key a u d.key_nonce share.pk d.public_id o.public_key)
      → unseal_key a kdf u
          (some (length o.public_key))
          d.public_id
          drop_version
          (b64u_encode o.share_secret)
          (b64u_encode (seal_drop_public_key a u d.key_nonce share.pk d.public_id o.public_key))
        ≡ ok (record { token = share.token; public_key = o.public_key })
  unfolding unseal_key
  unseal_key-sealed d o share h shared bytes sealed =
      let blob : Bytes = seal_drop_public_key a u d.key_nonce share.pk d.public_id o.public_key in
      rw
        (
          b64u_decode-b64u_encode o.share_secret bytes,
          shared,
          b64u_decode-b64u_encode blob sealed,
          open_drop_public_key-seal_drop_public_key a u d.key_nonce share.pk d.public_id
              o.public_key h,
        )
        refl

  -- Whoever has the public link of a new drop opens, from the sealed key that the server was sent,
  -- the owner's public key and a token of which the server was sent the SHA-256. The nonce has 12
  -- bytes, and the derived secret and the sealed key are bytes.
  pub drop_link_opens :
      (kem : Kem) (alg : Text) (d : DropDraws) (f : DropForm) (o : OwnerKeys)
      (share : ShareKeys Key) (x : NewDrop)
      → length d.key_nonce ≡ seal_nonce
      → derive_drop_owner_keys a kdf u (some kem) d.secret drop_version ≡ ok o
      → derive_drop_share_keys a kdf u o.share_secret drop_version ≡ ok share
      → AreBytes o.share_secret
      → AreBytes (seal_drop_public_key a u d.key_nonce share.pk d.public_id o.public_key)
      → create_drop a kdf u (some kem) alg d f ≡ ok x
      → (guarded : Params) × (enc_pk : Text) × (k : DropKey) × (x.body
          ≡ (drop_params a kdf u alg f
              ++ (codes "upload_verifier", b64u_encode (kdf.sha256 k.token)) ∷ guarded)
            ++ (codes "public_id", d.public_id) ∷ (codes "enc_pk", enc_pk) ∷ [])
        × (unseal_key a kdf u
              (some (length o.public_key))
              d.public_id
              drop_version
              (drop 1 x.public_fragment)
              enc_pk
            ≡ ok k)
        × (k.public_key ≡ o.public_key)
  unfolding create_drop with_sealed_key
  drop_link_opens kem alg d f o share x h owner shared bytes sealed e =
      let (o', owner', e1) =
        >>=-eq-ok (derive_drop_owner_keys a kdf u (some kem) d.secret drop_version) _ e in
      let (share', shared', e2) =
        >>=-eq-ok (derive_drop_share_keys a kdf u o'.share_secret drop_version) _ e1 in
      let (guarded, g, e3) = >>=-eq-ok (password_params a kdf u f.password d.salt) _ e2 in
      let same : o' ≡ o = ok-injective (sym owner' ∙ owner) in
      let same' : share' ≡ share = ok-injective (
        sym shared'
        ∙ ap (λ z. derive_drop_share_keys a kdf u z.share_secret drop_version) same
        ∙ shared) in
      let blob = seal_drop_public_key a u d.key_nonce share.pk d.public_id o.public_key in
      let body = ap (λ z. z.body) (sym (ok-injective e3)) in
      let fragment = ap (λ z. z.public_fragment) (sym (ok-injective e3)) in
      (
        guarded,
        b64u_encode blob,
        record { token = share.token; public_key = o.public_key },
        body
            ∙ ap₂
                (λ y z.
                  (drop_params a kdf u alg f
                    ++ (codes "upload_verifier", b64u_encode (kdf.sha256 z.token)) ∷ guarded)
                  ++ (codes "public_id", d.public_id)
                    ∷ (
                      codes "enc_pk",
                      b64u_encode
                          (seal_drop_public_key a u d.key_nonce z.pk d.public_id y.public_key),
                    )
                    ∷ [])
                same same',
        ap
              (λ t.
                unseal_key a kdf u (some (length o.public_key)) d.public_id drop_version (drop 1 t)
                  (b64u_encode blob))
              (fragment ∙ ap (λ y. 35 ∷ b64u_encode y.share_secret) same)
            ∙ unseal_key-sealed d o share h shared bytes sealed,
        refl,
      )
