-- ===== src/Pages/Upload/Options/Keys.antt =====
-- The keys of a new link, and where their secret goes.
use k_quickshare.E2e.Base64.{b64u_decode}
use k_quickshare.Base.{
  some, none, Option, if◌then◌else◌, ◌>>=◌, ◌++◌, ◌∷◌, [], refl, ℕ, drop, take, AreBytes, Bytes,
  ◌≡◌, ok,
}
use k_quickshare.E2e.Platform.{Utf8, Kdf, Aead}
use k_quickshare.Pages.Upload.Options.{Params, expiry_params, Opening, Options, open_link}
use k_quickshare.Json.{text_eq, codes, Text}
use k_quickshare.E2e.Keys.{derive_batch_keys, derive_password_keys, PasswordKeys}
use k_quickshare.E2e.{version}
use k_quickshare.E2e.Base64.{b64u_encode}
use k_quickshare.E2e.Keys.Agree.{derive_batch_keys-total, derive_password_keys-total}
use k_quickshare.E2e.Base64.RoundTrip.{b64u_decode-b64u_encode}

-- The value of a field in a request.
abbrev pub find_param : Text → Params → Option Text
find_param k [] = none
find_param k ((j, v) ∷ ps) = if text_eq k j then some v else find_param k ps

terms_aside :
    (o : Options) (ps : Params)
    → let body = (expiry_params o ++ (codes "max_downloads", o.max_downloads) ∷ []) ++ ps in
      (find_param (codes "auth_salt") body ≡ find_param (codes "auth_salt") ps)
      × (find_param (codes "auth_verifier") body ≡ find_param (codes "auth_verifier") ps)
unfolding expiry_params
terms_aside o ps = go o.expires_at o.expires_hours
  where
    go :
        (at hours : Option Text)
        → let terms = elim at as (λ _. Params) [
          | some (c ∷ t) ↦ (codes "expires_at", c ∷ t) ∷ []
          | _ ↦ elim hours as (λ _. Params) [ none ↦ [] | some h ↦ (codes "expires_hours", h) ∷ [] ]
        ] in
          let body = (terms ++ (codes "max_downloads", o.max_downloads) ∷ []) ++ ps in
          (find_param (codes "auth_salt") body ≡ find_param (codes "auth_salt") ps)
          × (find_param (codes "auth_verifier") body ≡ find_param (codes "auth_verifier") ps)
    go (some (c ∷ t)) hours = (refl, refl)
    go (some []) none = (refl, refl)
    go (some []) (some h) = (refl, refl)
    go none none = (refl, refl)
    go none (some h) = (refl, refl)

module _ (a : Aead) (kdf : Kdf) (u : Utf8) where
  open a use {Key}

  -- Without a password a link is always opened: its fragment is the secret in base64url, from which
  -- deriveBatchKeys derives the link's keys again, and the request to the server is the same for
  -- every other secret. The secret is bytes.
  pub open_link-secret :
      (o : Options) (salt secret other : Bytes)
      → o.password ≡ []
      → AreBytes secret
      → (x : Opening Key) × (y : Opening Key) × (open_link a kdf u o salt secret ≡ ok x)
        × (open_link a kdf u o salt other ≡ ok y)
        × (x.body ≡ y.body)
        × (take 1 x.fragment ≡ codes "#")
        × ((do s ← b64u_decode (drop 1 x.fragment); derive_batch_keys a kdf u s version)
            ≡ ok x.keys)
  unfolding open_link
  open_link-secret o salt secret other h bytes =
      let (k, e, e') = derive_batch_keys-total a kdf u secret version version in
      let (k', f, f') = derive_batch_keys-total a kdf u other version version in
      let terms = expiry_params o ++ (codes "max_downloads", o.max_downloads) ∷ [] in
      (
        record { body = terms; fragment = 35 ∷ b64u_encode secret; keys = k },
        record { body = terms; fragment = 35 ∷ b64u_encode other; keys = k' },
        rw (h, e) refl,
        rw (h, f) refl,
        refl,
        refl,
        rw (b64u_decode-b64u_encode secret bytes) e,
      )

  -- A link with a password is always opened, the same for whatever secret was drawn, and without a
  -- fragment. A recipient who knows the password and reads the salt from the request's fields
  -- derives the link's keys, and a proof that in base64url is the verifier of the request. The salt
  -- is bytes.
  pub open_link-password :
      (o : Options) (c : ℕ) (password : Text) (salt secret other : Bytes)
      → o.password ≡ c ∷ password
      → AreBytes salt
      → (x : Opening Key) × (open_link a kdf u o salt secret ≡ ok x)
        × (open_link a kdf u o salt other ≡ ok x)
        × (x.fragment ≡ [])
        × ((text : Text) × (k : PasswordKeys Key) × (find_param (codes "auth_salt") x.body
              ≡ some text)
            × ((do s ← b64u_decode text; derive_password_keys a kdf u (c ∷ password) s version)
                ≡ ok k)
            × (find_param (codes "auth_verifier") x.body ≡ some (b64u_encode k.auth))
            × (x.keys ≡ record { key = k.key; roster = k.roster; name = k.name }))
  unfolding open_link
  open_link-password o c password salt secret other h bytes =
      let (k, e, e', proof) =
        derive_password_keys-total a kdf u (c ∷ password) salt version version in
      let guard : Params =
        (codes "auth_salt", b64u_encode salt) ∷ (codes "auth_verifier", b64u_encode k.auth) ∷ [] in
      let made : Opening Key = record {
        body = (expiry_params o ++ (codes "max_downloads", o.max_downloads) ∷ []) ++ guard;
        fragment = [];
        keys = record { key = k.key; roster = k.roster; name = k.name };
      } in
      let (salted, verified) = terms_aside o guard in
      (
        made,
        rw (h, e) refl,
        rw (h, e) refl,
        refl,
        (b64u_encode salt, k, salted, rw (b64u_decode-b64u_encode salt bytes) e, verified, refl),
      )
