-- ===== src/Pages/Upload/Options.antt =====
-- The share settings of the upload page of web/static/app.js: `snapshotOptions`, and the request
-- that `ensureBatch` makes of them.
pub mod Keys
use k_quickshare.Base.{
  ◌>>=◌, ◌++◌, ◌∷◌, [], List, Option, some, none, Bytes, Result, ok, if◌then◌else◌,
}
use k_quickshare.Json.{Text, codes, text_eq}
use k_quickshare.E2e.{version}
use k_quickshare.E2e.Base64.{b64u_encode}
use k_quickshare.E2e.Chunks.{or_text}
use k_quickshare.E2e.Platform.{Aead, Kdf, Utf8}
use k_quickshare.E2e.Keys.{BatchKeys, derive_batch_keys, derive_password_keys}

-- The values of the form's fields; a field that the page does not have is `none`.
pub record OptionForm : Type 0 where
  pub expires : Option Text
  pub expires_at : Option Text
  pub max_downloads : Option Text
  pub password : Option Text

pub record Options : Type 0 where
  pub expires_at : Option Text
  pub expires_hours : Option Text
  pub max_downloads : Text
  pub password : Text

-- `input ? input.value || d : d`
abbrev pub value_or : Option Text → Text → Text
value_or none d = d
value_or (some t) d = or_text t d

-- The time of expiry where the choice is `custom` and one is given. `to_iso` is what the browser
-- makes of a local time: `new Date(t).toISOString()`.
unfoldable pub custom_expiry : (Text → Text) → Text → Option Text → Option Text
custom_expiry to_iso choice (some (c ∷ t)) =
    if text_eq choice (codes "custom") then some (to_iso (c ∷ t)) else none
custom_expiry to_iso choice _ = none

unfoldable pub preset_hours : Text → Option Text
preset_hours choice =
    if text_eq choice (codes "custom") then none else some (or_text choice (codes "0"))

unfoldable pub snapshot_options : (Text → Text) → OptionForm → Options
unfolding custom_expiry preset_hours
snapshot_options to_iso form =
    let choice_at : Option Text = elim form.expires [
      | none ↦ none
      | some choice ↦ custom_expiry to_iso choice form.expires_at
    ] in
    let choice_hours : Option Text = elim form.expires [
      | none ↦ none
      | some choice ↦ preset_hours choice
    ] in
    record {
      expires_at = choice_at;
      expires_hours = choice_hours;
      max_downloads = value_or form.max_downloads (codes "0");
      password = value_or form.password [];
    }

-- The form fields of a request, in their order.
abbrev pub Params : Type 0
Params = List (Text × Text)

unfoldable pub expiry_params : Options → Params
expiry_params o = elim o.expires_at [
  | some (c ∷ t) ↦ (codes "expires_at", c ∷ t) ∷ []
  | _ ↦ elim o.expires_hours [ none ↦ [] | some h ↦ (codes "expires_hours", h) ∷ [] ]
]

-- What a new link is opened with: the request, the fragment of its address and its keys.
pub record Opening (Key : Type 0) : Type 0 where
  pub body : Params
  pub fragment : Text
  pub keys : BatchKeys Key

module _ (a : Aead) (kdf : Kdf) (u : Utf8) where
  open a use {Key}

  -- `salt` and `secret` are what randomBytes draws.
  unfoldable pub open_link : Options → Bytes → Bytes → Result (Opening Key)
  unfolding expiry_params
  open_link o salt secret =
      let terms = expiry_params o ++ (codes "max_downloads", o.max_downloads) ∷ [] in
      elim o.password [
        | [] ↦ do
          keys ← derive_batch_keys a kdf u secret version
          ok (record { body = terms; fragment = 35 ∷ b64u_encode secret; keys = keys })
        | c ∷ t ↦ do
          derived ← derive_password_keys a kdf u (c ∷ t) salt version
          ok (record {
            body =
                terms
                ++ (codes "auth_salt", b64u_encode salt)
                  ∷ (codes "auth_verifier", b64u_encode derived.auth)
                  ∷ [];
            fragment = [];
            keys = record { key = derived.key; roster = derived.roster; name = derived.name };
          })
      ]
