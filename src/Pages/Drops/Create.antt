-- ===== src/Pages/Drops/Create.antt =====
-- Creating a drop, in web/static/app.js: what the form becomes, what the server is sent and what
-- goes into the fragments of the two links; and `unsealKey` of the page that the public link opens.
pub mod Opens
use k_quickshare.Base.{
  ◌>>=◌, ◌>>◌, ◌++◌, ◌∷◌, [], Option, some, none, Bool, ◌&&◌, ℕ, ◌+◌, ◌*◌, ◌-◌, Bytes, Result, ok,
  if◌then◌else◌, ◌==◌, leb, ltb,
}
use k_quickshare.Json.{Text, codes}
use k_quickshare.Json.Write.{decimal}
use k_quickshare.E2e.{version}
use k_quickshare.E2e.Base64.{b64u_encode, b64u_decode}
use k_quickshare.E2e.Blobs.{seal_drop_public_key, open_drop_public_key}
use k_quickshare.E2e.Keys.{
  OwnerKeys, ShareKeys, derive_drop_owner_keys, derive_drop_share_keys, derive_password_keys,
}
use k_quickshare.E2e.Platform.{Aead, Kdf, Kem, Utf8}
use k_quickshare.Pages.Upload.Options.{Params}
use k_quickshare.Pages.Upload.Rows.{trim_start, trim_end}

-- The values of the form's fields.
pub record DropForm : Type 0 where
  pub label : Text
  pub note : Text
  pub expires : Text
  pub max_files : Text
  pub max_per_sub : Text
  pub max_subs : Text
  pub max_file_mb : Text
  pub max_total_mb : Text
  pub password : Text

-- The buttons that fill in the limits.
pub data Preset : Type 0 where
  one delivery open_drop : Preset

unfoldable pub press_preset : Preset → DropForm → DropForm
press_preset one f = record f {
  max_files = codes "1";
  max_per_sub = codes "1";
  max_subs = codes "1";
}
press_preset delivery f = record f { max_files = []; max_per_sub = []; max_subs = codes "1" }
press_preset open_drop f = record f { max_files = []; max_per_sub = []; max_subs = [] }

unfoldable pub is_decimal_digit : ℕ → Bool
is_decimal_digit c = leb 48 c && leb c 57

-- The digits at the front of a text, as `parseInt(v, 10)` reads them; `none` where there are none.
unfoldable pub leading_number : Text → Option ℕ → Option ℕ
unfolding is_decimal_digit
leading_number [] n = n
leading_number (c ∷ t) none =
    let rest = leading_number t (some (c - 48)) in if is_decimal_digit c then rest else none
leading_number (c ∷ t) (some n) =
    let rest = leading_number t (some (n * 10 + (c - 48))) in
    if is_decimal_digit c then rest else some n

-- A sign is read too; a negative number is not positive.
unfoldable pub parse_positive : Text → Option ℕ
unfolding leading_number
parse_positive [] = none
parse_positive (c ∷ t) =
    if c == 45 then none else if c == 43 then leading_number t none else leading_number (c ∷ t) none

unfoldable pub mb_to_bytes : Text → Text
unfolding parse_positive
mb_to_bytes v = elim (parse_positive (trim_start v)) [
  | none ↦ []
  | some n ↦ if ltb 0 n then decimal (n * 1024 * 1024) else []
]

abbrev pub trim : Text → Text
trim t = trim_end (trim_start t)

-- What is drawn for a drop: its secret, the salt of its password, the nonce of the sealed key, and
-- the public id of uuidV4.
pub record DropDraws : Type 0 where
  pub secret : Bytes
  pub salt : Bytes
  pub key_nonce : Bytes
  pub public_id : Text

-- The request, and the fragments of the public and of the private link.
pub record NewDrop : Type 0 where
  pub body : Params
  pub public_fragment : Text
  pub private_fragment : Text

-- DROP_VERSION
abbrev pub drop_version : ℕ
drop_version = 1

-- What the page that sends files has opened.
pub record DropKey : Type 0 where
  pub token : Bytes
  pub public_key : Bytes

module _ (a : Aead) (kdf : Kdf) (u : Utf8) where
  -- The fields that tell of a password.
  unfoldable pub password_params : Text → Bytes → Result Params
  password_params [] salt = ok []
  password_params (c ∷ password) salt = do
    derived ← derive_password_keys a kdf u (c ∷ password) salt version
    ok (
        (codes "auth_salt", b64u_encode salt)
        ∷ (codes "auth_verifier", b64u_encode derived.auth)
        ∷ [])

  -- The fields of the form, of which `alg` names the KEM.
  unfoldable pub drop_params : Text → DropForm → Params
  unfolding mb_to_bytes
  drop_params alg f =
      (codes "drop_version", decimal drop_version)
      ∷ (codes "kem_alg", alg)
      ∷ (codes "label", trim f.label)
      ∷ (codes "note", trim f.note)
      ∷ (codes "expires_hours", f.expires)
      ∷ (codes "max_files", trim f.max_files)
      ∷ (codes "max_files_per_submission", trim f.max_per_sub)
      ∷ (codes "max_submissions", trim f.max_subs)
      ∷ (codes "max_file_bytes", mb_to_bytes f.max_file_mb)
      ∷ (codes "max_total_bytes", mb_to_bytes f.max_total_mb)
      ∷ []

  unfoldable pub with_sealed_key : DropDraws → OwnerKeys → ShareKeys a.Key → Params → Params
  with_sealed_key d owner share body =
      body
      ++ (codes "public_id", d.public_id)
        ∷ (
          codes "enc_pk",
          b64u_encode (seal_drop_public_key a u d.key_nonce share.pk d.public_id owner.public_key),
        )
        ∷ []

  -- The click on Create, up to the request and with the links of its answer.
  unfoldable pub create_drop : Option Kem → Text → DropDraws → DropForm → Result NewDrop
  unfolding password_params drop_params with_sealed_key
  create_drop kem alg d f = do
    owner ← derive_drop_owner_keys a kdf u kem d.secret drop_version
    share ← derive_drop_share_keys a kdf u owner.share_secret drop_version
    guarded ← password_params f.password d.salt
    let body =
        drop_params alg f
        ++ (codes "upload_verifier", b64u_encode (kdf.sha256 share.token)) ∷ guarded
    ok (record {
      body = with_sealed_key d owner share body;
      public_fragment = 35 ∷ b64u_encode owner.share_secret;
      private_fragment = 35 ∷ b64u_encode d.secret;
    })

  -- `unsealKey` with the fragment's secret and the sealed key that the server answers.
  unfoldable pub unseal_key : Option ℕ → Text → ℕ → Text → Text → Result DropKey
  unseal_key key_length public_id v secret enc_pk = do
    raw ← b64u_decode secret
    share ← derive_drop_share_keys a kdf u raw v
    sealed ← b64u_decode enc_pk
    public_key ← open_drop_public_key a u key_length share.pk public_id (some sealed)
    ok (record { token = share.token; public_key = public_key })
