-- ===== src/E2e/Keys.antt =====
-- Key derivation in web/static/e2e.js: labels, the branches of a link's secret, of a password, of a
-- drop's owner secret and of a submission's shared secret.
pub mod Agree
use k_quickshare.E2e.Platform.{Aead, Kdf, Kem, Utf8}
use k_quickshare.Json.{Text, codes}
use k_quickshare.Base.{
  ◌>>=◌, [], some, none, Option, ◌&&◌, ℕ, err, ok, kem_unavailable, Result, Bytes, if◌then◌else◌,
  leb,
}
use k_quickshare.E2e.{version}

-- LABELS: one set of labels for every version.
pub record Labels : Type 0 where
  pub url : Text
  pub enc : Text
  pub auth : Text
  pub batch : Text
  pub roster : Text
  pub name : Text

abbrev pub labels_v1 : Labels
labels_v1 = record {
  url = codes "pyxis-e2e-url-v1";
  enc = codes "pyxis-e2e-enc-v1";
  auth = codes "pyxis-e2e-auth-v1";
  batch = codes "pyxis-e2e-batch-v1";
  roster = codes "pyxis-e2e-roster-v1";
  name = codes "pyxis-e2e-name-v1";
}

-- `LABELS[version]`, which has the keys 1 to 5.
unfoldable pub labels_table : ℕ → Option Labels
labels_table v = if leb 1 v && leb v 5 then some labels_v1 else none

-- `LABELS[version] || LABELS[VERSION]`
unfoldable pub labels : ℕ → Labels
unfolding labels_table
labels v = elim (labels_table v) [
  | some l ↦ l
  | none ↦ elim (labels_table version) [ some l ↦ l | none ↦ labels_v1 ]
]

-- DROP_LABELS
pub record DropLabels : Type 0 where
  pub kem : Text
  pub share : Text
  pub pk : Text
  pub up : Text
  pub sub : Text
  pub note : Text

abbrev pub drop_labels_v1 : DropLabels
drop_labels_v1 = record {
  kem = codes "pyxis-drop-kem-v1";
  share = codes "pyxis-drop-share-v1";
  pk = codes "pyxis-drop-pk-v1";
  up = codes "pyxis-drop-up-v1";
  sub = codes "pyxis-drop-sub-v1";
  note = codes "pyxis-drop-note-v1";
}

unfoldable pub drop_labels : ℕ → DropLabels
drop_labels v = drop_labels_v1

-- PBKDF2_ITER
abbrev pub pbkdf2_iter : ℕ
pbkdf2_iter = 600000

pub record BatchKeys (Key : Type 0) : Type 0 where
  pub key : Key
  pub roster : Key
  pub name : Key

pub record PasswordKeys (Key : Type 0) : Type 0 where
  pub key : Key
  pub auth : Bytes
  pub roster : Key
  pub name : Key

pub record OwnerKeys : Type 0 where
  pub kem_seed : Bytes
  pub share_secret : Bytes
  pub public_key : Bytes

pub record ShareKeys (Key : Type 0) : Type 0 where
  pub pk : Key
  pub token : Bytes

pub record SubmissionKeys (Key : Type 0) : Type 0 where
  pub key : Key
  pub roster : Key
  pub name : Key
  pub note : Key

pub record Encapsulation : Type 0 where
  pub ct : Bytes
  pub ss : Bytes

module _ (a : Aead) (kdf : Kdf) (u : Utf8) where
  open a use {Key, import_key}
  open kdf use {hkdf, pbkdf2, sha256}

  unfoldable pub hkdf32 : Bytes → Bytes → Text → Bytes
  hkdf32 material salt info = hkdf material salt (u.encode info)

  unfoldable pub derive_url_key : Bytes → ℕ → Result Key
  derive_url_key secret v = import_key (hkdf32 secret [] (labels v).url)

  unfoldable pub derive_name_key : Bytes → ℕ → Result Key
  derive_name_key secret v = import_key (hkdf32 secret [] (labels v).name)

  unfoldable pub derive_batch_keys : Bytes → ℕ → Result (BatchKeys Key)
  derive_batch_keys secret v = do
    key ← import_key (hkdf32 secret [] (labels v).batch)
    roster ← import_key (hkdf32 secret [] (labels v).roster)
    name ← import_key (hkdf32 secret [] (labels v).name)
    ok (record { key = key; roster = roster; name = name })

  unfoldable pub derive_password_keys : Text → Bytes → ℕ → Result (PasswordKeys Key)
  derive_password_keys password salt v = do
    let master = pbkdf2 (u.encode password) salt pbkdf2_iter
    key ← import_key (hkdf32 master salt (labels v).enc)
    roster ← import_key (hkdf32 master salt (labels v).roster)
    name ← import_key (hkdf32 master salt (labels v).name)
    ok (record {
      key = key;
      auth = hkdf32 master salt (labels v).auth;
      roster = roster;
      name = name;
    })

  -- `kem` is `window.PYXIS_KEM`, `none` where it is missing.
  unfoldable pub derive_drop_owner_keys : Option Kem → Bytes → ℕ → Result OwnerKeys
  derive_drop_owner_keys none secret v = err kem_unavailable
  derive_drop_owner_keys (some kem) secret v =
      let seed = hkdf32 secret [] (drop_labels v).kem in
      ok (record {
        kem_seed = seed;
        share_secret = hkdf32 secret [] (drop_labels v).share;
        public_key = kem.public_key seed;
      })

  unfoldable pub derive_drop_share_keys : Bytes → ℕ → Result (ShareKeys Key)
  derive_drop_share_keys share_secret v = do
    pk ← import_key (hkdf32 share_secret [] (drop_labels v).pk)
    ok (record { pk = pk; token = hkdf32 share_secret [] (drop_labels v).up })

  unfoldable pub derive_submission_keys : Bytes → Bytes → ℕ → Result (SubmissionKeys Key)
  derive_submission_keys ss ct v = do
    let root = hkdf32 ss (sha256 ct) (drop_labels v).sub
    keys ← derive_batch_keys root version
    note ← import_key (hkdf32 root [] (drop_labels v).note)
    ok (record { key = keys.key; roster = keys.roster; name = keys.name; note = note })

-- `coins` is what the KEM draws from the browser's generator.
unfoldable pub drop_encapsulate : Option Kem → Bytes → Bytes → Result Encapsulation
drop_encapsulate none coins public_key = err kem_unavailable
drop_encapsulate (some kem) coins public_key = do
  e ← kem.encapsulate coins public_key
  ok (record { ct = e.0; ss = e.1 })

unfoldable pub drop_decapsulate : Option Kem → Bytes → Bytes → Result Bytes
drop_decapsulate none kem_seed ct = err kem_unavailable
drop_decapsulate (some kem) kem_seed ct = kem.decapsulate ct kem_seed
