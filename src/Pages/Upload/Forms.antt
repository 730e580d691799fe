-- ===== src/Pages/Upload/Forms.antt =====
-- What `uploadOne` of web/static/app.js sends of one file.
pub mod Opens
use k_quickshare.Base.{◌>>=◌, ◌++◌, Bytes, Result, ok}
use k_quickshare.Json.{Text, codes}
use k_quickshare.E2e.{version}
use k_quickshare.E2e.Base64.{b64u_encode}
use k_quickshare.E2e.Blobs.{wrap_file_key, seal_name}
use k_quickshare.E2e.Chunks.{Blob, File, encrypt_file, or_text, octet_stream}
use k_quickshare.E2e.Keys.{BatchKeys}
use k_quickshare.E2e.Manifest.{build_manifest}
use k_quickshare.E2e.Platform.{Aead, Utf8}
use k_quickshare.Json.Write.{decimal}

-- The fields of the request, of which `file` is named `file_name`.
pub record Form : Type 0 where
  pub batch_id : Text
  pub wrapped_key : Text
  pub enc_name : Text
  pub file : Blob
  pub file_name : Text
  pub e2e : Text
  pub e2e_version : Text
  pub manifest : Text
  pub plain_size : Text

-- What is drawn for a file: its key, the nonces of the wrapped key and of the name, and its id.
pub record Draws : Type 0 where
  pub raw_key : Bytes
  pub key_nonce : Bytes
  pub name_nonce : Bytes
  pub file_id : Text

module _ (a : Aead) (u : Utf8) where
  open a use {Key, import_key}

  unfoldable pub seal_form : Draws → Text → BatchKeys Key → Text → Text → File → Result Form
  seal_form draws batch keys name type file = do
    key ← import_key draws.raw_key
    let manifest = build_manifest u draws.file_id batch file.size
    enc_name ←
        seal_name a u draws.name_nonce keys.name draws.file_id name (or_text type octet_stream)
    cipher ← encrypt_file a file key manifest
    ok (record {
      batch_id = batch;
      wrapped_key = b64u_encode (wrap_file_key a draws.key_nonce keys.key draws.raw_key);
      enc_name = b64u_encode enc_name;
      file = cipher;
      file_name = draws.file_id ++ codes ".enc";
      e2e = codes "1";
      e2e_version = decimal version;
      manifest = b64u_encode manifest;
      plain_size = decimal file.size;
    })
