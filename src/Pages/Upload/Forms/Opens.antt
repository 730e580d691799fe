-- ===== src/Pages/Upload/Forms/Opens.antt =====
-- What is sent of a file is opened by whoever holds the keys of its link.
use k_quickshare.Base.{
  [], not, false, subst, ◌∙◌, ap, sym, refl, ok-injective, ◌∷◌, none, ℕ, >>=-eq-ok, length, Bytes,
  ◌≡◌, ok, some,
}
use k_quickshare.E2e.Chunks.Sealed.{Holds}
use k_quickshare.E2e.Chunks.{
  blob_type, encrypt_file, decrypt_file, octet_stream, or_text, File, differs, or_type,
}
use k_quickshare.E2e.Platform.{Coercion, Utf8, Aead}
use k_quickshare.E2e.Slice.{bytes_equal_iff}
use k_quickshare.Pages.Upload.Forms.{Form, Draws, seal_form}
use k_quickshare.Json.{value, Text}
use k_quickshare.E2e.Keys.{BatchKeys}
use k_quickshare.E2e.{seal_nonce}
use k_quickshare.Json.Steps.{IsText}
use k_quickshare.E2e.Base64.{b64u_encode}
use k_quickshare.E2e.Blobs.{wrap_file_key, seal_name, name_json, open_name, unwrap_file_key}
use k_quickshare.E2e.Chunks.RoundTrip.{decrypt_file-encrypt_file, manifest_of}
use k_quickshare.E2e.Manifest.{build_manifest}
use k_quickshare.E2e.Blobs.RoundTrip.{open_name-seal_name, unwrap_file_key-wrap_file_key}

differs_self : (m : Bytes) → differs (some m) m ≡ false
unfolding differs
differs_self [] = refl
differs_self (b ∷ bs) = ap not ((bytes_equal_iff (b ∷ bs) (b ∷ bs)).1 refl)

module _ (a : Aead) (u : Utf8) (co : Coercion) where
  open a use {Key, import_key}

  -- With the keys of its link, the key, the name and the content of a file are opened from what
  -- `uploadOne` sends: the wrapped key to the key that opens the content, the name with its type,
  -- and the content under the manifest that is sent with it. The nonces have 12 bytes, the ids, the
  -- name and the type are texts, the name is not empty, and no read of the file of the right length
  -- yields other bytes than the file's.
  pub sent_file_opens :
      (draws : Draws) (batch : Text) (keys : BatchKeys Key) (c : ℕ) (name type : Text) (file : File)
      (p : Bytes) (form : Form)
      → length draws.key_nonce ≡ seal_nonce
      → length draws.name_nonce ≡ seal_nonce
      → IsText draws.file_id
      → IsText batch
      → IsText (c ∷ name)
      → IsText (or_text type octet_stream)
      → Holds file p
      → seal_form a u draws batch keys (c ∷ name) type file ≡ ok form
      → (wrapped : Bytes) × (enc_name : Bytes) × (manifest : Bytes) × (key : Key)
        × (form.wrapped_key ≡ b64u_encode wrapped)
        × (form.enc_name ≡ b64u_encode enc_name)
        × (form.manifest ≡ b64u_encode manifest)
        × (unwrap_file_key a keys.key (some wrapped) ≡ ok key)
        × (open_name a u keys.name draws.file_id (some enc_name)
            ≡ ok (value (name_json (c ∷ name) (or_text type octet_stream))))
        × (decrypt_file a u co form.file.content key (some manifest) type
            ≡ ok (record {
              blob = record { content = p; type = blob_type (or_type co none type) };
              manifest = some (manifest_of draws.file_id batch (length p));
            }))
  unfolding seal_form
  sent_file_opens draws batch keys c name type file p form hk hn hid hbatch hname htype held e =
      let manifest = build_manifest u draws.file_id batch file.size in
      let (key, imported, e1) = >>=-eq-ok (import_key draws.raw_key) _ e in
      let (enc_name, sealed, e2) =
        >>=-eq-ok
          (seal_name a u draws.name_nonce keys.name draws.file_id (c ∷ name)
            (or_text type octet_stream))
          _ e1 in
      let (cipher, encrypted, e3) = >>=-eq-ok (encrypt_file a file key manifest) _ e2 in
      let wrapped = wrap_file_key a draws.key_nonce keys.key draws.raw_key in
      (
        wrapped,
        enc_name,
        manifest,
        key,
        ap (λ f. f.wrapped_key) (sym (ok-injective e3)),
        ap (λ f. f.enc_name) (sym (ok-injective e3)),
        ap (λ f. f.manifest) (sym (ok-injective e3)),
        unwrap_file_key-wrap_file_key a draws.key_nonce keys.key draws.raw_key hk ∙ imported,
        open_name-seal_name a u draws.name_nonce keys.name draws.file_id c name
            (or_text type octet_stream) enc_name hn hname htype sealed,
        subst
            (λ b.
              decrypt_file a u co b.content key (some manifest) type
              ≡ ok (record {
                blob = record { content = p; type = blob_type (or_type co none type) };
                manifest = some (manifest_of draws.file_id batch (length p));
              }))
            (ap (λ f. f.file) (ok-injective e3))
            (decrypt_file-encrypt_file a u co file key draws.file_id batch type p (some manifest)
              cipher hid hbatch held (differs_self manifest) encrypted),
      )
