-- ===== src/E2e/Keys/Agree.antt =====
-- The two ends of a drop derive the same keys, and derivation never fails.
use k_quickshare.Base.{some, ◌∙◌, ap, sym, ok-injective, >>=-eq-ok, length, ◌>>=◌}
use k_quickshare.E2e.Keys.{
  pbkdf2_iter, PasswordKeys, OwnerKeys, SubmissionKeys, Encapsulation, derive_password_keys,
  derive_drop_owner_keys, derive_submission_keys, drop_encapsulate, drop_decapsulate, drop_labels,
  labels, labels_table, labels_v1, BatchKeys, hkdf32, derive_batch_keys,
}
use k_quickshare.E2e.Blobs.{wrap_file_key, unwrap_file_key}
use k_quickshare.E2e.Blobs.RoundTrip.{unwrap_file_key-wrap_file_key}
use k_quickshare.E2e.Platform.{Kem, Aead, Kdf, Utf8}
use k_quickshare.Json.{Text}
use k_quickshare.Base.{arith, [], refl, ◌≡◌, ℕ, ok, Bytes}
use k_quickshare.E2e.{seal_nonce, version}

labels-eq : (v : ℕ) → labels v ≡ labels_v1
unfolding labels labels_table
labels-eq v = ground arith

module _ (a : Aead) (kdf : Kdf) (u : Utf8) where
  open a use {Key, import_key}

  imported : (m s : Bytes) (info : Text) → (k : Key) × (import_key (hkdf32 a kdf u m s info) ≡ ok k)
  unfolding hkdf32
  imported m s info =
      a.import_32 (kdf.hkdf m s (u.encode info)) (kdf.length_hkdf m s (u.encode info))

  -- The keys of a batch are derived from every secret, and are the same under every version.
  pub derive_batch_keys-total :
      (secret : Bytes) (v w : ℕ)
      → (k : BatchKeys Key) × (derive_batch_keys a kdf u secret v ≡ ok k)
        × (derive_batch_keys a kdf u secret w ≡ ok k)
  unfolding derive_batch_keys
  derive_batch_keys-total secret v w =
      let (key, e1) = imported secret [] labels_v1.batch in
      let (roster, e2) = imported secret [] labels_v1.roster in
      let (name, e3) = imported secret [] labels_v1.name in
      (
        record { key = key; roster = roster; name = name },
        rw (labels-eq v, e1, e2, e3) refl,
        rw (labels-eq w, e1, e2, e3) refl,
      )

  -- A password and a salt always yield keys, the same under every version, and the proof sent to
  -- the server is the branch under the `auth` label alone.
  pub derive_password_keys-total :
      (password : Text) (salt : Bytes) (v w : ℕ)
      → (k : PasswordKeys Key) × (derive_password_keys a kdf u password salt v ≡ ok k)
        × (derive_password_keys a kdf u password salt w ≡ ok k)
        × (k.auth
            ≡ hkdf32 a kdf u (kdf.pbkdf2 (u.encode password) salt pbkdf2_iter) salt labels_v1.auth)
  unfolding derive_password_keys
  derive_password_keys-total password salt v w =
      let master : Bytes = kdf.pbkdf2 (u.encode password) salt pbkdf2_iter in
      let (key, e1) = imported master salt labels_v1.enc in
      let (roster, e2) = imported master salt labels_v1.roster in
      let (name, e3) = imported master salt labels_v1.name in
      let auth : Bytes = hkdf32 a kdf u master salt labels_v1.auth in
      (
        record { key = key; auth = auth; roster = roster; name = name },
        rw (labels-eq v, e1, e2, e3) refl,
        rw (labels-eq w, e1, e2, e3) refl,
        refl,
      )

  submission_total :
      (ss ct : Bytes) (v : ℕ)
      → (k : SubmissionKeys Key) × (derive_submission_keys a kdf u ss ct v ≡ ok k)
  unfolding derive_submission_keys
  submission_total ss ct v =
      let root : Bytes = hkdf32 a kdf u ss (kdf.sha256 ct) (drop_labels v).sub in
      let (keys, e1, e2) = derive_batch_keys-total root version version in
      let (note, e3) = imported root [] (drop_labels v).note in
      (
        record { key = keys.key; roster = keys.roster; name = keys.name; note = note },
        rw (e1, e3) refl,
      )

  pub encapsulation_opens :
      (kem : Kem) (secret coins : Bytes) (v : ℕ) (o : OwnerKeys) (e : Encapsulation)
      → derive_drop_owner_keys a kdf u (some kem) secret v ≡ ok o
      → drop_encapsulate (some kem) coins o.public_key ≡ ok e
      → drop_decapsulate (some kem) o.kem_seed e.ct ≡ ok e.ss
  unfolding derive_drop_owner_keys drop_encapsulate drop_decapsulate
  encapsulation_opens kem secret coins v o e owner sent =
      let seed : Bytes = hkdf32 a kdf u secret [] (drop_labels v).kem in
      let is_o : record {
        kem_seed = seed;
        share_secret = hkdf32 a kdf u secret [] (drop_labels v).share;
        public_key = kem.public_key seed;
      }
          ≡ o =
        ok-injective owner in
      let (pair, made, shape) = >>=-eq-ok (kem.encapsulate coins o.public_key) _ sent in
      let parts : record { ct = pair.0; ss = pair.1 } ≡ e = ok-injective shape in
      let of_seed : kem.encapsulate coins (kem.public_key seed) ≡ ok (pair.0, pair.1) =
        ap (λ k. kem.encapsulate coins k) (ap (λ k. k.public_key) is_o) ∙ made in
      ap (λ s. kem.decapsulate e.ct s) (sym (ap (λ k. k.kem_seed) is_o))
      ∙ ap (λ c. kem.decapsulate c seed) (sym (ap (λ x. x.ct) parts))
      ∙ kem.decapsulate_encapsulate seed coins pair.0 pair.1 of_seed
      ∙ ap (λ x. ok x.ss) parts

  -- A delivery to a drop reaches its owner: the sender derives submission keys from what it
  -- encapsulated to the public key, and the owner, from the ciphertext and its secret, derives keys
  -- that unwrap a file key that the sender wrapped with a 12-byte nonce.
  pub delivery-opens :
      (kem : Kem) (secret coins nonce raw : Bytes) (v : ℕ) (o : OwnerKeys) (e : Encapsulation)
      → length nonce ≡ seal_nonce
      → derive_drop_owner_keys a kdf u (some kem) secret v ≡ ok o
      → drop_encapsulate (some kem) coins o.public_key ≡ ok e
      → (sent : SubmissionKeys Key) × (derive_submission_keys a kdf u e.ss e.ct v ≡ ok sent)
        × ((drop_decapsulate (some kem) o.kem_seed e.ct >>= λ ss.
              derive_submission_keys a kdf u ss e.ct v >>= λ received.
              unwrap_file_key a received.key (some (wrap_file_key a nonce sent.key raw)))
            ≡ import_key raw)
  delivery-opens kem secret coins nonce raw v o e h owner made =
      let (sent, derived) = submission_total e.ss e.ct v in
      (
        sent,
        derived,
        rw (encapsulation_opens kem secret coins v o e owner made, derived)
            (unwrap_file_key-wrap_file_key a nonce sent.key raw h),
      )
