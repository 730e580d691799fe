-- ===== src/E2e/Blobs/RoundTrip.antt =====
-- What is sealed is opened, and what opens was sealed for the same identifier under the same key.
use k_quickshare.E2e.Blobs.{
  roster_aad, note_aad, seal_roster, seal_note, open_roster, check_roster, lay_sealed, open_note,
  name_aad, Member, roster_json, note_json, name_json, check_name, drop_pk_aad, wrap_file_key,
  unwrap_file_key, seal_drop_public_key, open_drop_public_key, seal_name, open_name,
}
use k_quickshare.E2e.Blobs.Opens.{open_sealed-encrypt, open_sealed_sound}
use k_quickshare.E2e.Platform.{Coercion, Aead, Utf8}
use k_quickshare.E2e.Manifest.{get_field, read_json}
use k_quickshare.E2e.Manifest.RoundTrip.{read_json-stringify}
use k_quickshare.E2e.Padding.{pad_name_body, unpad_name_body}
use k_quickshare.Json.{codes, Values, Text, Value, value}
use k_quickshare.Json.Steps.{IsText}
use k_quickshare.Json.Write.{stringify}
use k_quickshare.Base.{
  List, ◌∙◌, ap, name_too_long, note_too_long, malformed_roster, malformed_name, malformed_note,
  ok-injective, passed, All, ◌∷◌, [], some, refl, ◌≡◌, ◌+◌, ℕ, ok, malformed_drop_key,
  malformed_wrapped_key, >>=-eq-ok, take, length, Bytes, ==_self, ltb,
}
use k_quickshare.E2e.{seal_nonce}
use k_quickshare.E2e.Blobs.Contents.{
  MemberHasTexts, unpad_name_json, unpad_note_json, checked_name, name_json-HasTexts,
  note_json-HasTexts, check_name-json, check_note-json, roster_json-HasTexts, check_roster-json,
  checked_roster,
}

module _ (a : Aead) where
  open a use {Key, encrypt, import_key}

  -- Unwrapping a wrapped file key imports exactly the raw key. The nonce has 12 bytes.
  pub unwrap_file_key-wrap_file_key :
      (nonce : Bytes) (batch_key : Key) (raw : Bytes)
      → length nonce ≡ seal_nonce
      → unwrap_file_key a batch_key (some (wrap_file_key a nonce batch_key raw)) ≡ import_key raw
  unfolding unwrap_file_key wrap_file_key
  unwrap_file_key-wrap_file_key nonce batch_key raw h =
      rw (open_sealed-encrypt a malformed_wrapped_key batch_key [] nonce raw h) refl

  -- A wrapped key that is accepted is the wrapping, under its nonce, of the key that is imported.
  pub unwrap_file_key_sound :
      (batch_key : Key) (wrapped : Bytes) (k : Key)
      → unwrap_file_key a batch_key (some wrapped) ≡ ok k
      → (raw : Bytes) × (wrap_file_key a (take seal_nonce wrapped) batch_key raw ≡ wrapped)
        × (import_key raw ≡ ok k)
  unfolding unwrap_file_key wrap_file_key
  unwrap_file_key_sound batch_key wrapped k e =
      let (raw, opened, imported) = >>=-eq-ok _ import_key e in
      (raw, (open_sealed_sound a malformed_wrapped_key batch_key [] wrapped raw opened).1, imported)

  module _ (u : Utf8) where
    -- A drop's public key is opened for the link it was sealed for, by a KEM whose public keys have
    -- its length. The nonce has 12 bytes.
    pub open_drop_public_key-seal_drop_public_key :
        (nonce : Bytes) (pk_key : Key) (public_id : Text) (public_key : Bytes)
        → length nonce ≡ seal_nonce
        → open_drop_public_key a u
            (some (length public_key))
            pk_key
            public_id
            (some (seal_drop_public_key a u nonce pk_key public_id public_key))
          ≡ ok public_key
    unfolding open_drop_public_key seal_drop_public_key
    open_drop_public_key-seal_drop_public_key nonce pk_key public_id public_key h =
        rw
          (
            open_sealed-encrypt a malformed_drop_key pk_key (drop_pk_aad u public_id) nonce
                public_key h,
            ==_self (length public_key),
          )
          refl

    -- A name that was sealed is opened for its file: the version, the name and the type. The name
    -- is not empty, name and type are texts, and the nonce has 12 bytes.
    pub open_name-seal_name :
        (nonce : Bytes) (name_key : Key) (id : Text) (c : ℕ) (name type : Text) (blob : Bytes)
        → length nonce ≡ seal_nonce
        → IsText (c ∷ name)
        → IsText type
        → seal_name a u nonce name_key id (c ∷ name) type ≡ ok blob
        → open_name a u name_key id (some blob) ≡ ok (value (name_json (c ∷ name) type))
    unfolding open_name seal_name
    open_name-seal_name nonce name_key id c name type blob h hn ht e =
        let json : Bytes = u.encode (stringify (name_json (c ∷ name) type)) in
        let (fits, e1) = passed (ltb 4096 (2 + length json)) name_too_long _ e in
        rw
          (
            ← ok-injective e1,
            open_sealed-encrypt a malformed_name name_key (name_aad u id) nonce (pad_name_body json)
                h,
            unpad_name_json u (c ∷ name) type fits,
            read_json-stringify u (name_json (c ∷ name) type)
                (name_json-HasTexts (c ∷ name) type hn ht),
          )
          (check_name-json c name type)

    -- A name that is accepted was sealed, under this key and for this file, as a body that unpads
    -- to the JSON that is returned.
    pub open_name_sound :
        (name_key : Key) (id : Text) (blob : Bytes) (n : Value)
        → open_name a u name_key id (some blob) ≡ ok n
        → (body json : Bytes) × (lay_sealed
              (take seal_nonce blob)
              (encrypt name_key (take seal_nonce blob) (name_aad u id) body)
            ≡ blob)
          × (unpad_name_body body ≡ ok json)
          × (read_json u json ≡ ok n)
    unfolding open_name check_name
    open_name_sound name_key id blob n e =
        let (body, opened, e1) = >>=-eq-ok _ _ e in
        let (json, unpadded, e2) = >>=-eq-ok (unpad_name_body body) _ e1 in
        let (r, read, e3) = >>=-eq-ok (read_json u json) check_name e2 in
        let same : r ≡ n = checked_name r n e3 in
        (
          body,
          json,
          (open_sealed_sound a malformed_name name_key (name_aad u id) blob body opened).1,
          unpadded,
          read ∙ ap ok same,
        )

    -- A note that was sealed is opened for its delivery, cut to 200 and 1,000 code units. Both are
    -- texts, and the nonce has 12 bytes.
    pub open_note-seal_note :
        (nonce : Bytes) (note_key : Key) (batch from message : Text) (blob : Bytes)
        → length nonce ≡ seal_nonce
        → IsText from
        → IsText message
        → seal_note a u nonce note_key batch from message ≡ ok blob
        → open_note a u note_key batch (some blob)
          ≡ ok
              (record { from = Value.str (take 200 from); message = Value.str (take 1000 message) })
    unfolding open_note seal_note
    open_note-seal_note nonce note_key batch from message blob h hf hm e =
        let json : Bytes = u.encode (stringify (note_json from message)) in
        let (fits, e1) = passed (ltb 4096 (2 + length json)) note_too_long _ e in
        rw
          (
            ← ok-injective e1,
            open_sealed-encrypt a malformed_note note_key (note_aad u batch) nonce
                (pad_name_body json) h,
            unpad_note_json u from message fits,
            read_json-stringify u (note_json from message) (note_json-HasTexts from message hf hm),
          )
          (check_note-json from message)

    -- The roster of a batch, of any members and sequence number, is opened for that batch as it was
    -- sealed. The nonce has 12 bytes, and the batch id and the members' fields are texts.
    pub open_roster-seal_roster :
        (co : Coercion) (nonce : Bytes) (roster_key : Key) (batch : Text) (seq : ℕ)
        (files : List Member)
        → length nonce ≡ seal_nonce
        → IsText batch
        → All MemberHasTexts files
        → open_roster a u co roster_key batch
            (some (seal_roster a u nonce roster_key batch (roster_json batch seq files)))
          ≡ ok (value (roster_json batch seq files))
    unfolding open_roster seal_roster
    open_roster-seal_roster co nonce roster_key batch seq files h hb hf =
        rw
          (
            open_sealed-encrypt a malformed_roster roster_key (roster_aad u batch) nonce
                (u.encode (stringify (roster_json batch seq files))) h,
            read_json-stringify u (roster_json batch seq files)
                (roster_json-HasTexts batch seq files hb hf),
          )
          (check_roster-json co batch seq files)

    -- A roster that is accepted was sealed under this key for this batch, names the batch and has a
    -- file list.
    pub open_roster_sound :
        (co : Coercion) (roster_key : Key) (batch : Text) (blob : Bytes) (r : Value)
        → open_roster a u co roster_key batch (some blob) ≡ ok r
        → (body : Bytes) × (lay_sealed
              (take seal_nonce blob)
              (encrypt roster_key (take seal_nonce blob) (roster_aad u batch) body)
            ≡ blob)
          × (read_json u body ≡ ok r)
          × (get_field (codes "batch") r ≡ ok (some (Value.str batch)))
          × ((vs : Values) × (get_field (codes "files") r ≡ ok (some (Value.arr vs))))
    unfolding open_roster
    open_roster_sound co roster_key batch blob r e =
        let (body, opened, e1) = >>=-eq-ok _ _ e in
        let (r', read, e2) = >>=-eq-ok (read_json u body) (check_roster co batch) e1 in
        let (same, named, listed) = checked_roster co batch r' r e2 in
        (
          body,
          (open_sealed_sound a malformed_roster roster_key (roster_aad u batch) blob body opened).1,
          read ∙ ap ok same,
          named,
          listed,
        )
