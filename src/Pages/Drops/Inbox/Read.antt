-- ===== src/Pages/Drops/Inbox/Read.antt =====
-- The owner of a drop reads what a sender has written.
use k_quickshare.Base.{
  false, subst, sym, ◌+◌, >>=-eq-ok, ◌==◌, ◌++◌, ◌∷◌, [], some, ℕ, ok, refl, ◌≡◌, ◌∙◌, ap, AreBytes,
  Bytes, length, take, ok-injective,
}
use k_quickshare.E2e.{seal_nonce}
use k_quickshare.E2e.Base64.{b64u_encode, b64u_decode}
use k_quickshare.E2e.Base64.RoundTrip.{b64u_decode-b64u_encode}
use k_quickshare.E2e.Blobs.{open_sealed, or_empty, Note, seal_note, open_note}
use k_quickshare.E2e.Blobs.RoundTrip.{open_note-seal_note}
use k_quickshare.E2e.Keys.{
  derive_submission_keys, drop_encapsulate, OwnerKeys, SubmissionKeys, derive_drop_owner_keys,
}
use k_quickshare.E2e.Platform.{Aead, Kdf, Kem, Utf8}
use k_quickshare.Json.{codes, Text, Value}
use k_quickshare.Json.Steps.{IsText}
use k_quickshare.Pages.Drops.Inbox.{Inbox, derive_delivery, read_note, open_delivery}
use k_quickshare.Pages.Drops.Send.{
  check_opened, note_params, SendSite, Submission, Turn, open_submission,
}
use k_quickshare.Pages.Drops.Send.Rosters.{IsOwners, open_submission-IsKeyed}
use k_quickshare.Pages.Upload.Options.{Params}

module _ (a : Aead) (kdf : Kdf) (u : Utf8) where
  open a use {Key}

  nothing_read : (key : Key) (id : Text) (n : Note) → open_note a u key id (some []) ≡ ok n → ⊥
  unfolding open_note open_sealed
  nothing_read key id n e = cc

  note_read :
      (t : Text) (keys : SubmissionKeys Key) (id from message : Text) (sealed : Bytes)
      → b64u_decode t ≡ ok sealed
      → open_note a u keys.note id (some sealed)
        ≡ ok (record { from = Value.str from; message = Value.str message })
      → read_note a kdf u keys id t
        ≡ ok (record { from = Value.str from; message = Value.str message })
  unfolding read_note b64u_decode or_empty
  note_read [] keys id from message sealed d o = absurd (
      nothing_read keys.note id _
        (ap (λ b. open_note a u keys.note id (some b)) (ok-injective d) ∙ o))
  note_read (c ∷ t) keys id from message sealed d o = rw (read_note, d, o) refl

  module _ (kem : Kem) (owner : OwnerKeys) (v : ℕ) (secret : Bytes)
      (owns : derive_drop_owner_keys a kdf u (some kem) secret v ≡ ok owner) where
    delivery_derives :
        (site : SendSite) (t : Turn) (r : Params × Submission Key)
        → IsOwners a kdf u kem owner v site
        → open_submission a kdf u site t ≡ ok r
        → AreBytes r.1.ct
        → derive_delivery a kdf u (some kem) owner.kem_seed v (b64u_encode r.1.ct) ≡ ok r.1.keys
    unfolding derive_delivery
    delivery_derives site t r o e bytes =
        let (keyed, empty, zeroth) =
          open_submission-IsKeyed a kdf u kem owner v secret owns site t r o e in
        rw (derive_delivery, b64u_decode-b64u_encode r.1.ct bytes) keyed

    -- The request that the sender's page makes, and what the owner's page makes of it.
    abbrev pub Reaches : SendSite → Turn → ℕ → Inbox Key → Params × Submission Key → Type 0
    Reaches site t index box r =
        (kem_ct : Text) × (enc_note : Text) × (r.0
          ≡ (codes "token", b64u_encode site.token)
            ∷ (codes "id", t.new_id)
            ∷ (codes "kem_ct", kem_ct)
            ∷ (codes "enc_note", enc_note)
            ∷ [])
        × (open_delivery a kdf u (some kem) owner.kem_seed v index
              (record { id = t.new_id; kem_ct = kem_ct; enc_note = enc_note }) box
            ≡ record box {
              groups =
                  box.groups
                  ++ record {
                    id = t.new_id;
                    index = index;
                    keys = r.1.keys;
                    from = Value.str (take 200 t.from);
                    message = Value.str (take 1000 t.message);
                  }
                    ∷ [];
            })

    noted :
        (t : Turn) (keys : SubmissionKeys Key) (params : Params)
        → (length t.from + length t.message == 0) ≡ false
        → note_params a kdf u t keys ≡ ok params
        → (note : Bytes) × (seal_note a u t.note_nonce keys.note t.new_id t.from t.message
            ≡ ok note)
          × ((codes "enc_note", b64u_encode note) ∷ [] ≡ params)
    unfolding note_params
    noted t keys params written e =
        let (note, seals, same) =
          >>=-eq-ok (seal_note a u t.note_nonce keys.note t.new_id t.from t.message) _
            (rw (note_params, written) at e) in
        (note, seals, ok-injective same)

    reads :
        (t : Turn) (index : ℕ) (box : Inbox Key) (ct note : Bytes) (keys : SubmissionKeys Key)
        → derive_delivery a kdf u (some kem) owner.kem_seed v (b64u_encode ct) ≡ ok keys
        → seal_note a u t.note_nonce keys.note t.new_id t.from t.message ≡ ok note
        → AreBytes note
        → length t.note_nonce ≡ seal_nonce
        → IsText t.from
        → IsText t.message
        → open_delivery a kdf u
            (some kem)
            owner.kem_seed
            v
            index
            (record { id = t.new_id; kem_ct = b64u_encode ct; enc_note = b64u_encode note })
            box
          ≡ record box {
            groups =
                box.groups
                ++ record {
                  id = t.new_id;
                  index = index;
                  keys = keys;
                  from = Value.str (take 200 t.from);
                  message = Value.str (take 1000 t.message);
                }
                  ∷ [];
          }
    unfolding open_delivery
    reads t index box ct note keys derived seals bytes hn hf hm =
        let opens =
          open_note-seal_note a u t.note_nonce keys.note t.new_id t.from t.message note hn hf hm
            seals in
        let read =
          note_read (b64u_encode note) keys t.new_id _ _ note (b64u_decode-b64u_encode note bytes)
            opens in
        rw (open_delivery, derived, read) refl

    -- A sender who has written a name or a message sends them with the request of a new delivery,
    -- and the owner of the drop, from that request's fields, derives the sender's keys and reads
    -- the name and the message, cut to 200 and 1,000 code units. The page has the owner's key, the
    -- server keeps the delivery's id, the nonce has 12 bytes, the ciphertext of the KEM is bytes
    -- and so is the note under any key, and the name and the message are texts.
    pub delivery_read :
        (site : SendSite) (t : Turn) (r : Params × Submission Key) (index : ℕ) (box : Inbox Key)
        → IsOwners a kdf u kem owner v site
        → open_submission a kdf u site t ≡ ok r
        → (length t.from + length t.message == 0) ≡ false
        → AreBytes r.1.ct
        → ((k : Key) (note : Bytes)
            → seal_note a u t.note_nonce k t.new_id t.from t.message ≡ ok note
            → AreBytes note)
        → length t.note_nonce ≡ seal_nonce
        → IsText t.from
        → IsText t.message
        → Reaches site t index box r
    unfolding open_submission
    delivery_read site t r index box o e written ct_bytes note_bytes hn hf hm =
        let (enc, e0, e1) = >>=-eq-ok (drop_encapsulate site.kem t.coins site.public_key) _ e in
        let (keys, e2, e3) =
          >>=-eq-ok (derive_submission_keys a kdf u enc.ss enc.ct site.version) _ e1 in
        let (params, e4, e5) = >>=-eq-ok (note_params a kdf u t keys) _ e3 in
        let (id, e6, e7) = >>=-eq-ok (check_opened t.open_answer) _ e5 in
        let made = ok-injective e7 in
        let (note, seals, sent) = noted t keys params written e4 in
        let new : Submission Key = record {
          id = id;
          keys = keys;
          roster = [];
          seq = 0;
          ct = enc.ct;
        } in
        let head : Params =
          (codes "token", b64u_encode site.token)
          ∷ (codes "id", t.new_id)
          ∷ (codes "kem_ct", b64u_encode enc.ct)
          ∷ params in
        let derived =
          delivery_derives site t (head, new) o (e ∙ ap ok (sym made))
            (subst (λ x. AreBytes x.1.ct) (sym made) ct_bytes) in
        subst (Reaches site t index box) made (
          b64u_encode enc.ct,
          b64u_encode note,
          ap
              (λ p.
                (codes "token", b64u_encode site.token)
                ∷ (codes "id", t.new_id)
                ∷ (codes "kem_ct", b64u_encode enc.ct)
                ∷ p)
              (sym sent),
          reads t index box enc.ct note keys derived seals (note_bytes keys.note note seals) hn hf
              hm,
        )
