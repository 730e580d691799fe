-- ===== src/Pages/Drops/Send/Rosters.antt =====
-- The rosters of a delivery, and who opens them.
use k_quickshare.Base.{
  map, arith, ◌++◌, ◌&&◌, inr, inl, refl, ◌+◌, network_error, syntax_error, Result-cases,
  length-append, All, Bool-cases, ltb, ◌∷◌, [], List, some, none, Option, subst, ◌∙◌, ap₂, ap, sym,
  ℕ, ok, ok-injective, >>=-eq-ok, Result, length, Bytes, ◌≡◌,
}
use k_quickshare.E2e.Platform.{Coercion, Kem, Utf8, Kdf, Aead}
use k_quickshare.Base.{◌>>=◌}
use k_quickshare.E2e.Keys.{
  derive_submission_keys, drop_encapsulate, drop_decapsulate, derive_drop_owner_keys, OwnerKeys,
}
use k_quickshare.Pages.Drops.Send.{
  delivery_json, SentFile, parcel_entry, refused_outcome, Outcome, new_page, seal_parcel,
  StoreAnswer, Upload, send_one, store_file, send_all, check_opened, note_params, SendPage, Turn,
  RosterPost, enter_file, open_submission, ensure_submission, Submission, SendSite,
}
use k_quickshare.E2e.{seal_nonce}
use k_quickshare.Pages.Upload.Options.{Params}
use k_quickshare.E2e.Blobs.{open_roster, seal_roster}
use k_quickshare.E2e.Base64.{b64u_encode}
use k_quickshare.E2e.Keys.Agree.{encapsulation_opens}
use k_quickshare.Json.Steps.{IsText}
use k_quickshare.Json.{value}
use k_quickshare.Pages.Drops.Send.Stored.{listed, sends-listed, stored_files, said}
use k_quickshare.Pages.Drops.Send.Entries.{open_roster-delivery, SentHasTexts}

module _ (a : Aead) (kdf : Kdf) (u : Utf8) (kem : Kem) (owner : OwnerKeys) (v : ℕ) where
  open a use {Key}

  -- The owner derives a submission's keys from its ciphertext.
  abbrev pub IsKeyed : Submission Key → Type 0
  IsKeyed sub =
      (drop_decapsulate (some kem) owner.kem_seed sub.ct >>= λ ss.
      derive_submission_keys a kdf u ss sub.ct v)
      ≡ ok sub.keys

  -- The newest roster that was sent has all members of the submission.
  abbrev pub IsNewest : Submission Key → List RosterPost → Type 0
  IsNewest sub [] = sub.roster ≡ []
  IsNewest sub (p ∷ ps) =
      (p.to ≡ sub.id)
      × (p.seq ≡ length sub.roster)
      × ((nonce : Bytes) × (length nonce ≡ seal_nonce)
          × (p.roster
              ≡ b64u_encode (
                  seal_roster a u nonce sub.keys.roster sub.id
                    (delivery_json sub.id (length sub.roster) sub.roster))))

  abbrev pub IsDelivery : Option (Submission Key) → List RosterPost → Type 0
  IsDelivery none ps = ps ≡ []
  IsDelivery (some sub) ps = (sub.seq ≡ length sub.roster) × IsKeyed sub × IsNewest sub ps

  -- A page of the owner's drop.
  abbrev pub IsOwners : SendSite → Type 0
  IsOwners site = (site.kem ≡ some kem) × (site.public_key ≡ owner.public_key) × (site.version ≡ v)

  module _ (secret : Bytes)
      (owns : derive_drop_owner_keys a kdf u (some kem) secret v ≡ ok owner) where
    pub open_submission-IsKeyed :
        (site : SendSite) (t : Turn) (r : Params × Submission Key)
        → IsOwners site
        → open_submission a kdf u site t ≡ ok r
        → IsKeyed r.1 × (r.1.roster ≡ []) × (r.1.seq ≡ 0)
    unfolding open_submission
    open_submission-IsKeyed site t r (is_kem, is_key, is_version) e =
        let (enc, e0, e1) = >>=-eq-ok (drop_encapsulate site.kem t.coins site.public_key) _ e in
        let (keys, e2, e3) =
          >>=-eq-ok (derive_submission_keys a kdf u enc.ss enc.ct site.version) _ e1 in
        let (note, e4, e5) = >>=-eq-ok (note_params a kdf u t keys) _ e3 in
        let (id, e6, e7) = >>=-eq-ok (check_opened t.open_answer) _ e5 in
        let made = ok-injective e7 in
        let opened =
          encapsulation_opens a kdf u kem secret t.coins v owner enc owns
            (ap₂ (λ m k. drop_encapsulate m t.coins k) (sym is_kem) (sym is_key) ∙ e0) in
        let keyed : (drop_decapsulate (some kem) owner.kem_seed enc.ct >>= λ ss.
        derive_submission_keys a kdf u ss enc.ct v)
            ≡ ok keys =
          rw opened
            (ap (λ w. derive_submission_keys a kdf u enc.ss enc.ct w) (sym is_version) ∙ e2) in
        (
          subst (λ x. IsKeyed x.1) made keyed,
          ap (λ x. x.1.roster) (sym made),
          ap (λ x. x.1.seq) (sym made),
        )

    ensure-IsDelivery :
        (site : SendSite) (t : Turn) (page : SendPage Key) (sub : Submission Key)
        → IsOwners site
        → IsDelivery page.submission page.posts
        → ensure_submission a kdf u site t page ≡ ok sub
        → IsDelivery (some sub) page.posts
    unfolding ensure_submission
    ensure-IsDelivery site t page sub o h e = go page.submission h e
      where
        go :
            (s : Option (Submission Key))
            → IsDelivery s page.posts
            → (elim s as (λ _. Result (Submission Key)) [
              | some x ↦ ok x
              | none ↦ open_submission a kdf u site t >>= λ r. ok r.1
            ])
              ≡ ok sub
            → IsDelivery (some sub) page.posts
        go (some x) h e = subst (λ y. IsDelivery (some y) page.posts) (ok-injective e) h
        go none h e =
            let (r, opened, same) = >>=-eq-ok (open_submission a kdf u site t) _ e in
            let (keyed, empty, zero_seq) = open_submission-IsKeyed site t r o opened in
            subst (λ y. IsDelivery (some y) page.posts) (ok-injective same)
              (zero_seq ∙ sym (ap length empty), keyed, subst (IsNewest r.1) (sym h) empty)

    enter-IsDelivery :
        (t : Turn) (sub : Submission Key) (m : SentFile) (page : SendPage Key)
        → length t.roster_nonce ≡ seal_nonce
        → IsDelivery (some sub) page.posts
        → let p = (enter_file a kdf u t sub m page).0 in IsDelivery p.submission p.posts
    unfolding enter_file
    enter-IsDelivery t sub m page h (s, keyed, newest) =
        let files = sub.roster ++ m ∷ [] in
        let grown : Submission Key = record sub { roster = files; seq = sub.seq + 1 } in
        let longer : length files ≡ length sub.roster + 1 = length-append sub.roster (m ∷ []) in
        let count : sub.seq + 1 ≡ length files = omega arith in
        let post : RosterPost = record {
          to = sub.id;
          roster = b64u_encode (
              seal_roster a u t.roster_nonce sub.keys.roster sub.id
                (delivery_json sub.id (sub.seq + 1) files));
          seq = sub.seq + 1;
        } in
        let sent : IsDelivery (some grown) (post ∷ page.posts) = (
          count,
          keyed,
          (
            refl,
            count,
            (
              t.roster_nonce,
              h,
              ap
                  (λ n. b64u_encode (
                    seal_roster a u t.roster_nonce sub.keys.roster sub.id
                      (delivery_json sub.id n files)))
                  count,
            ),
          ),
        ) in
        elim (Bool-cases t.roster_stored) [
          | inl e ↦ rw (enter_file, e) sent
          | inr e ↦ rw (enter_file, e) sent
        ]

    store-IsDelivery :
        (t : Turn) (sub : Submission Key) (f : Upload) (page : SendPage Key)
        → length t.roster_nonce ≡ seal_nonce
        → page.submission ≡ some sub
        → IsDelivery (some sub) page.posts
        → let p = (store_file a kdf u t sub f page).0 in IsDelivery p.submission p.posts
    unfolding store_file
    store-IsDelivery t sub f page h is h' = go t.store_answer
      where
        kept : IsDelivery page.submission page.posts
        kept = subst (λ x. IsDelivery x page.posts) (sym is) h'

        go :
            (x : StoreAnswer)
            → let p =
                (elim x as (λ _. SendPage Key × Outcome) [
                  | StoreAnswer.lost ↦ (page, Outcome.failed network_error)
                  | StoreAnswer.unreadable ↦ (page, Outcome.failed syntax_error)
                  | StoreAnswer.refused code ↦ (page, refused_outcome code)
                  | StoreAnswer.stored id ↦
                      enter_file a kdf u t sub (parcel_entry a kdf u t.draws sub f id) page
                ]).0 in
              IsDelivery p.submission p.posts
        go StoreAnswer.lost = kept
        go StoreAnswer.unreadable = kept
        go (StoreAnswer.refused code) = kept
        go (StoreAnswer.stored id) =
            enter-IsDelivery t sub (parcel_entry a kdf u t.draws sub f id) page h h'

    send-IsDelivery :
        (site : SendSite) (t : Turn) (f : Upload) (page : SendPage Key)
        → IsOwners site
        → length t.roster_nonce ≡ seal_nonce
        → IsDelivery page.submission page.posts
        → let p = (send_one a kdf u site t f page).0 in IsDelivery p.submission p.posts
    unfolding send_one
    send-IsDelivery site t f page o h d =
        elim (Bool-cases (ltb 0 site.max_upload && ltb site.max_upload f.contents.size)) [
          | inl big ↦ rw (send_one, big) d
          | inr fits ↦ elim (Result-cases (ensure_submission a kdf u site t page)) [
            | inr (e, no_sub) ↦ rw (send_one, fits, no_sub) d
            | inl (sub, has) ↦
                let d' = ensure-IsDelivery site t page sub o d has in
                elim (Result-cases (seal_parcel a kdf u t.draws sub f)) [
                  | inr (e, bad) ↦ rw (send_one, fits, has, bad) d'
                  | inl (parcel, good) ↦
                      rw (send_one, fits, has, good)
                        (store-IsDelivery t sub f (record page { submission = some sub }) h refl d')
                ]
          ]
        ]

    sends-IsDelivery :
        (site : SendSite) (ts : List (Turn × Upload)) (page : SendPage Key)
        → IsOwners site
        → All (λ t. length t.0.roster_nonce ≡ seal_nonce) ts
        → IsDelivery page.submission page.posts
        → let p = send_all a kdf u site ts page in IsDelivery p.submission p.posts
    unfolding send_all
    sends-IsDelivery site [] page o h d = d
    sends-IsDelivery site ((t, f) ∷ ts) page o (h, hs) d =
        sends-IsDelivery site ts _ o hs (send-IsDelivery site t f page o h d)

    opens_newest :
        (co : Coercion) (sub : Submission Key) (p : RosterPost) (ps : List RosterPost)
        → IsText sub.id
        → All SentHasTexts sub.roster
        → IsDelivery (some sub) (p ∷ ps)
        → (blob : Bytes) × (p.roster ≡ b64u_encode blob)
          × (p.to ≡ sub.id)
          × (p.seq ≡ length sub.roster)
          × ((drop_decapsulate (some kem) owner.kem_seed sub.ct >>= λ ss.
                derive_submission_keys a kdf u ss sub.ct v >>= λ keys.
                open_roster a u co keys.roster sub.id (some blob))
              ≡ ok (value (delivery_json sub.id p.seq sub.roster)))
    opens_newest co sub p ps hid hfiles (s, keyed, (to, seq, (nonce, hn, sealed))) =
        let (ss, decapsulated, derived) =
          >>=-eq-ok (drop_decapsulate (some kem) owner.kem_seed sub.ct) _ keyed in
        let blob : Bytes =
          seal_roster a u nonce sub.keys.roster sub.id
            (delivery_json sub.id (length sub.roster) sub.roster) in
        let opens =
          open_roster-delivery a u co nonce sub.keys.roster sub.id (length sub.roster) sub.roster hn
            hid hfiles in
        (blob, sealed, to, seq, rw (decapsulated, derived, seq) opens)

    -- Whatever the server answers to the files that a visitor sends, the owner of the drop derives
    -- the delivery's keys from its ciphertext, and with them opens the newest roster that was sent:
    -- it has the delivery's id and number, and an entry for every file that was stored and for no
    -- other, in their order, with the id that the server has answered, the name and the size. The
    -- page has the owner's key, the nonces have 12 bytes, and the ids and the entries' fields are
    -- texts.
    pub delivery_roster_opens :
        (co : Coercion) (site : SendSite) (ts : List (Turn × Upload)) (sub : Submission Key)
        (p : RosterPost) (ps : List RosterPost)
        → IsOwners site
        → All (λ t. length t.0.roster_nonce ≡ seal_nonce) ts
        → (send_all a kdf u site ts new_page).submission ≡ some sub
        → (send_all a kdf u site ts new_page).posts ≡ p ∷ ps
        → IsText sub.id
        → All SentHasTexts sub.roster
        → (blob : Bytes) × (p.roster ≡ b64u_encode blob)
          × (p.to ≡ sub.id)
          × (p.seq ≡ length sub.roster)
          × (map said sub.roster ≡ stored_files a kdf u site ts new_page)
          × ((drop_decapsulate (some kem) owner.kem_seed sub.ct >>= λ ss.
                derive_submission_keys a kdf u ss sub.ct v >>= λ keys.
                open_roster a u co keys.roster sub.id (some blob))
              ≡ ok (value (delivery_json sub.id p.seq sub.roster)))
    delivery_roster_opens co site ts sub p ps o h is posts hid hfiles =
        let all = sends-IsDelivery site ts new_page o h refl in
        let (blob, sealed, to, seq, opens) = opens_newest co sub p ps hid hfiles (
          subst (λ x. IsDelivery x (p ∷ ps)) is
            (subst (λ x. IsDelivery (send_all a kdf u site ts new_page).submission x) posts all)) in
        let entered = sends-listed a kdf u site ts new_page in
        (blob, sealed, to, seq, ap (listed a kdf u) (sym is) ∙ entered, opens)
