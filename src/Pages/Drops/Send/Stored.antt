-- ===== src/Pages/Drops/Send/Stored.antt =====
-- The files of a delivery that the server has stored.
use k_quickshare.Base.{◌>>=◌}
use k_quickshare.Base.{
  append_assoc, append-nil, ok-injective, >>=-eq-ok, Result, if◌then◌else◌, ◌++◌, ◌∷◌, [], List,
  Option, some, none, Bool, true, false, ◌&&◌, ℕ, ok, err, refl, ◌≡◌, ◌∙◌, ap, sym, map, ltb,
  Bool-cases, Result-cases, inl, inr,
}
use k_quickshare.Json.{Text}
use k_quickshare.E2e.Platform.{Aead, Kdf, Utf8}
use k_quickshare.Pages.Drops.Send.{
  check_opened, note_params, SentFile, SendSite, SendPage, Submission, Turn, Upload, StoreAnswer,
  send_one, send_all, ensure_submission, seal_parcel, store_file, enter_file, parcel_entry,
  open_submission,
}
use k_quickshare.Pages.Upload.Options.{Params}
use k_quickshare.E2e.Keys.{derive_submission_keys, drop_encapsulate}

-- What an entry says of its file.
abbrev pub said : SentFile → Option Text × Text × ℕ
said m = (m.id, m.name, m.size)

said-append :
    (xs : List SentFile) (m : SentFile) → map said (xs ++ m ∷ []) ≡ map said xs ++ said m ∷ []
said-append [] m = refl
said-append (x ∷ xs) m = ap (λ l. said x ∷ l) (said-append xs m)

module _ (a : Aead) (kdf : Kdf) (u : Utf8) where
  open a use {Key}

  -- Whether a file is sent: it is not too large, a submission is open, and it is sealed.
  abbrev pub is_sent : SendSite → Turn → Upload → SendPage Key → Bool
  is_sent site t f page =
      if ltb 0 site.max_upload && ltb site.max_upload f.contents.size
      then false
      else elim (ensure_submission a kdf u site t page) [
        | err e ↦ false
        | ok sub ↦ elim (seal_parcel a kdf u t.draws sub f) [ err e ↦ false | ok parcel ↦ true ]
      ]

  -- The file, with the id that the server has answered, where it was sent and stored.
  abbrev pub stored_file : StoreAnswer → Upload → List (Option Text × Text × ℕ)
  stored_file (StoreAnswer.stored id) f = (id, f.name, f.contents.size) ∷ []
  stored_file answer f = []

  -- The files of a visit that were stored, in their order.
  abbrev pub stored_files :
      SendSite → List (Turn × Upload) → SendPage Key → List (Option Text × Text × ℕ)
  stored_files site [] page = []
  stored_files site ((t, f) ∷ ts) page =
      (if is_sent site t f page then stored_file t.store_answer f else [])
      ++ stored_files site ts (send_one a kdf u site t f page).0

  -- What the entries of the page's submission say.
  abbrev pub listed : Option (Submission Key) → List (Option Text × Text × ℕ)
  listed none = []
  listed (some sub) = map said sub.roster

  open_submission-empty :
      (site : SendSite) (t : Turn) (r : Params × Submission Key)
      → open_submission a kdf u site t ≡ ok r
      → r.1.roster ≡ []
  unfolding open_submission
  open_submission-empty site t r e =
      let (enc, e0, e1) = >>=-eq-ok (drop_encapsulate site.kem t.coins site.public_key) _ e in
      let (keys, e2, e3) =
        >>=-eq-ok (derive_submission_keys a kdf u enc.ss enc.ct site.version) _ e1 in
      let (note, e4, e5) = >>=-eq-ok (note_params a kdf u t keys) _ e3 in
      let (id, e6, e7) = >>=-eq-ok (check_opened t.open_answer) _ e5 in
      ap (λ x. x.1.roster) (sym (ok-injective e7))

  open-listed :
      (site : SendSite) (t : Turn) (page : SendPage Key) (sub : Submission Key)
      → ensure_submission a kdf u site t page ≡ ok sub
      → listed (some sub) ≡ listed page.submission
  unfolding ensure_submission
  open-listed site t page sub e = go page.submission e
    where
      go :
          (s : Option (Submission Key))
          → (elim s as (λ _. Result (Submission Key)) [
            | some x ↦ ok x
            | none ↦ open_submission a kdf u site t >>= λ r. ok r.1
          ])
            ≡ ok sub
          → listed (some sub) ≡ listed s
      go (some x) h = ap (λ y. listed (some y)) (sym (ok-injective h))
      go none h =
          let (r, opened, same) = >>=-eq-ok (open_submission a kdf u site t) _ h in
          ap (λ y. listed (some y)) (sym (ok-injective same))
          ∙ ap (map said) (open_submission-empty site t r opened)

  enter-listed :
      (t : Turn) (sub : Submission Key) (f : Upload) (page : SendPage Key) (id : Option Text)
      → listed (enter_file a kdf u t sub (parcel_entry a kdf u t.draws sub f id) page).0.submission
        ≡ listed (some sub) ++ stored_file (StoreAnswer.stored id) f
  unfolding enter_file parcel_entry
  enter-listed t sub f page id =
      let grown = said-append sub.roster (parcel_entry a kdf u t.draws sub f id) in
      elim (Bool-cases t.roster_stored) [
        | inl e ↦ rw (enter_file, e) grown
        | inr e ↦ rw (enter_file, e) grown
      ]

  store-listed :
      (t : Turn) (sub : Submission Key) (f : Upload) (page : SendPage Key) (x : StoreAnswer)
      → t.store_answer ≡ x
      → page.submission ≡ some sub
      → listed (store_file a kdf u t sub f page).0.submission ≡ listed (some sub) ++ stored_file x f
  unfolding store_file
  store-listed t sub f page StoreAnswer.lost e is =
      rw (store_file, e) (ap listed is ∙ sym (append-nil _))
  store-listed t sub f page StoreAnswer.unreadable e is =
      rw (store_file, e) (ap listed is ∙ sym (append-nil _))
  store-listed t sub f page (StoreAnswer.refused code) e is =
      rw (store_file, e) (ap listed is ∙ sym (append-nil _))
  store-listed t sub f page (StoreAnswer.stored id) e is =
      rw (store_file, e) (enter-listed t sub f page id)

  send-listed :
      (site : SendSite) (t : Turn) (f : Upload) (page : SendPage Key)
      → listed (send_one a kdf u site t f page).0.submission
        ≡ listed page.submission
          ++ (if is_sent site t f page then stored_file t.store_answer f else [])
  unfolding send_one
  send-listed site t f page =
      elim (Bool-cases (ltb 0 site.max_upload && ltb site.max_upload f.contents.size)) [
        | inl big ↦ rw (send_one, big) (sym (append-nil _))
        | inr fits ↦ elim (Result-cases (ensure_submission a kdf u site t page)) [
          | inr (e, no_sub) ↦ rw (send_one, fits, no_sub) (sym (append-nil _))
          | inl (sub, has) ↦
              let same = open-listed site t page sub has in
              elim (Result-cases (seal_parcel a kdf u t.draws sub f)) [
                | inr (e, bad) ↦ rw (send_one, fits, has, bad) (same ∙ sym (append-nil _))
                | inl (parcel, good) ↦
                    rw (send_one, fits, has, good)
                      (store-listed t sub f (record page { submission = some sub }) t.store_answer
                          refl refl
                        ∙ ap (λ l. l ++ stored_file t.store_answer f) same)
              ]
        ]
      ]

  -- The entries of the submission are those that were there, and the files that were stored since.
  pub sends-listed :
      (site : SendSite) (ts : List (Turn × Upload)) (page : SendPage Key)
      → listed (send_all a kdf u site ts page).submission
        ≡ listed page.submission ++ stored_files site ts page
  unfolding send_all
  sends-listed site [] page = sym (append-nil _)
  sends-listed site ((t, f) ∷ ts) page =
      sends-listed site ts (send_one a kdf u site t f page).0
      ∙ ap (λ l. l ++ stored_files site ts (send_one a kdf u site t f page).0)
          (send-listed site t f page)
      ∙ append_assoc (listed page.submission) _ _
