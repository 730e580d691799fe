-- ===== src/Pages/Upload/Links/Records.antt =====
-- Each piece of `recordMember` keeps what holds of a link and its rosters.
use k_quickshare.Base.{
  arith, ◌++◌, ◌∷◌, [], List, some, subst, ap, sym, refl, ◌≡◌, ◌<◌, ◌≤◌, ◌-◌, ◌+◌, ℕ, take-all,
  take-append_front, length-append, take, length, Bytes, ==_self,
}
use k_quickshare.E2e.Platform.{Utf8, Kdf, Aead}
use k_quickshare.Pages.Upload.Links.{
  job_member, Recording, LinkEvent, Link, Post, sealing_pad, Pad, hashed, seal_link, push_member,
  post_roster, on_link_event,
}
use k_quickshare.Json.{Text}
use k_quickshare.E2e.Blobs.{roster_json, seal_roster, Member}
use k_quickshare.Pages.Upload.Links.Rosters.{IsRecording, IsSealed, IsOneLink, IsLinked, ArePosted}
use k_quickshare.E2e.{seal_nonce}

module _ (a : Aead) (kdf : Kdf) (u : Utf8) where
  open a use {Key}

  ArePosted-append :
      (id : Text) (k : Key) (files : List Member) (m : Member) (n : ℕ) (ps : List Post)
      → n ≤ length files
      → ArePosted a kdf u id k files n ps
      → ArePosted a kdf u id k (files ++ m ∷ []) n ps
  ArePosted-append id k files m n [] le h = h
  ArePosted-append id k files m n (p ∷ ps) le (pos, seq, to, (blob, named, sealed), rest) = (
    pos,
    seq,
    to,
    (
      blob,
      named,
      subst (λ t. IsSealed a kdf u id k n t blob) (sym (take-append_front n files (m ∷ []) le))
          sealed,
    ),
    ArePosted-append id k files m (n - 1) ps (omega arith) rest,
  )

  abbrev extended : Member → Link Key → Link Key
  extended m link = record link { roster = link.roster ++ m ∷ []; roster_seq = link.roster_seq + 1 }

  push_member-eq :
      (m : Member) (array : ℕ) (link : Link Key)
      → array ≡ link.array
      → push_member m array link ≡ extended m link
  unfolding push_member
  push_member-eq m array link h = rw (h, ==_self link.array) refl

  seal_link-eq :
      (id : Text) (k : Key) (nonce : Bytes) (link : Link Key)
      → link.id ≡ some id
      → link.roster_key ≡ some k
      → seal_link a kdf u nonce link
        ≡ some (seal_roster a u nonce k id (roster_json id link.roster_seq link.roster))
  unfolding seal_link
  seal_link-eq id k nonce link i r = rw (i, r) refl

  extended-IsLinked :
      (id : Text) (k : Key) (nonce : Bytes) (m : Member) (pad : Pad Key)
      → length nonce ≡ seal_nonce
      → IsLinked a kdf u id k pad
      → ArePosted a kdf u id k pad.link.roster (length pad.link.roster) pad.posts
      → let link = extended m pad.link in
        IsLinked a kdf u id k (record pad {
          link = link;
          recording =
              Recording.sealing
                (seal_roster a u nonce k id (roster_json id link.roster_seq link.roster));
        })
  extended-IsLinked id k nonce m pad h (i, r, p, s, rec) posted =
      let files = pad.link.roster in
      let longer : length (files ++ m ∷ []) ≡ length files + 1 = length-append files (m ∷ []) in
      let seq : pad.link.roster_seq + 1 ≡ length (files ++ m ∷ []) = omega arith in
      let before : length files ≡ length (files ++ m ∷ []) - 1 = omega arith in
      let kept = ArePosted-append id k files m (length files) pad.posts (omega arith) posted in
      (
        i,
        r,
        p,
        seq,
        (
          omega arith,
          (nonce, h, ap (λ n. seal_roster a u nonce k id (roster_json id n (files ++ m ∷ []))) seq),
          subst (λ n. ArePosted a kdf u id k (files ++ m ∷ []) n pad.posts) before kept,
        ),
      )

  hashed-IsLinked :
      (id : Text) (k : Key) (nonce : Bytes) (pad : Pad Key)
      → length nonce ≡ seal_nonce
      → IsLinked a kdf u id k pad
      → IsLinked a kdf u id k (hashed a kdf u nonce pad)
  unfolding hashed sealing_pad
  hashed-IsLinked id k nonce pad h (i, r, p, s, rec) = go pad.recording rec
    where
      go :
          (now : Recording)
          → IsRecording a kdf u id k pad.link pad.posts now
          → IsLinked a kdf u id k (elim now [
            | Recording.hashing job array ↦
                let link = push_member (job_member kdf job) array pad.link in
                sealing_pad (seal_link a kdf u nonce link) link pad
            | _ ↦ pad
          ])
      go Recording.idle h = (i, r, p, s, rec)
      go Recording.posting h = (i, r, p, s, rec)
      go (Recording.sealing blob) h = (i, r, p, s, rec)
      go (Recording.hashing job array) (same, posted) =
          let m = job_member kdf job in
          let link = extended m pad.link in
          subst (λ l. IsLinked a kdf u id k (sealing_pad (seal_link a kdf u nonce l) l pad))
            (sym (push_member-eq m array pad.link same))
            (subst (λ o. IsLinked a kdf u id k (sealing_pad o link pad))
              (sym (seal_link-eq id k nonce link i r))
              (extended-IsLinked id k nonce m pad h (i, r, p, s, rec) posted))

  post_roster-IsLinked :
      (id : Text) (k : Key) (blob : Bytes) (pad : Pad Key)
      → IsLinked a kdf u id k pad
      → 0 < length pad.link.roster
      → IsSealed a kdf u id k (length pad.link.roster) pad.link.roster blob
      → ArePosted a kdf u id k pad.link.roster (length pad.link.roster - 1) pad.posts
      → IsLinked a kdf u id k (post_roster blob pad)
  unfolding post_roster
  post_roster-IsLinked id k blob pad (i, r, p, s, rec) pos sealed posted =
      let files = pad.link.roster in
      let all : take (length files) files ≡ files = take-all (length files) files (omega arith) in
      (
        i,
        r,
        p,
        s,
        (
          pos,
          s,
          i,
          (blob, refl, subst (λ t. IsSealed a kdf u id k (length files) t blob) (sym all) sealed),
          posted,
        ),
      )

  sealed-IsLinked :
      (id : Text) (k : Key) (pad : Pad Key)
      → IsLinked a kdf u id k pad
      → IsLinked a kdf u id k (on_link_event a kdf u LinkEvent.sealed pad)
  unfolding on_link_event
  sealed-IsLinked id k pad (i, r, p, s, rec) = go pad.recording rec refl
    where
      go :
          (now : Recording)
          → IsRecording a kdf u id k pad.link pad.posts now
          → pad.recording ≡ now
          → IsLinked a kdf u id k
              (elim now [ Recording.sealing blob ↦ post_roster blob pad | _ ↦ pad ])
      go Recording.idle h e = (i, r, p, s, rec)
      go Recording.posting h e = (i, r, p, s, rec)
      go (Recording.hashing job array) h e = (i, r, p, s, rec)
      go (Recording.sealing blob) (pos, sealed, posted) e =
          post_roster-IsLinked id k blob pad (i, r, p, s, rec) pos sealed posted

  pub IsLinked-step :
      (id : Text) (k : Key) (e : LinkEvent a kdf u) (pad : Pad Key)
      → IsOneLink a kdf u e
      → IsLinked a kdf u id k pad
      → IsLinked a kdf u id k (on_link_event a kdf u e pad)
  unfolding on_link_event
  IsLinked-step id k (LinkEvent.ensure o) pad one h = grind arith
  IsLinked-step id k (LinkEvent.answered i answer) pad one h = grind arith
  IsLinked-step id k (LinkEvent.stored i file manifest) pad one h = grind arith
  IsLinked-step id k LinkEvent.next pad one h = grind arith
  IsLinked-step id k LinkEvent.sealed pad one h = sealed-IsLinked id k pad h
  IsLinked-step id k LinkEvent.posted pad one h = grind arith
  IsLinked-step id k (LinkEvent.digested nonce) pad one h = hashed-IsLinked id k nonce pad one h
  IsLinked-step id k LinkEvent.reset pad one h = absurd one
