-- ===== src/Pages/Upload/Links/Rosters.antt =====
-- What the member list of a link and the rosters that are sent have to do with each other.
use k_quickshare.Pages.Upload.Links.{
  created, Post, Link, ensure_batch, Recording, Pad, LinkEvent, on_link_event,
}
use k_quickshare.E2e.Platform.{Aead, Kdf, Utf8}
use k_quickshare.Base.{
  Option, inr, suc, zero, ok, err, ◌∷◌, [], List, some, none, inl, ◌⊎◌, ◌≡◌, ◌<◌, ◌-◌, ℕ, Result,
  take, Bytes, length-append, ◌≤◌, arith, length,
}
use k_quickshare.E2e.{seal_nonce}
use k_quickshare.Json.{Text}
use k_quickshare.E2e.Blobs.{roster_json, seal_roster, Member}
use k_quickshare.Pages.Upload.Options.{Opening}
use k_quickshare.E2e.Base64.{b64u_encode}

module _ (a : Aead) (kdf : Kdf) (u : Utf8) where
  open a use {Key}

  -- The number is never behind the list: a list that has grown has a higher number than before.
  abbrev pub IsAhead : Pad Key → Type 0
  IsAhead pad = length pad.link.roster ≤ pad.link.roster_seq

  pub on_link_event-IsAhead :
      (e : LinkEvent a kdf u) (pad : Pad Key) → IsAhead pad → IsAhead (on_link_event a kdf u e pad)
  unfolding on_link_event
  on_link_event-IsAhead e pad h = grind (arith, length-append)

  -- The roster `files` of a link, sealed under a number and a nonce of the right length.
  abbrev pub IsSealed : Text → Key → ℕ → List Member → Bytes → Type 0
  IsSealed id k seq files blob =
      (nonce : Bytes) × (length nonce ≡ seal_nonce)
      × (blob ≡ seal_roster a u nonce k id (roster_json id seq files))

  -- The requests so far: the newest has the number `n` and the first `n` members, the one before it
  -- one less, down to 1.
  abbrev pub ArePosted : Text → Key → List Member → ℕ → List Post → Type 0
  ArePosted id k files n [] = n ≡ 0
  ArePosted id k files n (p ∷ ps) =
      (0 < n)
      × (p.seq ≡ n)
      × (p.to ≡ some id)
      × ((blob : Bytes) × (p.roster ≡ b64u_encode blob) × IsSealed id k n (take n files) blob)
      × ArePosted id k files (n - 1) ps

  abbrev pub IsRecording : Text → Key → Link Key → List Post → Recording → Type 0
  IsRecording id k link posts (Recording.hashing job array) =
      (array ≡ link.array) × ArePosted id k link.roster (length link.roster) posts
  IsRecording id k link posts (Recording.sealing blob) =
      (0 < length link.roster)
      × IsSealed id k (length link.roster) link.roster blob
      × ArePosted id k link.roster (length link.roster - 1) posts
  IsRecording id k link posts _ = ArePosted id k link.roster (length link.roster) posts

  -- Before the link there is none of it, and at most one creation is under way.
  abbrev pub IsFresh : Pad Key → Type 0
  IsFresh pad =
      (pad.link.id ≡ none)
      × (pad.link.roster_key ≡ none)
      × (pad.recording ≡ Recording.idle)
      × (pad.posts ≡ [])
      × (((pad.link.creating ≡ none) × (pad.pending ≡ []))
          ⊎ ((n : ℕ) × (o : Result (Opening Key)) × (pad.link.creating ≡ some n)
              × (pad.pending ≡ o ∷ [])))

  abbrev pub IsLinked : Text → Key → Pad Key → Type 0
  IsLinked id k pad =
      (pad.link.id ≡ some id)
      × (pad.link.roster_key ≡ some k)
      × (pad.pending ≡ [])
      × (pad.link.roster_seq ≡ length pad.link.roster)
      × IsRecording id k pad.link pad.posts pad.recording

  -- The button for a new link is not pressed, and the nonces have 12 bytes.
  abbrev pub IsOneLink : LinkEvent a kdf u → Type 0
  IsOneLink LinkEvent.reset = ⊥
  IsOneLink (LinkEvent.digested nonce) = length nonce ≡ seal_nonce
  IsOneLink _ = Unit

  ensure-IsFresh :
      (o : Result (Opening Key)) (pad : Pad Key) → IsFresh pad → IsFresh (ensure_batch o pad)
  unfolding ensure_batch
  ensure-IsFresh o pad h = grind arith

  created-IsFresh :
      (i : ℕ) (answer : Option Text) (pad : Pad Key)
      → IsFresh pad
      → IsFresh (created i answer pad)
        ⊎ ((id : Text) × (k : Key) × IsLinked id k (created i answer pad))
  unfolding created
  created-IsFresh i answer pad (h, k, r, p, inl (c, q)) = inl (grind arith)
  created-IsFresh (suc i) answer pad (h, k, r, p, inr (n, o, c, q)) = inl (grind arith)
  created-IsFresh zero answer pad (h, k, r, p, inr (n, err e, c, q)) = inl (grind arith)
  created-IsFresh zero none pad (h, k, r, p, inr (n, ok o, c, q)) = inl (grind arith)
  created-IsFresh zero (some id) pad (h, k, r, p, inr (n, ok o, c, q)) =
      inr (id, o.keys.roster, grind arith)

  pub IsFresh-step :
      (e : LinkEvent a kdf u) (pad : Pad Key)
      → IsOneLink e
      → IsFresh pad
      → IsFresh (on_link_event a kdf u e pad)
        ⊎ ((id : Text) × (k : Key) × IsLinked id k (on_link_event a kdf u e pad))
  unfolding on_link_event
  IsFresh-step (LinkEvent.ensure o) pad one h = inl (ensure-IsFresh o pad h)
  IsFresh-step (LinkEvent.answered i answer) pad one h = created-IsFresh i answer pad h
  IsFresh-step (LinkEvent.stored id file manifest) pad one h = inl (grind arith)
  IsFresh-step LinkEvent.next pad one h = inl (grind arith)
  IsFresh-step LinkEvent.sealed pad one h = inl (grind arith)
  IsFresh-step LinkEvent.posted pad one h = inl (grind arith)
  IsFresh-step (LinkEvent.digested nonce) pad one h = inl (grind arith)
  IsFresh-step LinkEvent.reset pad one h = absurd one
