-- ===== src/Pages/Upload/Links/Sent.antt =====
-- The rosters that the upload page sends for its link.
use k_quickshare.Base.{
  ok, take-all, take, Bytes, arith, ◌∷◌, [], some, none, inr, inl, ◌⊎◌, subst, refl, ◌≡◌, ◌≤◌, All,
  length, List,
}
use k_quickshare.E2e.Platform.{Coercion, Utf8, Kdf, Aead}
use k_quickshare.Pages.Upload.Links.{
  Post, Recording, on_link_event, new_pad, on_link_events, LinkEvent, Pad,
}
use k_quickshare.Json.{value, Text}
use k_quickshare.Pages.Upload.Links.Rosters.{
  IsLinked, IsFresh, IsFresh-step, IsRecording, ArePosted, on_link_event-IsAhead, IsOneLink,
  IsAhead,
}
use k_quickshare.E2e.Blobs.{roster_json, open_roster, Member}
use k_quickshare.Json.Steps.{IsText}
use k_quickshare.E2e.Blobs.Contents.{MemberHasTexts}
use k_quickshare.E2e.Base64.{b64u_encode}
use k_quickshare.E2e.Blobs.RoundTrip.{open_roster-seal_roster}
use k_quickshare.Pages.Upload.Links.Records.{IsLinked-step}

module _ (a : Aead) (kdf : Kdf) (u : Utf8) where
  open a use {Key}

  -- The page's link after some events.
  abbrev pub link_after : List (LinkEvent a kdf u) → Pad Key
  link_after es = on_link_events a kdf u es new_pad

  events-IsAhead :
      (es : List (LinkEvent a kdf u)) (pad : Pad Key)
      → IsAhead a kdf u pad
      → IsAhead a kdf u (on_link_events a kdf u es pad)
  unfolding on_link_events
  events-IsAhead [] pad h = h
  events-IsAhead (e ∷ es) pad h =
      events-IsAhead es (on_link_event a kdf u e pad) (on_link_event-IsAhead a kdf u e pad h)

  -- Whatever happens, the number of a link's roster is at least the count of its members.
  pub roster_seq_ahead :
      (es : List (LinkEvent a kdf u))
      → let link = (on_link_events a kdf u es new_pad).link in length link.roster ≤ link.roster_seq
  roster_seq_ahead es = events-IsAhead es new_pad (omega arith)

  abbrev pub IsConsistent : Pad Key → Type 0
  IsConsistent pad = IsFresh a kdf u pad ⊎ ((id : Text) × (k : Key) × IsLinked a kdf u id k pad)

  events-IsConsistent :
      (es : List (LinkEvent a kdf u)) (pad : Pad Key)
      → All (IsOneLink a kdf u) es
      → IsConsistent pad
      → IsConsistent (on_link_events a kdf u es pad)
  unfolding on_link_events
  events-IsConsistent [] pad one h = h
  events-IsConsistent (e ∷ es) pad (one, ones) (inl h) =
      events-IsConsistent es _ ones (IsFresh-step a kdf u e pad one h)
  events-IsConsistent (e ∷ es) pad (one, ones) (inr (id, k, h)) =
      events-IsConsistent es _ ones (inr (id, k, IsLinked-step a kdf u id k e pad one h))

  reached :
      (es : List (LinkEvent a kdf u))
      → All (IsOneLink a kdf u) es
      → IsConsistent (on_link_events a kdf u es new_pad)
  reached es ones =
      events-IsConsistent es new_pad ones (inl (refl, refl, refl, refl, inl (refl, refl)))

  pending_one :
      (pad : Pad Key)
      → IsConsistent pad
      → (length pad.pending ≤ 1) × ((pad.link.id ≡ none) ⊎ (pad.pending ≡ []))
  pending_one pad (inl (i, k, r, p, inl (c, q))) = (grind arith, inl i)
  pending_one pad (inl (i, k, r, p, inr (n, o, c, q))) = (grind arith, inl i)
  pending_one pad (inr (id, k, (i, r, p, s, rec))) = (grind arith, inr p)

  -- As long as no new link is started, at most one creation is under way at a time, and none once
  -- there is a link.
  pub one_creation :
      (es : List (LinkEvent a kdf u))
      → All (IsOneLink a kdf u) es
      → let pad = on_link_events a kdf u es new_pad in
        (length pad.pending ≤ 1) × ((pad.link.id ≡ none) ⊎ (pad.pending ≡ []))
  one_creation es ones = pending_one (on_link_events a kdf u es new_pad) (reached es ones)

  idle_posted :
      (pad : Pad Key) (id : Text) (k : Key)
      → IsConsistent pad
      → pad.link.id ≡ some id
      → pad.link.roster_key ≡ some k
      → pad.recording ≡ Recording.idle
      → ArePosted a kdf u id k pad.link.roster (length pad.link.roster) pad.posts
  idle_posted pad id k (inl (i, r, e, p, c)) hi hk idle = absurd cc
  idle_posted pad id k (inr (id', k', (i, r, p, s, rec))) hi hk idle =
      let ids : id' ≡ id = cc in
      let keys : k' ≡ k = cc in
      subst (λ x. ArePosted a kdf u x k pad.link.roster (length pad.link.roster) pad.posts) ids
        (subst (λ x. ArePosted a kdf u id' x pad.link.roster (length pad.link.roster) pad.posts)
          keys (subst (λ now. IsRecording a kdf u id' k' pad.link pad.posts now) idle rec))

  -- Between two calls of recordMember the server has been sent the link's member list after each
  -- addition, sealed for the link with the numbers 1, 2 and so on, the newest with every member.
  -- The button for a new link was not pressed, and the nonces have 12 bytes.
  pub rosters_posted :
      (es : List (LinkEvent a kdf u)) (id : Text) (k : Key)
      → All (IsOneLink a kdf u) es
      → (link_after es).link.id ≡ some id
      → (link_after es).link.roster_key ≡ some k
      → (link_after es).recording ≡ Recording.idle
      → ArePosted a kdf u id k
          (link_after es).link.roster
          (length (link_after es).link.roster)
          (link_after es).posts
  rosters_posted es id k ones hi hk idle =
      idle_posted (link_after es) id k (reached es ones) hi hk idle

  newest_opens :
      (co : Coercion) (id : Text) (k : Key) (files : List Member) (p : Post) (ps : List Post)
      → IsText id
      → All MemberHasTexts files
      → ArePosted a kdf u id k files (length files) (p ∷ ps)
      → (blob : Bytes) × (p.roster ≡ b64u_encode blob)
        × (p.seq ≡ length files)
        × (open_roster a u co k id (some blob) ≡ ok (value (roster_json id (length files) files)))
  newest_opens co id k files p ps hid hfiles
        (pos, seq, to, (blob, named, (nonce, hn, sealed)), rest) =
      let all : take (length files) files ≡ files = take-all (length files) files (omega arith) in
      (
        blob,
        named,
        seq,
        rw (sealed, all)
            (open_roster-seal_roster a u co nonce k id (length files) files hn hid hfiles),
      )

  -- Between two calls of recordMember the newest roster that was sent is opened, by openRoster with
  -- the link's key and for its batch, to the list of all members so far. The button for a new link
  -- was not pressed, the nonces have 12 bytes, and the id and the members' fields are texts.
  pub newest_roster_opens :
      (co : Coercion) (es : List (LinkEvent a kdf u)) (id : Text) (k : Key) (p : Post)
      (ps : List Post)
      → All (IsOneLink a kdf u) es
      → (link_after es).link.id ≡ some id
      → (link_after es).link.roster_key ≡ some k
      → (link_after es).recording ≡ Recording.idle
      → (link_after es).posts ≡ p ∷ ps
      → IsText id
      → All MemberHasTexts (link_after es).link.roster
      → (blob : Bytes) × (p.roster ≡ b64u_encode blob)
        × (p.seq ≡ length (link_after es).link.roster)
        × (open_roster a u co k id (some blob)
            ≡ ok (
                value (
                  roster_json id (length (link_after es).link.roster) (link_after es).link.roster)))
  newest_roster_opens co es id k p ps ones hi hk idle posts hid hfiles =
      let files = (link_after es).link.roster in
      newest_opens co id k files p ps hid hfiles (
        subst (λ qs. ArePosted a kdf u id k files (length files) qs) posts
          (rosters_posted es id k ones hi hk idle))
