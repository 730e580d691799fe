-- ===== src/Pages/Share/Once.antt =====
-- How often the page of a file asks for it.
use k_quickshare.Base.{◌⊎◌, err, All, ◌>>=◌}
use k_quickshare.Base.{
  ◌∷◌, [], List, inr, inl, subst, refl, ◌≤◌, Result-cases, Result, Error, ◌∙◌, ap, sym,
  ok-injective, arith, Option, some, none, ℕ, Bytes, ok, ◌≡◌, >>=-eq-ok,
}
use k_quickshare.E2e.Chunks.{Blob, Opened}
use k_quickshare.E2e.Platform.{Aead, Utf8, Coercion}
use k_quickshare.Pages.Share.{
  new_share, on_share_events, ShareEvent, keep_plain, fetch_returns, adopt_name, Rendered, InFlight,
  Share, get_plain, adopt, open_share,
}
use k_quickshare.E2e.Manifest.{get_field, Manifest}
use k_quickshare.Json.{Text, Value, codes}
use k_quickshare.E2e.Blobs.{or_empty}

-- An answer is among the events.
abbrev pub IsAnswer : Bytes → List ShareEvent → Type 0
IsAnswer buf [] = ⊥
IsAnswer buf (e ∷ es) = (e ≡ ShareEvent.answered (ok buf)) ⊎ IsAnswer buf es

module _ (a : Aead) (u : Utf8) (co : Coercion) (r : Rendered) (key : a.Key)
    (Answered : Bytes → Type 0) where
  -- The file was opened under the page's key, from an answer.
  abbrev IsOpened : Option Blob → Type 0
  IsOpened none = Unit {0}
  IsOpened (some b) =
      (buf : Bytes) × (out : Opened) × Answered buf
      × (open_share a u co r key buf ≡ ok out)
      × (b ≡ out.blob)

  -- Before the first call nothing was asked for, and after it the server was asked once.
  abbrev IsAsked : InFlight → ℕ → Type 0
  IsAsked InFlight.idle n = n ≡ 0
  IsAsked InFlight.fetching n = n ≡ 1
  IsAsked (InFlight.returned b) n = n ≡ 1
  IsAsked (InFlight.failed e) n = n ≡ 1

  abbrev IsOnce : Share → Type 0
  IsOnce s = IsAsked s.in_flight s.requests × IsOpened s.plain_blob

  adopt_name-keeps :
      (v : Value) (s : Share)
      → ((adopt_name v s).plain_blob ≡ s.plain_blob) × ((adopt_name v s).requests ≡ s.requests)
  unfolding adopt_name
  adopt_name-keeps v s = ground arith

  adopt-keeps :
      (m : Option Manifest) (s t : Share)
      → adopt m s ≡ ok t
      → (t.plain_blob ≡ s.plain_blob) × (t.requests ≡ s.requests)
  unfolding adopt
  adopt-keeps none s t e =
      let same = ok-injective e in
      (ap (λ x. x.plain_blob) (sym same), ap (λ x. x.requests) (sym same))
  adopt-keeps (some m) s t e =
      let (name, e0, e1) = >>=-eq-ok (get_field (codes "name") m.fields) _ e in
      let same = ok-injective e1 in
      let (kept, count) = adopt_name-keeps (or_empty name) s in
      (ap (λ x. x.plain_blob) (sym same) ∙ kept, ap (λ x. x.requests) (sym same) ∙ count)

  get-IsOnce : (s : Share) → IsOnce s → IsOnce (get_plain s)
  unfolding get_plain
  get-IsOnce s h = ground arith

  keep-IsOnce :
      (out : Opened) (buf : Bytes) (s : Share)
      → Answered buf
      → open_share a u co r key buf ≡ ok out
      → s.requests ≡ 1
      → IsOnce (keep_plain a u co out s)
  unfolding keep_plain
  keep-IsOnce out buf s given o h =
      let kept = record s { plain_blob = some out.blob } in
      elim (Result-cases (adopt out.manifest kept)) [
        | inl (t, e) ↦
            let (blob, count) = adopt-keeps out.manifest kept t e in
            rw (keep_plain, e) (count ∙ h, subst IsOpened (sym blob) (buf, out, given, o, refl))
        | inr (x, e) ↦ rw (keep_plain, e) (h, (buf, out, given, o, refl))
      ]

  answer-IsOnce :
      (answer : Result Bytes) (f : InFlight) (s : Share)
      → s.in_flight ≡ f
      → ((buf : Bytes) → answer ≡ ok buf → Answered buf)
      → IsOnce s
      → IsOnce (fetch_returns a u co r key answer s)
  unfolding fetch_returns
  answer-IsOnce answer InFlight.idle s e given h = rw (fetch_returns, e) h
  answer-IsOnce answer (InFlight.returned b) s e given h = rw (fetch_returns, e) h
  answer-IsOnce answer (InFlight.failed x) s e given h = rw (fetch_returns, e) h
  answer-IsOnce answer InFlight.fetching s e given (asked, opened) =
      let once = subst (λ f. IsAsked f s.requests) e asked in
      elim (Result-cases (answer >>= open_share a u co r key)) [
        | inl (out, k) ↦
            let (buf, e0, o) = >>=-eq-ok answer _ k in
            rw (fetch_returns, e, k) (keep-IsOnce out buf s (given buf e0) o once)
        | inr (x, k) ↦ rw (fetch_returns, e, k) (once, opened)
      ]

  -- The answers of an event.
  abbrev IsGiven : ShareEvent → Type 0
  IsGiven e = (buf : Bytes) → e ≡ ShareEvent.answered (ok buf) → Answered buf

  events-IsOnce :
      (es : List ShareEvent) (s : Share)
      → All IsGiven es
      → IsOnce s
      → IsOnce (on_share_events a u co r key es s)
  unfolding on_share_events
  events-IsOnce [] s g h = h
  events-IsOnce (ShareEvent.asked ∷ es) s (g, gs) h = events-IsOnce es _ gs (get-IsOnce s h)
  events-IsOnce (ShareEvent.answered answer ∷ es) s (g, gs) h =
      events-IsOnce es _ gs
        (answer-IsOnce answer s.in_flight s refl (λ buf e. g buf (ap ShareEvent.answered e)) h)

  asked_once : (f : InFlight) (n : ℕ) → IsAsked f n → n ≤ 1
  asked_once f n h = ground arith

events_given :
    (es : List ShareEvent)
    → All (λ e. (buf : Bytes) → e ≡ ShareEvent.answered (ok buf) → IsAnswer buf es) es
events_given [] = tt
events_given (e ∷ es) = (λ buf same. inl same, later es (events_given es))
  where
    later :
        (fs : List ShareEvent)
        → All (λ f. (buf : Bytes) → f ≡ ShareEvent.answered (ok buf) → IsAnswer buf es) fs
        → All (λ f. (buf : Bytes) → f ≡ ShareEvent.answered (ok buf) → IsAnswer buf (e ∷ es)) fs
    later [] h = tt
    later (f ∷ fs) (h, hs) = (λ buf same. inr (h buf same), later fs hs)

module _ (a : Aead) (u : Utf8) (co : Coercion) (r : Rendered) (key : a.Key) where
  -- However often the preview and the button ask for the file, and whatever is answered, the server
  -- is asked at most once, and a file that is there was opened under the page's key from bytes that
  -- the server answered.
  pub fetched_once :
      (es : List ShareEvent) (name : Text)
      → let s = on_share_events a u co r key es (new_share name) in
        (s.requests ≤ 1)
        × ((b : Blob)
            → s.plain_blob ≡ some b
            → (buf : Bytes) × (out : Opened) × IsAnswer buf es
              × (open_share a u co r key buf ≡ ok out)
              × (b ≡ out.blob))
  fetched_once es name =
      let Answered : Bytes → Type 0 = λ buf. IsAnswer buf es in
      let (asked, opened) =
        events-IsOnce a u co r key Answered es (new_share name) (events_given es) (refl, tt) in
      (
        asked_once a u co r key Answered _ _ asked,
        λ b e. subst (IsOpened a u co r key Answered) e opened,
      )

  get-stays :
      (s : Share) (x : Error)
      → s.plain_blob ≡ none
      → s.in_flight ≡ InFlight.failed x
      → get_plain s ≡ s
  unfolding get_plain
  get-stays s x empty failed = ground arith

  answer-stays :
      (answer : Result Bytes) (s : Share) (x : Error)
      → s.in_flight ≡ InFlight.failed x
      → fetch_returns a u co r key answer s ≡ s
  unfolding fetch_returns
  answer-stays answer s x failed = ground arith

  failed-stays :
      (es : List ShareEvent) (s : Share) (x : Error)
      → s.plain_blob ≡ none
      → s.in_flight ≡ InFlight.failed x
      → on_share_events a u co r key es s ≡ s
  unfolding on_share_events
  failed-stays [] s x empty failed = refl
  failed-stays (ShareEvent.asked ∷ es) s x empty failed =
      ap (on_share_events a u co r key es) (get-stays s x empty failed)
      ∙ failed-stays es s x empty failed
  failed-stays (ShareEvent.answered answer ∷ es) s x empty failed =
      ap (on_share_events a u co r key es) (answer-stays answer s x failed)
      ∙ failed-stays es s x empty failed

  fetch-fails :
      (answer : Result Bytes) (s : Share) (x : Error)
      → (answer >>= open_share a u co r key) ≡ err x
      → s.in_flight ≡ InFlight.fetching
      → fetch_returns a u co r key answer s ≡ record s { in_flight = InFlight.failed x }
  unfolding fetch_returns
  fetch-fails answer s x fails e = rw (fetch_returns, e, fails) refl

  -- Where the first fetch of a page fails, or its answer does not open, the file is never there:
  -- whatever the page is asked afterwards and whatever is answered, the failure stays, and the
  -- server has been asked once.
  pub failure_stays :
      (name : Text) (answer : Result Bytes) (x : Error) (es : List ShareEvent)
      → (answer >>= open_share a u co r key) ≡ err x
      → let s =
          on_share_events a u co r key
            (ShareEvent.asked ∷ ShareEvent.answered answer ∷ es)
            (new_share name) in
        (s.plain_blob ≡ none) × (s.in_flight ≡ InFlight.failed x) × (s.requests ≡ 1)
  unfolding on_share_events get_plain
  failure_stays name answer x es fails =
      let asked = get_plain (new_share name) in
      let broken : Share = record asked { in_flight = InFlight.failed x } in
      let same : on_share_events a u co r key (ShareEvent.asked ∷ ShareEvent.answered answer ∷ es)
            (new_share name)
          ≡ broken =
        ap (on_share_events a u co r key es) (fetch-fails answer asked x fails refl)
        ∙ failed-stays es broken x refl refl in
      (ap (λ s. s.plain_blob) same, ap (λ s. s.in_flight) same, ap (λ s. s.requests) same)
