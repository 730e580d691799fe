-- ===== src/Pages/Fetches/Sound.antt =====
-- Where the files of a page come from.
use k_quickshare.Base.{
  ◌⊎◌, ap, All, ◌∷◌, [], List, Option, some, none, Bytes, Result, ok, subst, sym, refl, ◌≡◌,
  Bool-cases, Option-cases, Result-cases, inl, inr, ◌>>=◌, >>=-eq-ok,
}
use k_quickshare.E2e.Blobs.Contents.{text_eq→eq}
use k_quickshare.Json.{Text, text_eq}
use k_quickshare.E2e.Chunks.{Blob}
use k_quickshare.E2e.Platform.{Aead, Utf8, Coercion}
use k_quickshare.Pages.Fetches.{
  FileRow, Promised, Fetches, no_fetches, put, unwrap_row, open_row, ask, unwrap_end, fetch_end,
  FetchEvent, on_fetch_events,
}

-- The events by which a row was asked for and an answer came.
abbrev pub IsAsked : {Key : Type 0} → FileRow Key → List (FetchEvent Key) → Type 0
IsAsked row [] = ⊥
IsAsked row (e ∷ es) = (e ≡ FetchEvent.asked row) ⊎ IsAsked row es

abbrev pub IsReply : {Key : Type 0} → Text → Bytes → List (FetchEvent Key) → Type 0
IsReply id buf [] = ⊥
IsReply id buf (e ∷ es) = (e ≡ FetchEvent.answered id (ok buf)) ⊎ IsReply id buf es

module _ (a : Aead) (u : Utf8) (co : Coercion) (Asked : FileRow a.Key → Type 0)
    (Answer : Text → Bytes → Type 0) where
  open a use {Key}

  -- What an attempt in the place of an id has come from.
  abbrev pub IsFrom : Text → Option (Promised Key) → Type 0
  IsFrom id none = Unit {0}
  IsFrom id (some (Promised.unwrapping row)) = (row.id ≡ id) × Asked row
  IsFrom id (some (Promised.fetching row key)) =
      (row.id ≡ id) × Asked row × (unwrap_row a u co row ≡ ok key)
  IsFrom id (some (Promised.opened row blob)) =
      (asked : FileRow Key) × (key : Key) × (buf : Bytes) × (asked.id ≡ id)
      × Asked asked
      × Answer id buf
      × (unwrap_row a u co asked ≡ ok key)
      × (open_row a u co asked key buf ≡ ok (row, blob))

  abbrev AreFrom : Fetches Key → Type 0
  AreFrom s = (id : Text) → IsFrom id (s.cache id)

  put-AreFrom :
      (id : Text) (p : Option (Promised Key)) (s : Fetches Key) (rs fs : List Text)
      → IsFrom id p
      → AreFrom s
      → AreFrom (record (put id p s) { requests = rs; failures = fs })
  unfolding put
  put-AreFrom id p s rs fs new old j = elim (Bool-cases (text_eq j id)) [
    | inl t ↦ rw t (subst (λ k. IsFrom k p) (sym (text_eq→eq j id t)) new)
    | inr f ↦ rw f (old j)
  ]

  ask-AreFrom :
      (row : FileRow Key) (s : Fetches Key) → Asked row → AreFrom s → AreFrom (ask a u co row s)
  unfolding ask
  ask-AreFrom row s given h j = elim (Option-cases (s.cache row.id)) [
    | inl e ↦
        rw (ask, e)
          (put-AreFrom row.id (some (Promised.unwrapping row)) s s.requests s.failures (refl, given)
            h j)
    | inr (p, e) ↦ rw (ask, e) (h j)
  ]

  unwrap-AreFrom :
      (id : Text) (x : Option (Promised Key)) (s : Fetches Key)
      → IsFrom id x
      → AreFrom s
      → AreFrom (unwrap_end a u co id x s)
  unfolding unwrap_end
  unwrap-AreFrom id none s f h j = h j
  unwrap-AreFrom id (some (Promised.fetching row key)) s f h j = h j
  unwrap-AreFrom id (some (Promised.opened row blob)) s f h j = h j
  unwrap-AreFrom id (some (Promised.unwrapping row)) s (is, given) h j =
      elim (Result-cases (unwrap_row a u co row)) [
        | inl (key, k) ↦
            rw (unwrap_end, k)
              (put-AreFrom id (some (Promised.fetching row key)) s (id ∷ s.requests) s.failures
                (is, given, k) h j)
        | inr (x, k) ↦ rw (unwrap_end, k) (put-AreFrom id none s s.requests s.failures tt h j)
      ]

  fetch-AreFrom :
      (id : Text) (answer : Result Bytes) (x : Option (Promised Key)) (s : Fetches Key)
      → IsFrom id x
      → ((buf : Bytes) → answer ≡ ok buf → Answer id buf)
      → AreFrom s
      → AreFrom (fetch_end a u co id answer x s)
  unfolding fetch_end
  fetch-AreFrom id answer none s f given h j = h j
  fetch-AreFrom id answer (some (Promised.unwrapping row)) s f given h j = h j
  fetch-AreFrom id answer (some (Promised.opened row blob)) s f given h j = h j
  fetch-AreFrom id answer (some (Promised.fetching row key)) s (is, asked, unwraps) given h j =
      elim (Result-cases (answer >>= open_row a u co row key)) [
        | inl (out, k) ↦
            let (buf, e, opens) = >>=-eq-ok answer _ k in
            rw (fetch_end, k)
              (put-AreFrom id (some (Promised.opened out.0 out.1)) s s.requests s.failures
                (row, key, buf, is, asked, given buf e, unwraps, opens) h j)
        | inr (x, k) ↦ rw (fetch_end, k) (put-AreFrom id none s s.requests (id ∷ s.failures) tt h j)
      ]

  -- What an event asks for and answers.
  abbrev IsGiven : FetchEvent Key → Type 0
  IsGiven (FetchEvent.asked row) = Asked row
  IsGiven (FetchEvent.unwrapped id) = Unit {0}
  IsGiven (FetchEvent.answered id answer) = (buf : Bytes) → answer ≡ ok buf → Answer id buf

  events-AreFrom :
      (es : List (FetchEvent Key)) (s : Fetches Key)
      → All IsGiven es
      → AreFrom s
      → AreFrom (on_fetch_events a u co es s)
  unfolding on_fetch_events
  events-AreFrom [] s g h = h
  events-AreFrom (FetchEvent.asked row ∷ es) s (g, gs) h =
      events-AreFrom es _ gs (ask-AreFrom row s g h)
  events-AreFrom (FetchEvent.unwrapped id ∷ es) s (g, gs) h =
      events-AreFrom es _ gs (unwrap-AreFrom id (s.cache id) s (h id) h)
  events-AreFrom (FetchEvent.answered id answer ∷ es) s (g, gs) h =
      events-AreFrom es _ gs (fetch-AreFrom id answer (s.cache id) s (h id) g h)

module _ (a : Aead) (u : Utf8) (co : Coercion) where
  open a use {Key}

  -- The events that are in a list.
  abbrev IsGivenBy : List (FetchEvent Key) → FetchEvent Key → Type 0
  IsGivenBy es = IsGiven a u co (λ row. IsAsked row es) (λ id buf. IsReply id buf es)

  one_more :
      (e f : FetchEvent Key) (es : List (FetchEvent Key)) → IsGivenBy es f → IsGivenBy (e ∷ es) f
  one_more e (FetchEvent.asked row) es h = inr h
  one_more e (FetchEvent.unwrapped id) es h = tt
  one_more e (FetchEvent.answered id answer) es h = λ buf same. inr (h buf same)

  more_events :
      (e : FetchEvent Key) (es fs : List (FetchEvent Key))
      → All (IsGivenBy es) fs
      → All (IsGivenBy (e ∷ es)) fs
  more_events e es [] h = tt
  more_events e es (f ∷ fs) (h, hs) = (one_more e f es h, more_events e es fs hs)

  first_given : (e : FetchEvent Key) (es : List (FetchEvent Key)) → IsGivenBy (e ∷ es) e
  first_given (FetchEvent.asked row) es = inl refl
  first_given (FetchEvent.unwrapped id) es = tt
  first_given (FetchEvent.answered id answer) es =
      λ buf same. inl (ap (FetchEvent.answered id) same)

  events_given : (es : List (FetchEvent Key)) → All (IsGivenBy es) es
  events_given [] = tt
  events_given (e ∷ es) = (first_given e es, more_events e es es (events_given es))

  -- However the calls for the files of a page interleave, a file that is there for an id was opened
  -- under the file key that a row with this id unwraps to, with that row's manifest, version and
  -- type, from bytes that the server answered for the id; and the page was asked for that row.
  pub fetched_sound :
      (es : List (FetchEvent Key)) (id : Text) (row : FileRow Key) (blob : Blob)
      → (on_fetch_events a u co es no_fetches).cache id ≡ some (Promised.opened row blob)
      → (asked : FileRow Key) × (key : Key) × (buf : Bytes) × (asked.id ≡ id)
        × IsAsked asked es
        × IsReply id buf es
        × (unwrap_row a u co asked ≡ ok key)
        × (open_row a u co asked key buf ≡ ok (row, blob))
  fetched_sound es id row blob e =
      let Asked : FileRow Key → Type 0 = λ r. IsAsked r es in
      let Answer : Text → Bytes → Type 0 = λ i buf. IsReply i buf es in
      subst (IsFrom a u co Asked Answer id) e
        (events-AreFrom a u co Asked Answer es no_fetches (events_given es) (λ i. tt) id)
