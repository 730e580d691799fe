-- ===== src/Pages/Fetches/Paid.antt =====
-- What the files of a page cost: each request counts as a download of the link.
use k_quickshare.Base.{
  arith, ◌∷◌, [], List, Option, some, none, true, false, ℕ, ◌+◌, Bytes, Result, subst, refl, ◌≡◌,
  Bool-cases, Option-cases, Result-cases, inl, inr, ◌>>=◌,
}
use k_quickshare.E2e.Blobs.Contents.{text_eq→eq}
use k_quickshare.Json.{Text, text_eq}
use k_quickshare.E2e.Platform.{Aead, Utf8, Coercion}
use k_quickshare.Pages.Fetches.{
  FileRow, Promised, Fetches, no_fetches, put, count_of, unwrap_row, open_row, ask, unwrap_end,
  fetch_end, FetchEvent, on_fetch_events,
}

-- The requests of a file that have not failed: one once it is fetched, none before.
abbrev pub cost : {Key : Type 0} → Option (Promised Key) → ℕ
cost none = 0
cost (some (Promised.unwrapping row)) = 0
cost (some (Promised.fetching row key)) = 1
cost (some (Promised.opened row blob)) = 1

abbrev IsPaid : {Key : Type 0} → Text → Fetches Key → Type 0
IsPaid j s = count_of j s.requests ≡ count_of j s.failures + cost (s.cache j)

-- An attempt is put in the place of another, with the requests and failures after it.
put-IsPaid :
    {Key : Type 0} (j id : Text) (p : Option (Promised Key)) (s : Fetches Key) (rs fs : List Text)
    → (text_eq j id ≡ true
        → count_of j s.requests ≡ count_of j s.failures + cost (s.cache id)
        → count_of j rs ≡ count_of j fs + cost p)
    → (text_eq j id ≡ false
        → count_of j s.requests ≡ count_of j s.failures + cost (s.cache j)
        → count_of j rs ≡ count_of j fs + cost (s.cache j))
    → IsPaid j s
    → IsPaid j (record (put id p s) { requests = rs; failures = fs })
unfolding put
put-IsPaid j id p s rs fs same other h = elim (Bool-cases (text_eq j id)) [
  | inl t ↦ rw t (
      same t (
        subst (λ k. count_of j s.requests ≡ count_of j s.failures + cost (s.cache k))
          (text_eq→eq j id t) h))
  | inr f ↦ rw f (other f h)
]

module _ (a : Aead) (u : Utf8) (co : Coercion) where
  open a use {Key}

  ask-IsPaid :
      (j : Text) (row : FileRow Key) (s : Fetches Key) → IsPaid j s → IsPaid j (ask a u co row s)
  unfolding ask
  ask-IsPaid j row s h = elim (Option-cases (s.cache row.id)) [
    | inl e ↦
        rw (ask, e) (put-IsPaid j row.id _ s s.requests s.failures (λ t k. rw e at k) (λ f k. k) h)
    | inr (p, e) ↦ rw (ask, e) h
  ]

  unwrap-IsPaid :
      (j id : Text) (x : Option (Promised Key)) (s : Fetches Key)
      → s.cache id ≡ x
      → IsPaid j s
      → IsPaid j (unwrap_end a u co id x s)
  unfolding unwrap_end count_of
  unwrap-IsPaid j id none s e h = h
  unwrap-IsPaid j id (some (Promised.fetching row key)) s e h = h
  unwrap-IsPaid j id (some (Promised.opened row blob)) s e h = h
  unwrap-IsPaid j id (some (Promised.unwrapping row)) s e h =
      elim (Result-cases (unwrap_row a u co row)) [
        | inl (key, k) ↦
            rw (unwrap_end, k)
              (put-IsPaid j id _ s (id ∷ s.requests) s.failures
                (λ t c. let c0 = rw e at c in rw (count_of, t) (omega (arith, c0)))
                (λ f c. rw (count_of, f) c) h)
        | inr (x, k) ↦
            rw (unwrap_end, k)
              (put-IsPaid j id none s s.requests s.failures (λ t c. rw e at c) (λ f c. c) h)
      ]

  fetch-IsPaid :
      (j id : Text) (answer : Result Bytes) (x : Option (Promised Key)) (s : Fetches Key)
      → s.cache id ≡ x
      → IsPaid j s
      → IsPaid j (fetch_end a u co id answer x s)
  unfolding fetch_end count_of
  fetch-IsPaid j id answer none s e h = h
  fetch-IsPaid j id answer (some (Promised.unwrapping row)) s e h = h
  fetch-IsPaid j id answer (some (Promised.opened row blob)) s e h = h
  fetch-IsPaid j id answer (some (Promised.fetching row key)) s e h =
      elim (Result-cases (answer >>= open_row a u co row key)) [
        | inl (out, k) ↦
            rw (fetch_end, k)
              (put-IsPaid j id _ s s.requests s.failures (λ t c. rw e at c) (λ f c. c) h)
        | inr (x, k) ↦
            rw (fetch_end, k)
              (put-IsPaid j id none s s.requests (id ∷ s.failures)
                (λ t c. let c0 = rw e at c in rw (count_of, t) (omega (arith, c0)))
                (λ f c. rw (count_of, f) c) h)
      ]

  events-IsPaid :
      (j : Text) (es : List (FetchEvent Key)) (s : Fetches Key)
      → IsPaid j s
      → IsPaid j (on_fetch_events a u co es s)
  unfolding on_fetch_events
  events-IsPaid j [] s h = h
  events-IsPaid j (FetchEvent.asked row ∷ es) s h = events-IsPaid j es _ (ask-IsPaid j row s h)
  events-IsPaid j (FetchEvent.unwrapped id ∷ es) s h =
      events-IsPaid j es _ (unwrap-IsPaid j id (s.cache id) s refl h)
  events-IsPaid j (FetchEvent.answered id answer ∷ es) s h =
      events-IsPaid j es _ (fetch-IsPaid j id answer (s.cache id) s refl h)

  -- However the calls for the files of a page interleave, a file has been requested as often as its
  -- requests have failed, and once more where it is being fetched or is there: no call asks the
  -- server again for a file that has not failed.
  pub requests_paid :
      (es : List (FetchEvent Key)) (id : Text)
      → let s = on_fetch_events a u co es no_fetches in
        count_of id s.requests ≡ count_of id s.failures + cost (s.cache id)
  unfolding count_of
  requests_paid es id = events-IsPaid id es no_fetches refl
