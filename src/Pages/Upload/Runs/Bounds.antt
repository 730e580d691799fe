-- ===== src/Pages/Upload/Runs/Bounds.antt =====
-- How often an upload is sent, and how long it waits between.
use k_quickshare.Pages.Upload.Rows.{server_reason, Reason, Kind, Row}
use k_quickshare.Pages.Upload.Runs.{
  step, steps, new_run, Site, Run, Phase, Event, begin, retry_or_fail, on_load, close_run, on_event,
}
use k_quickshare.Base.{
  ◌||◌, ◌&&◌, not, if◌then◌else◌, ◌∷◌, [], List, ◌+◌, zero, inr, inl, refl, suc, ◌≤◌, ◌≡◌, ◌⊎◌, ℕ,
  Bool, true, false, arith,
}
use k_quickshare.Json.{Text}

-- The attempts that a phase goes with. Before the second request the upload waits for 2 seconds,
-- before the third for 6.
abbrev pub Counted : Phase → ℕ → Type 0
Counted Phase.sending k = (1 ≤ k) × (k ≤ 3)
Counted (Phase.pausing wait) k = ((k ≡ 1) × (wait ≡ 2000)) ⊎ ((k ≡ 2) × (wait ≡ 6000))
Counted Phase.closed k = k ≤ 3
Counted _ k = k ≡ 0

abbrev pub IsCounted : Run → Type 0
IsCounted run = Counted run.phase run.attempt

-- A request that was under way.
abbrev sent : ℕ → Bool → ℕ → Run
sent size b k = record { size = size; aborted = b; phase = Phase.sending; attempt = k }

retry_or_fail-IsCounted :
    (n : ℕ) (kind : Kind) (detail : Reason) (size : ℕ) (b : Bool) (k : ℕ) (row : Row)
    → (1 ≤ k) × (k ≤ 3)
    → IsCounted (retry_or_fail n kind detail (sent size b k) row).0
unfolding retry_or_fail close_run
retry_or_fail-IsCounted n kind detail size true k row (low, high) = high
retry_or_fail-IsCounted n kind detail size false zero row h = absurd (omega arith)
retry_or_fail-IsCounted n kind detail size false (suc zero) row h = inl (refl, refl)
retry_or_fail-IsCounted n kind detail size false (suc (suc zero)) row h = inr (refl, refl)
retry_or_fail-IsCounted n kind detail size false (suc (suc (suc zero))) row h = omega arith
retry_or_fail-IsCounted n kind detail size false (suc (suc (suc (suc k)))) row h =
    absurd (omega arith)

on_load-IsCounted :
    (n code : ℕ) (response : Text) (size : ℕ) (b : Bool) (k : ℕ) (row : Row)
    → (1 ≤ k) × (k ≤ 3)
    → IsCounted (on_load n code response (sent size b k) row).0
unfolding on_load close_run
on_load-IsCounted n code response size true k row (low, high) = high
on_load-IsCounted n code response size false k row (low, high) = ground (
  arith,
  retry_or_fail-IsCounted n Kind.network (server_reason code response) size false k row (low, high),
)

begin-IsCounted :
    (site : Site) (n : ℕ) (run : Run) (row : Row)
    → run.attempt ≡ 0
    → IsCounted (begin site n run row).0
unfolding begin close_run
begin-IsCounted site n run row h = ground arith

on_event-IsCounted :
    (site : Site) (n : ℕ) (e : Event) (phase : Phase) (size : ℕ) (b : Bool) (k : ℕ) (row : Row)
    → Counted phase k
    → IsCounted
        (on_event site n e phase
          (record { size = size; aborted = b; phase = phase; attempt = k })
          row).0
unfolding on_event
on_event-IsCounted site n e phase size b k row h = ground (arith, begin-IsCounted site n)

pub steps-IsCounted :
    (site : Site) (n : ℕ) (es : List Event) (s : Run × Row)
    → IsCounted s.0
    → IsCounted (steps site n es s).0
unfolding steps step
steps-IsCounted site n [] s h = h
steps-IsCounted site n (e ∷ es) (run, row) h =
    steps-IsCounted site n es _
      (on_event-IsCounted site n e run.phase run.size run.aborted run.attempt row h)

abbrev is_sending : Phase → Bool
is_sending Phase.sending = true
is_sending _ = false

-- An answer or a failure of the network ends the request that is under way.
abbrev ends_request : Event → Bool
ends_request (Event.answered code response) = true
ends_request Event.unreached = true
ends_request _ = false

-- Whether an event has sent a request: one is under way after it, and none was, or that one has
-- ended.
abbrev pub sends : Event → Phase → Phase → ℕ
sends e before after =
    if is_sending after && (not (is_sending before) || ends_request e) then 1 else 0

-- The requests that a sequence of events sends.
abbrev pub requests : Site → ℕ → List Event → Run × Row → ℕ
requests site n [] s = 0
requests site n (e ∷ es) s =
    let t = step site n e s in sends e s.0.phase t.0.phase + requests site n es t

step-attempt :
    (site : Site) (n : ℕ) (e : Event) (run : Run) (row : Row)
    → let t = step site n e (run, row) in run.attempt + sends e run.phase t.0.phase ≤ t.0.attempt
unfolding step on_event
step-attempt site n e run row = ground arith

aborted-step :
    (site : Site) (n : ℕ) (e : Event) (run : Run) (row : Row)
    → run.aborted ≡ true
    → let t = step site n e (run, row) in (sends e run.phase t.0.phase ≡ 0) × (t.0.aborted ≡ true)
unfolding step on_event
aborted-step site n e run row h = ground arith

requests-attempt :
    (site : Site) (n : ℕ) (es : List Event) (s : Run × Row)
    → s.0.attempt + requests site n es s ≤ (steps site n es s).0.attempt
unfolding steps
requests-attempt site n [] s = omega arith
requests-attempt site n (e ∷ es) s =
    omega (arith, step-attempt site n e s.0 s.1, requests-attempt site n es (step site n e s))

Counted-most : (phase : Phase) (k : ℕ) → Counted phase k → k ≤ 3
Counted-most phase k h = ground arith

-- However its requests are answered, and whatever else happens, an upload is sent at most three
-- times.
pub requests_bounded :
    (site : Site) (n size : ℕ) (row : Row) (es : List Event)
    → requests site n es (new_run size, row) ≤ 3
requests_bounded site n size row es =
    let last = Counted-most _ _ (steps-IsCounted site n es (new_run size, row) refl) in
    omega (arith, requests-attempt site n es (new_run size, row), last)

-- Once it is cancelled, no request for an upload begins, whatever happens.
pub cancelled-requests :
    (site : Site) (n : ℕ) (run : Run) (row : Row) (es : List Event)
    → run.aborted ≡ true
    → requests site n es (run, row) ≡ 0
cancelled-requests site n run row [] h = refl
cancelled-requests site n run row (e ∷ es) h =
    let (same, still) = aborted-step site n e run row h in
    omega (
      arith,
      same,
      cancelled-requests site n (step site n e (run, row)).0 (step site n e (run, row)).1 es still,
    )
