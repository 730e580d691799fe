-- ===== src/Pages/Upload/Runs/Settles.antt =====
-- An upload comes to an end, and what its row shows then.
use k_quickshare.Pages.Upload.Rows.{Button, retryable, Status, Row}
use k_quickshare.Pages.Upload.Runs.{steps, new_run, Site, Run, Phase, Event, step, on_event}
use k_quickshare.Base.{
  Error, some, none, false, true, inr, inl, ◌⊎◌, refl, ◌≡◌, ◌≤◌, length, if◌then◌else◌, ◌<◌, ℕ, ◌*◌,
  ◌-◌, List, [], ◌∷◌, Bool, arith,
}
use k_quickshare.Pages.Upload.Runs.Bounds.{steps-IsCounted, IsCounted, Counted}

-- The events that an upload waits for: progress and the cancel button are not among them.
abbrev pub IsDue : Event → Phase → Type 0
IsDue Event.turn Phase.waiting = Unit
IsDue (Event.linked e) Phase.linking = Unit
IsDue (Event.sealed e) Phase.sealing = Unit
IsDue (Event.answered code response) Phase.sending = Unit
IsDue Event.unreached Phase.sending = Unit
IsDue Event.timer (Phase.pausing wait) = Unit
IsDue e phase = ⊥

-- Each event of a sequence is due when it comes.
abbrev pub AreDue : Site → ℕ → List Event → Run × Row → Type 0
AreDue site n [] s = Unit
AreDue site n (e ∷ es) s = IsDue e s.0.phase × AreDue site n es (step site n e s)

-- At most this many events are still to come.
abbrev pub left : Phase → ℕ → ℕ
left Phase.waiting k = 8
left Phase.linking k = 7
left Phase.sealing k = 6
left Phase.sending k = 7 - 2 * k
left (Phase.pausing wait) k = 6 - 2 * k
left Phase.closed k = 0

step-left :
    (site : Site) (n : ℕ) (e : Event) (phase : Phase) (size : ℕ) (b : Bool) (k : ℕ) (row : Row)
    → Counted phase k
    → IsDue e phase
    → let run =
        (on_event site n e phase
          (record { size = size; aborted = b; phase = phase; attempt = k })
          row).0 in
      left run.phase run.attempt < left phase k
unfolding on_event
step-left site n e phase size b k row h due = ground arith

-- Until it ends, an upload waits for something.
waits : (phase : Phase) → (phase ≡ Phase.closed) ⊎ ((e : Event) × IsDue e phase)
waits Phase.waiting = inr (Event.turn, tt)
waits Phase.linking = inr (Event.linked none, tt)
waits Phase.sealing = inr (Event.sealed none, tt)
waits Phase.sending = inr (Event.unreached, tt)
waits (Phase.pausing wait) = inr (Event.timer, tt)
waits Phase.closed = inl refl

length-due :
    (site : Site) (n : ℕ) (es : List Event) (s : Run × Row)
    → IsCounted s.0
    → AreDue site n es s
    → length es ≤ left s.0.phase s.0.attempt
unfolding step steps
length-due site n [] s h due = omega arith
length-due site n (e ∷ es) (run, row) h (first, due) =
    let less = step-left site n e run.phase run.size run.aborted run.attempt row h first in
    let rest =
      length-due site n es (step site n e (run, row)) (steps-IsCounted site n (e ∷ []) (run, row) h)
        due in
    omega (arith, less, rest)

-- After at most eight of the events that it waits for an upload has ended, and until then it waits
-- for one.
pub upload_ends :
    (site : Site) (n size : ℕ) (row : Row) (es : List Event)
    → AreDue site n es (new_run size, row)
    → (length es ≤ 8)
      × (((steps site n es (new_run size, row)).0.phase ≡ Phase.closed)
          ⊎ ((e : Event) × IsDue e (steps site n es (new_run size, row)).0.phase))
upload_ends site n size row es due = (length-due site n es (new_run size, row) refl due, waits _)

-- The end of upload `n` as the row shows it, with the button that starts another one.
abbrev pub ShowsEnd : ℕ → Row → Type 0
ShowsEnd n row = Ended row.status
  where
    Ended : Status → Type 0
    Ended Status.done =
        (row.is_done ≡ true)
        × (row.is_error ≡ false)
        × (row.is_cancelled ≡ false)
        × (row.buttons ≡ [])
    Ended (Status.stopped kind) =
        (row.is_done ≡ false)
        × (row.is_error ≡ true)
        × (row.is_cancelled ≡ false)
        × (row.reason_hidden ≡ false)
        × (row.buttons ≡ (if retryable kind then Button.retry n ∷ [] else []))
    Ended _ = ⊥

abbrev Plain : Row → Type 0
Plain row = (row.is_done ≡ false) × (row.is_error ≡ false) × (row.is_cancelled ≡ false)

-- What the row of an upload shows unless the upload is cancelled.
abbrev Shows : ℕ → Phase → Bool → Row → Type 0
Shows n phase true row = Unit
Shows n Phase.waiting false row = Unit
Shows n Phase.closed false row = ShowsEnd n row
Shows n phase false row = Plain row

-- Encrypting ends with an `AbortError` only where the upload was cancelled.
abbrev pub IsNoAbort : Event → Type 0
IsNoAbort (Event.sealed (some Error.aborted)) = ⊥
IsNoAbort _ = Unit
