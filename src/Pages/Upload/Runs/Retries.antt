-- ===== src/Pages/Upload/Runs/Retries.antt =====
-- The retries of a request that a connection or a proxy has cut off.
use k_quickshare.Pages.Upload.Rows.{Button, Kind, Status, Row}
use k_quickshare.Pages.Upload.Runs.{steps, Site, Run, Phase, Event, step, on_event}
use k_quickshare.Base.{
  ap₂, suc, zero, take, if◌then◌else◌, ◌==◌, arith, ◌++◌, subst, ◌∙◌, ap, sym, All, length, refl,
  ◌≤◌, ◌<◌, ◌≡◌, ◌⊎◌, ℕ, ◌+◌, List, [], ◌∷◌, false,
}
use k_quickshare.Json.{Text}
use k_quickshare.Pages.Upload.Runs.Bounds.{requests, sends}

-- A request that was not reached, or that a proxy gave up on.
abbrev pub IsCutOff : Event → Type 0
IsCutOff Event.unreached = Unit
IsCutOff (Event.answered code response) = (code ≡ 502) ⊎ (code ≡ 503) ⊎ (code ≡ 504)
IsCutOff e = ⊥

abbrev pub with_timers : List Event → List Event
with_timers [] = []
with_timers (e ∷ es) = e ∷ Event.timer ∷ with_timers es

-- An upload whose request number `k` is under way.
abbrev pub under_way : ℕ → ℕ → Run
under_way size k = record { size = size; aborted = false; phase = Phase.sending; attempt = k }

-- The time that an upload waits after an event that makes it wait.
abbrev pub waiting_time : Phase → Phase → List ℕ
waiting_time (Phase.pausing v) (Phase.pausing w) = []
waiting_time before (Phase.pausing w) = w ∷ []
waiting_time before after = []

-- The times that an upload waits in a sequence of events.
abbrev pub waits : Site → ℕ → List Event → Run × Row → List ℕ
waits site n [] s = []
waits site n (e ∷ es) s =
    let t = step site n e s in waiting_time s.0.phase t.0.phase ++ waits site n es t

cut_off :
    (site : Site) (n : ℕ) (e : Event) (size k : ℕ) (row : Row)
    → IsCutOff e
    → 1 ≤ k
    → k < 3
    → (step site n Event.timer (step site n e (under_way size k, row))).0 ≡ under_way size (k + 1)
unfolding step on_event
cut_off site n e size k row cut low high = ground arith

cut_off-last :
    (site : Site) (n : ℕ) (e : Event) (size : ℕ) (row : Row)
    → IsCutOff e
    → let s = step site n e (under_way size 3, row) in
      (s.0.phase ≡ Phase.closed)
      × (s.1.status ≡ Status.stopped Kind.network)
      × (s.1.buttons ≡ Button.retry n ∷ [])
unfolding step on_event
cut_off-last site n e size row cut = ground arith

stored :
    (site : Site) (n : ℕ) (code : ℕ) (response : Text) (size k : ℕ) (row : Row)
    → 200 ≤ code
    → code < 400
    → let s = step site n (Event.answered code response) (under_way size k, row) in
      (s.0.phase ≡ Phase.closed) × (s.1.status ≡ Status.done)
unfolding step on_event
stored site n code response size k row low high = ground arith

after_cuts :
    (site : Site) (n size k : ℕ) (cuts : List Event) (row : Row)
    → All IsCutOff cuts
    → 1 ≤ k
    → length cuts + k ≤ 3
    → (steps site n (with_timers cuts) (under_way size k, row)).0 ≡ under_way size (length cuts + k)
unfolding steps
after_cuts site n size k [] row h low high =
    let none_cut : k ≡ 0 + k = omega arith in ap (under_way size) none_cut
after_cuts site n size k (e ∷ es) row (h, hs) low high =
    let s = step site n Event.timer (step site n e (under_way size k, row)) in
    let again : s.0 ≡ under_way size (k + 1) = cut_off site n e size k row h low (omega arith) in
    let shift : length es + (k + 1) ≡ length (e ∷ es) + k = omega arith in
    subst (λ r. (steps site n (with_timers es) (r, s.1)).0 ≡ under_way size (length (e ∷ es) + k))
      (sym again)
      (after_cuts site n size (k + 1) es s.1 hs (omega arith) (omega arith)
        ∙ ap (under_way size) shift)

steps-append :
    (site : Site) (n : ℕ) (es fs : List Event) (s : Run × Row)
    → steps site n (es ++ fs) s ≡ steps site n fs (steps site n es s)
unfolding steps
steps-append site n [] fs s = refl
steps-append site n (e ∷ es) fs s = steps-append site n es fs (step site n e s)

recovered :
    (site : Site) (n size : ℕ) (row : Row) (cuts : List Event) (code : ℕ) (response : Text)
    → All IsCutOff cuts
    → length cuts ≤ 2
    → 200 ≤ code
    → code < 400
    → let s =
        steps site n
          (with_timers cuts ++ Event.answered code response ∷ [])
          (under_way size 1, row) in
      (s.0.phase ≡ Phase.closed) × (s.1.status ≡ Status.done)
unfolding steps
recovered site n size row cuts code response h few low high =
    let s = steps site n (with_timers cuts) (under_way size 1, row) in
    let at : s.0 ≡ under_way size (length cuts + 1) =
      after_cuts site n size 1 cuts row h (omega arith) (omega arith) in
    rw
      (steps-append site n (with_timers cuts) (Event.answered code response ∷ [])
        (under_way size 1, row))
      (subst
        (λ r.
          let t = step site n (Event.answered code response) (r, s.1) in
          (t.0.phase ≡ Phase.closed) × (t.1.status ≡ Status.done))
        (sym at) (stored site n code response size (length cuts + 1) s.1 low high))

-- The pause before the request after number `k`.
abbrev pause_after : ℕ → ℕ
pause_after k = if k == 1 then 2000 else 6000

cut_off-again :
    (site : Site) (n : ℕ) (e : Event) (size k : ℕ) (row : Row)
    → IsCutOff e
    → 1 ≤ k
    → k < 3
    → let m = step site n e (under_way size k, row) in
      let r = step site n Event.timer m in
      (sends e Phase.sending m.0.phase + sends Event.timer m.0.phase r.0.phase ≡ 1)
      × (waiting_time Phase.sending m.0.phase ≡ pause_after k ∷ [])
      × (waiting_time m.0.phase r.0.phase ≡ [])
unfolding step on_event
cut_off-again site n e size k row cut low high = ground arith

answered-quiet :
    (site : Site) (n code : ℕ) (response : Text) (size k : ℕ) (row : Row)
    → 200 ≤ code
    → code < 400
    → let e = Event.answered code response in
      let t = step site n e (under_way size k, row) in
      (sends e Phase.sending t.0.phase ≡ 0) × (waiting_time Phase.sending t.0.phase ≡ [])
unfolding step on_event
answered-quiet site n code response size k row low high = ground arith

-- The pauses after `m` requests from number `k` on.
abbrev pauses : ℕ → ℕ → List ℕ
pauses zero k = []
pauses (suc m) k = pause_after k ∷ pauses m (k + 1)

two_pauses : (m : ℕ) → m ≤ 2 → pauses m 1 ≡ take m (2000 ∷ 6000 ∷ [])
two_pauses zero h = refl
two_pauses (suc zero) h = refl
two_pauses (suc (suc zero)) h = refl
two_pauses (suc (suc (suc m))) h = absurd (omega arith)

resent :
    (site : Site) (n size k : ℕ) (cuts : List Event) (code : ℕ) (response : Text) (row : Row)
    → All IsCutOff cuts
    → 1 ≤ k
    → length cuts + k ≤ 3
    → 200 ≤ code
    → code < 400
    → let es = with_timers cuts ++ Event.answered code response ∷ [] in
      (requests site n es (under_way size k, row) ≡ length cuts)
      × (waits site n es (under_way size k, row) ≡ pauses (length cuts) k)
resent site n size k [] code response row h low high from to =
    let (none_sent, quiet) = answered-quiet site n code response size k row from to in
    (omega (arith, none_sent), ap (λ x. x ++ []) quiet)
resent site n size k (e ∷ es) code response row (h, hs) low high from to =
    let r = step site n Event.timer (step site n e (under_way size k, row)) in
    let rest = with_timers es ++ Event.answered code response ∷ [] in
    let again : r.0 ≡ under_way size (k + 1) = cut_off site n e size k row h low (omega arith) in
    let (one, paused, quiet) = cut_off-again site n e size k row h low (omega arith) in
    let (sent, waited) =
      subst
        (λ x.
          (requests site n rest (x, r.1) ≡ length es)
          × (waits site n rest (x, r.1) ≡ pauses (length es) (k + 1)))
        (sym again)
        (resent site n size (k + 1) es code response r.1 hs (omega arith) (omega arith) from to) in
    (omega (arith, one, sent), ap₂ (λ x y. x ++ y) paused (ap₂ (λ x y. x ++ y) quiet waited))

-- A request that is cut off `m` times, at most twice, by the network or with status 502, 503 or
-- 504, is sent again `m` times, after pauses of 2 and then of 6 seconds, and its row shows success
-- when the last one is answered with a status from 200 to 399.
pub cut_off_recovers :
    (site : Site) (n size : ℕ) (row : Row) (cuts : List Event) (code : ℕ) (response : Text)
    → All IsCutOff cuts
    → length cuts ≤ 2
    → 200 ≤ code
    → code < 400
    → let es = with_timers cuts ++ Event.answered code response ∷ [] in
      let s = steps site n es (under_way size 1, row) in
      (s.0.phase ≡ Phase.closed)
      × (s.1.status ≡ Status.done)
      × (requests site n es (under_way size 1, row) ≡ length cuts)
      × (waits site n es (under_way size 1, row) ≡ take (length cuts) (2000 ∷ 6000 ∷ []))
cut_off_recovers site n size row cuts code response h few low high =
    let (closed, done) = recovered site n size row cuts code response h few low high in
    let (sent, waited) =
      resent site n size 1 cuts code response row h (omega arith) (omega arith) low high in
    (closed, done, sent, waited ∙ two_pauses (length cuts) few)

-- A third one ends the upload, with the failure and the Retry button in its row.
pub cut_off_gives_up :
    (site : Site) (n size : ℕ) (row : Row) (cuts : List Event) (last : Event)
    → All IsCutOff cuts
    → length cuts ≡ 2
    → IsCutOff last
    → let s = steps site n (with_timers cuts ++ last ∷ []) (under_way size 1, row) in
      (s.0.phase ≡ Phase.closed)
      × (s.1.status ≡ Status.stopped Kind.network)
      × (s.1.buttons ≡ Button.retry n ∷ [])
unfolding steps
cut_off_gives_up site n size row cuts last h two cut =
    let s = steps site n (with_timers cuts) (under_way size 1, row) in
    let at : s.0 ≡ under_way size 3 =
      after_cuts site n size 1 cuts row h (omega arith) (omega arith)
      ∙ ap (λ k. under_way size (k + 1)) two in
    rw (steps-append site n (with_timers cuts) (last ∷ []) (under_way size 1, row)) (
      subst
        (λ r.
          let t = step site n last (r, s.1) in
          (t.0.phase ≡ Phase.closed)
          × (t.1.status ≡ Status.stopped Kind.network)
          × (t.1.buttons ≡ Button.retry n ∷ []))
        (sym at) (cut_off-last site n last size s.1 cut))
