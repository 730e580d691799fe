-- ===== src/Pages/Upload/Queue.antt =====
-- `handleFiles`, `enqueue` and the Retry button of web/static/app.js: the uploads of a page, of
-- which one begins when the function of the one before it has returned.
pub mod Ordered
pub mod Turns
pub mod Overlap
use k_quickshare.Base.{
  ◌++◌, ◌∷◌, [], List, some, none, Bool, true, false, ℕ, ◌+◌, ◌-◌, suc, zero, if◌then◌else◌, ◌==◌,
  length, get_elem?,
}
use k_quickshare.Pages.Upload.Rows.{Row, Button, waiting_row}
use k_quickshare.Pages.Upload.Runs.{Site, Run, Phase, Event, step, new_run}

-- A call of `uploadOne` that was queued, and the place of its row.
pub record Entry : Type 0 where
  pub run : Run
  pub row : ℕ

-- `paramsConfirmed`, the calls in the order of the chain, the rows by age, and how many calls have
-- begun.
pub record Queue : Type 0 where
  pub confirmed : Bool
  pub entries : List Entry
  pub rows : List Row
  pub begun : ℕ

abbrev pub empty_queue : Bool → Queue
empty_queue confirmed = record { confirmed = confirmed; entries = []; rows = []; begun = 0 }

abbrev pub update : {A : Type 0} → ℕ → A → List A → List A
update n a [] = []
update zero a (x ∷ xs) = a ∷ xs
update (suc n) a (x ∷ xs) = x ∷ update n a xs

-- A file gets its row and its place in the chain.
unfoldable pub add_file : ℕ → Queue → Queue
add_file size q = record q {
  entries = q.entries ++ record { run = new_run size; row = length q.rows } ∷ [];
  rows = q.rows ++ waiting_row (length q.entries) ∷ [];
}

unfoldable pub add_files : List ℕ → Queue → Queue
unfolding add_file
add_files [] q = q
add_files (size ∷ sizes) q = add_files sizes (add_file size q)

-- `handleFiles` of files of these sizes: whether they were accepted.
unfoldable pub handle_files : List ℕ → Queue → Bool × Queue
unfolding add_files
handle_files [] q = (false, q)
handle_files (size ∷ sizes) q =
    if q.confirmed then (true, add_files (size ∷ sizes) q) else (false, q)

-- Something happens to upload `n`.
unfoldable pub on_upload : Site → ℕ → Event → Queue → Queue
on_upload site n e q = elim (get_elem? q.entries n) [
  | none ↦ q
  | some entry ↦ elim (get_elem? q.rows entry.row) [
    | none ↦ q
    | some row ↦
        let s = step site n e (entry.run, row) in
        record q {
          entries = update n (record entry { run = s.0 }) q.entries;
          rows = update entry.row s.1 q.rows;
        }
  ]
]

-- `uploadOne` has returned when its request is under way: what comes then are events of their own.
unfoldable pub has_returned : Phase → Bool
has_returned Phase.sending = true
has_returned (Phase.pausing wait) = true
has_returned Phase.closed = true
has_returned _ = false

-- The call before the next one has returned.
unfoldable pub may_begin : Queue → Bool
unfolding has_returned
may_begin q = if q.begun == 0 then true else elim (get_elem? q.entries (q.begun - 1)) [
  | none ↦ false
  | some entry ↦ has_returned entry.run.phase
]

-- The chain goes on to its next call.
unfoldable pub begin_next : Site → Queue → Queue
unfolding on_upload may_begin
begin_next site q = elim (get_elem? q.entries q.begun) [
  | none ↦ q
  | some entry ↦
      if may_begin q
      then on_upload site q.begun Event.turn (record q { begun = q.begun + 1 })
      else q
]

unfoldable pub has_retry : ℕ → List Button → Bool
has_retry n [] = false
has_retry n (Button.retry m ∷ bs) = let rest = has_retry n bs in if m == n then true else rest
has_retry n (b ∷ bs) = has_retry n bs

unfoldable pub has_cancel : ℕ → List Button → Bool
has_cancel n [] = false
has_cancel n (Button.cancel m ∷ bs) = let rest = has_cancel n bs in if m == n then true else rest
has_cancel n (Button.cancel_waiting m ∷ bs) =
    let rest = has_cancel n bs in if m == n then true else rest
has_cancel n (b ∷ bs) = has_cancel n bs

-- The cancel button of upload `n`, while the row has it.
unfoldable pub cancel_upload : Site → ℕ → Queue → Queue
unfolding has_cancel on_upload
cancel_upload site n q = elim (get_elem? q.entries n) [
  | none ↦ q
  | some entry ↦ elim (get_elem? q.rows entry.row) [
    | none ↦ q
    | some row ↦ if has_cancel n row.buttons then on_upload site n Event.cancelled q else q
  ]
]

-- The Retry button of upload `n`: the same file, in the same row, with a new token.
unfoldable pub retry_upload : ℕ → Queue → Queue
unfolding has_retry
retry_upload n q = elim (get_elem? q.entries n) [
  | none ↦ q
  | some entry ↦ elim (get_elem? q.rows entry.row) [
    | none ↦ q
    | some row ↦
        if has_retry n row.buttons
        then record q {
          entries = q.entries ++ record { run = new_run entry.run.size; row = entry.row } ∷ [];
        }
        else q
  ]
]

pub data QueueEvent : Type 0 where
  files : List ℕ → QueueEvent
  next : QueueEvent
  about : ℕ → Event → QueueEvent
  again : ℕ → QueueEvent

-- A turn comes from the chain alone, and a cancellation from a button.
unfoldable pub on_queue_event : Site → QueueEvent → Queue → Queue
unfolding handle_files begin_next on_upload retry_upload cancel_upload
on_queue_event site (files sizes) q = (handle_files sizes q).1
on_queue_event site next q = begin_next site q
on_queue_event site (about n Event.turn) q = q
on_queue_event site (about n Event.cancelled) q = cancel_upload site n q
on_queue_event site (about n e) q = on_upload site n e q
on_queue_event site (again n) q = retry_upload n q

unfoldable pub on_queue_events : Site → List QueueEvent → Queue → Queue
unfolding on_queue_event
on_queue_events site [] q = q
on_queue_events site (e ∷ es) q = on_queue_events site es (on_queue_event site e q)
