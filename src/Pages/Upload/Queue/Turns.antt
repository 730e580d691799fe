-- ===== src/Pages/Upload/Queue/Turns.antt =====
-- Which uploads of the queue can be at work at once.
use k_quickshare.Base.{
  false, if◌then◌else◌, Bool, Bool-cases, inr, inl, refl, Option-cases, some, subst, ◌+◌, get_elem?,
  arith, ◌∷◌, [], List, true, suc, ℕ, ◌≡◌,
}
use k_quickshare.Pages.Upload.Runs.{Site, Event, step}
use k_quickshare.Pages.Upload.Queue.{
  has_cancel, cancel_upload, handle_files, on_queue_event, empty_queue, QueueEvent, on_queue_events,
  has_retry, may_begin, add_file, Queue, retry_upload, on_upload, begin_next, add_files, update,
  Entry,
}
use k_quickshare.Pages.Upload.Rows.{Row}
use k_quickshare.Pages.Upload.Queue.Ordered.{
  free-IsOrdered, step-IsBefore, append-IsOrdered, IsOrdered, IsPreparing, IsTurn, last-IsOrdered,
  may_begin_cases, update-IsOrdered, step-IsAfter, ordered_last,
}

on_upload-entries :
    (P : List Entry → Type 0) (site : Site) (n : ℕ) (e : Event) (q : Queue)
    → P q.entries
    → ((x : Entry) (row : Row)
        → get_elem? q.entries n ≡ some x
        → P (update n (record x { run = (step site n e (x.run, row)).0 }) q.entries))
    → P (on_upload site n e q).entries
unfolding on_upload
on_upload-entries P site n e q h hu = elim (Option-cases (get_elem? q.entries n)) [
  | inl at ↦ rw (on_upload, at) h
  | inr (x, at) ↦ elim (Option-cases (get_elem? q.rows x.row)) [
    | inl no_row ↦ rw (on_upload, at, no_row) h
    | inr (row, found) ↦ rw (on_upload, at, found) (hu x row at)
  ]
]

on_upload-begun :
    (site : Site) (n : ℕ) (e : Event) (q : Queue) → (on_upload site n e q).begun ≡ q.begun
unfolding on_upload
on_upload-begun site n e q = ground arith

on_upload-IsOrdered :
    (site : Site) (n : ℕ) (e : Event) (q : Queue)
    → ¬ (IsTurn e)
    → IsOrdered q.begun q.entries
    → IsOrdered (on_upload site n e q).begun (on_upload site n e q).entries
on_upload-IsOrdered site n e q not_turn h = rw (on_upload-begun site n e q) (
    on_upload-entries (IsOrdered q.begun) site n e q h (λ x row at.
      update-IsOrdered q.begun n x _ q.entries at
        (step-IsBefore site n e x.run row not_turn, step-IsAfter site n e x.run row) h))

begin_next-IsOrdered :
    (site : Site) (q : Queue)
    → IsOrdered q.begun q.entries
    → IsOrdered (begin_next site q).begun (begin_next site q).entries
unfolding begin_next
begin_next-IsOrdered site q h = elim (Option-cases (get_elem? q.entries q.begun)) [
  | inl at ↦ rw (begin_next, at) h
  | inr (x, at) ↦ elim (Bool-cases (may_begin q)) [
    | inr blocked ↦ rw (begin_next, at, blocked) h
    | inl free ↦ rw (begin_next, at, free) (begun_one x at free)
  ]
]
  where
    begun_one :
        (x : Entry)
        → get_elem? q.entries q.begun ≡ some x
        → may_begin q ≡ true
        → let t = on_upload site q.begun Event.turn (record q { begun = q.begun + 1 }) in
          IsOrdered t.begun t.entries
    begun_one x at free =
        let plus : suc q.begun ≡ q.begun + 1 = omega arith in
        let more = free-IsOrdered q.begun x q.entries at (may_begin_cases q free) h in
        rw (on_upload-begun site q.begun Event.turn (record q { begun = q.begun + 1 })) (
          subst
            (λ k.
              IsOrdered k
                (on_upload site q.begun Event.turn (record q { begun = q.begun + 1 })).entries)
            plus
            (on_upload-entries (IsOrdered (suc q.begun)) site q.begun Event.turn
              (record q { begun = q.begun + 1 }) more
              (λ y row _. last-IsOrdered q.begun _ q.entries more)))

add_files-IsOrdered :
    (sizes : List ℕ) (q : Queue)
    → IsOrdered q.begun q.entries
    → IsOrdered (add_files sizes q).begun (add_files sizes q).entries
unfolding add_files add_file
add_files-IsOrdered [] q h = h
add_files-IsOrdered (size ∷ sizes) q h =
    add_files-IsOrdered sizes (add_file size q) (append-IsOrdered q.begun _ q.entries refl h)

retry_upload-IsOrdered :
    (n : ℕ) (q : Queue)
    → IsOrdered q.begun q.entries
    → IsOrdered (retry_upload n q).begun (retry_upload n q).entries
unfolding retry_upload
retry_upload-IsOrdered n q h = elim (Option-cases (get_elem? q.entries n)) [
  | inl at ↦ rw (retry_upload, at) h
  | inr (x, at) ↦ elim (Option-cases (get_elem? q.rows x.row)) [
    | inl no_row ↦ rw (retry_upload, at, no_row) h
    | inr (row, found) ↦ elim (Bool-cases (has_retry n row.buttons)) [
      | inr absent ↦ rw (retry_upload, at, found, absent) h
      | inl shown ↦
          rw (retry_upload, at, found, shown) (append-IsOrdered q.begun _ q.entries refl h)
    ]
  ]
]

cancel_upload-IsOrdered :
    (site : Site) (n : ℕ) (q : Queue)
    → IsOrdered q.begun q.entries
    → IsOrdered (cancel_upload site n q).begun (cancel_upload site n q).entries
unfolding cancel_upload
cancel_upload-IsOrdered site n q h = elim (Option-cases (get_elem? q.entries n)) [
  | inl at ↦ rw (cancel_upload, at) h
  | inr (x, at) ↦ elim (Option-cases (get_elem? q.rows x.row)) [
    | inl no_row ↦ rw (cancel_upload, at, no_row) h
    | inr (row, found) ↦ elim (Bool-cases (has_cancel n row.buttons)) [
      | inr absent ↦ rw (cancel_upload, at, found, absent) h
      | inl shown ↦
          rw (cancel_upload, at, found, shown)
            (on_upload-IsOrdered site n Event.cancelled q (λ t. t) h)
    ]
  ]
]

about-IsOrdered :
    (site : Site) (n : ℕ) (e : Event) (q : Queue)
    → IsOrdered q.begun q.entries
    → let t = on_queue_event site (QueueEvent.about n e) q in IsOrdered t.begun t.entries
unfolding on_queue_event
about-IsOrdered site n e q h =
    elim e
      as (λ e.
        let t = on_queue_event site (QueueEvent.about n e) q in IsOrdered t.begun t.entries) [
          | Event.turn ↦ h
          | Event.timer ↦ on_upload-IsOrdered site n Event.timer q (λ t. t) h
          | Event.unreached ↦ on_upload-IsOrdered site n Event.unreached q (λ t. t) h
          | Event.cancelled ↦ cancel_upload-IsOrdered site n q h
          | Event.linked x ↦ on_upload-IsOrdered site n (Event.linked x) q (λ t. t) h
          | Event.sealed x ↦ on_upload-IsOrdered site n (Event.sealed x) q (λ t. t) h
          | Event.answered code text ↦
              on_upload-IsOrdered site n (Event.answered code text) q (λ t. t) h
          | Event.sealing_at pct ↦ on_upload-IsOrdered site n (Event.sealing_at pct) q (λ t. t) h
          | Event.sending_at pct ↦ on_upload-IsOrdered site n (Event.sending_at pct) q (λ t. t) h
        ]

event-IsOrdered :
    (site : Site) (e : QueueEvent) (q : Queue)
    → IsOrdered q.begun q.entries
    → IsOrdered (on_queue_event site e q).begun (on_queue_event site e q).entries
unfolding on_queue_event handle_files
event-IsOrdered site (QueueEvent.files []) q h = h
event-IsOrdered site (QueueEvent.files (size ∷ sizes)) q h = gate q.confirmed
  where
    gate :
        (b : Bool)
        → let t : Bool × Queue = if b then (true, add_files (size ∷ sizes) q) else (false, q) in
          IsOrdered t.1.begun t.1.entries
    gate true = add_files-IsOrdered (size ∷ sizes) q h
    gate false = h
event-IsOrdered site QueueEvent.next q h = begin_next-IsOrdered site q h
event-IsOrdered site (QueueEvent.again n) q h = retry_upload-IsOrdered n q h
event-IsOrdered site (QueueEvent.about n e) q h = about-IsOrdered site n e q h

events-IsOrdered :
    (site : Site) (es : List QueueEvent) (q : Queue)
    → IsOrdered q.begun q.entries
    → IsOrdered (on_queue_events site es q).begun (on_queue_events site es q).entries
unfolding on_queue_events
events-IsOrdered site [] q h = h
events-IsOrdered site (e ∷ es) q h =
    events-IsOrdered site es (on_queue_event site e q) (event-IsOrdered site e q h)

-- Files are encrypted one at a time: an upload that has begun and has not returned is the last one
-- that has begun.
pub one_prepares :
    (site : Site) (confirmed : Bool) (es : List QueueEvent) (i : ℕ) (x : Entry)
    → get_elem? (on_queue_events site es (empty_queue confirmed)).entries i ≡ some x
    → IsPreparing x.run.phase
    → i + 1 ≡ (on_queue_events site es (empty_queue confirmed)).begun
one_prepares site confirmed es i x at p =
    let q = on_queue_events site es (empty_queue confirmed) in
    ordered_last q.begun i x q.entries (events-IsOrdered site es (empty_queue confirmed) tt) at p
