-- ===== src/Pages/Upload/Queue/Overlap.antt =====
-- Requests of several uploads that are under way at once.
use k_quickshare.Base.{
  append_assoc, append-nil, subst, sym, length-append, ◌≤◌, none, false, true, ◌∙◌, ap₂, ◌-◌, ◌+◌,
  All, arith, ◌++◌, ◌∷◌, [], List, ap, refl, ◌<◌, suc, zero, ℕ, get_elem?, length, ◌≡◌, some,
}
use k_quickshare.Pages.Upload.Rows.{waiting_row, Row}
use k_quickshare.Pages.Upload.Queue.{
  empty_queue, add_file, add_files, handle_files, begin_next, on_queue_event, has_returned,
  may_begin, QueueEvent, on_queue_events, update, Queue, on_upload, Entry,
}
use k_quickshare.Pages.Upload.Runs.{on_event, Phase, new_run, step, Event, Site, Run}

get_elem?-middle :
    (xs : List Entry) (x : Entry) (ys : List Entry) → get_elem? (xs ++ x ∷ ys) (length xs) ≡ some x
get_elem?-middle [] x ys = refl
get_elem?-middle (z ∷ zs) x ys = get_elem?-middle zs x ys

update-middle :
    (xs : List Entry) (x y : Entry) (ys : List Entry)
    → update (length xs) y (xs ++ x ∷ ys) ≡ xs ++ y ∷ ys
update-middle [] x y ys = refl
update-middle (z ∷ zs) x y ys = ap (λ t. z ∷ t) (update-middle zs x y ys)

length-update : (n : ℕ) (r : Row) (rs : List Row) → length (update n r rs) ≡ length rs
length-update n r [] = refl
length-update zero r (z ∷ zs) = refl
length-update (suc n) r (z ∷ zs) = ap suc (length-update n r zs)

get_elem?-some : (n : ℕ) (rs : List Row) → n < length rs → (r : Row) × (get_elem? rs n ≡ some r)
get_elem?-some n [] h = absurd (omega arith)
get_elem?-some zero (z ∷ zs) h = (z, refl)
get_elem?-some (suc n) (z ∷ zs) h = get_elem?-some n zs (omega arith)

-- An upload of the queue between those before it and those after it, and what one event makes of
-- it.
abbrev at_work : Queue → List Entry → Run → ℕ → List Entry → List Row → Queue
at_work q xs run row ys rows = record q {
  entries = xs ++ record { run = run; row = row } ∷ ys;
  rows = rows;
}

on_upload-at_work :
    (site : Site) (e : Event) (q : Queue) (xs : List Entry) (run : Run) (row : ℕ) (ys : List Entry)
    (rows : List Row)
    → row < length rows
    → (run' : Run) → ((r : Row) → (step site (length xs) e (run, r)).0 ≡ run')
    → (rows' : List Row) × (length rows' ≡ length rows)
      × (on_upload site (length xs) e (at_work q xs run row ys rows)
          ≡ at_work q xs run' row ys rows')
unfolding on_upload
on_upload-at_work site e q xs run row ys rows h run' does =
    let (r, found) = get_elem?-some row rows h in
    (
      update row (step site (length xs) e (run, r)).1 rows,
      length-update row _ rows,
      rw
          (
            on_upload,
            get_elem?-middle xs (record { run = run; row = row }) ys,
            found,
            update-middle xs (record { run = run; row = row })
                (record { run = (step site (length xs) e (run, r)).0; row = row }) ys,
            does r,
          )
          refl,
    )

-- A server without a limit, and a browser that can encrypt.
abbrev pub open_site : Site
open_site = record { max_upload = 0; available = true }

abbrev pub IsSending : Entry → Type 0
IsSending x = x.run.phase ≡ Phase.sending

-- The run of a file whose first request is under way.
abbrev sent_run : ℕ → Run
sent_run size = record { size = size; aborted = false; phase = Phase.sending; attempt = 1 }

last_sent :
    (z : Entry) (zs ys : List Entry)
    → All IsSending (z ∷ zs)
    → (w : Entry) × (get_elem? ((z ∷ zs) ++ ys) (length zs) ≡ some w) × IsSending w
last_sent z [] ys (h, hs) = (z, refl, h)
last_sent z (z' ∷ zs) ys (h, hs) = last_sent z' zs ys hs

may_begin-sent :
    (q : Queue) (xs ys : List Entry)
    → q.entries ≡ xs ++ ys
    → q.begun ≡ length xs
    → All IsSending xs
    → may_begin q ≡ true
unfolding may_begin has_returned
may_begin-sent q [] ys e begun h = rw (may_begin, begun) refl
may_begin-sent q (z ∷ zs) ys e begun h =
    let (w, at, sending) = last_sent z zs ys h in
    let before : q.begun - 1 ≡ length zs = omega arith in
    let found : get_elem? q.entries (q.begun - 1) ≡ some w = ap₂ get_elem? e before ∙ at in
    ground arith

-- What the chain and the two awaits make of the next files.
abbrev pub turns : ℕ → List ℕ → List QueueEvent
turns n [] = []
turns n (size ∷ sizes) =
    QueueEvent.next
    ∷ QueueEvent.about n (Event.linked none)
    ∷ QueueEvent.about n (Event.sealed none)
    ∷ turns (suc n) sizes

abbrev waiting : ℕ → List ℕ → List Entry
waiting row [] = []
waiting row (size ∷ sizes) = record { run = new_run size; row = row } ∷ waiting (suc row) sizes

begin_next-at_work :
    (site : Site) (q : Queue) (xs ys : List Entry) (run : Run) (row : ℕ) (rows : List Row)
    → q.begun ≡ length xs
    → All IsSending xs
    → begin_next site (at_work q xs run row ys rows)
      ≡ on_upload site
          (length xs)
          Event.turn
          (at_work (record q { begun = length xs + 1 }) xs run row ys rows)
unfolding begin_next
begin_next-at_work site q xs ys run row rows begun h =
    let x : Entry = record { run = run; row = row } in
    let at : get_elem? (xs ++ x ∷ ys) q.begun ≡ some x =
      ap (get_elem? (xs ++ x ∷ ys)) begun ∙ get_elem?-middle xs x ys in
    let free : may_begin (at_work q xs run row ys rows) ≡ true =
      may_begin-sent (at_work q xs run row ys rows) xs (x ∷ ys) refl begun h in
    rw (begin_next, at, free)
      (ap
        (λ n. on_upload site n Event.turn (at_work (record q { begun = n + 1 }) xs run row ys rows))
        begun)

one_turn :
    (q : Queue) (xs ys : List Entry) (size row : ℕ) (rows : List Row)
    → q.begun ≡ length xs
    → All IsSending xs
    → row < length rows
    → (rows' : List Row) × (length rows' ≡ length rows)
      × (on_queue_events open_site
            (turns (length xs) (size ∷ []))
            (at_work q xs (new_run size) row ys rows)
          ≡ at_work (record q { begun = length xs + 1 }) xs (sent_run size) row ys rows')
unfolding on_queue_events on_queue_event begin_next step on_event
one_turn q xs ys size row rows begun h fits =
    let q1 = record q { begun = length xs + 1 } in
    let (r1, l1, e1) =
      on_upload-at_work open_site Event.turn q1 xs (new_run size) row ys rows fits
        (record { size = size; aborted = false; phase = Phase.linking; attempt = 0 }) (λ r. refl) in
    let (r2, l2, e2) =
      on_upload-at_work open_site (Event.linked none) q1 xs
        (record { size = size; aborted = false; phase = Phase.linking; attempt = 0 }) row ys r1
        (omega arith) (record { size = size; aborted = false; phase = Phase.sealing; attempt = 0 })
        (λ r. refl) in
    let (r3, l3, e3) =
      on_upload-at_work open_site (Event.sealed none) q1 xs
        (record { size = size; aborted = false; phase = Phase.sealing; attempt = 0 }) row ys r2
        (omega arith) (sent_run size) (λ r. refl) in
    (
      r3,
      omega arith,
      ap
            (λ t.
              on_upload open_site (length xs) (Event.sealed none)
                (on_upload open_site (length xs) (Event.linked none) t))
            (begin_next-at_work open_site q xs ys (new_run size) row rows begun h ∙ e1)
          ∙ ap (λ t. on_upload open_site (length xs) (Event.sealed none) t) e2
          ∙ e3,
    )

All-snoc :
    (xs : List Entry) (x : Entry) → All IsSending xs → IsSending x → All IsSending (xs ++ x ∷ [])
All-snoc [] x h hx = (hx, tt)
All-snoc (z ∷ zs) x (h, hs) hx = (h, All-snoc zs x hs hx)

turns_send :
    (sizes : List ℕ) (q : Queue) (xs : List Entry) (row : ℕ)
    → q.entries ≡ xs ++ waiting row sizes
    → q.begun ≡ length xs
    → All IsSending xs
    → row + length sizes ≤ length q.rows
    → let t = on_queue_events open_site (turns (length xs) sizes) q in
      (length t.entries ≡ length xs + length sizes) × All IsSending t.entries
unfolding on_queue_events
turns_send [] q xs row e begun h fits =
    let none_left : length xs ≡ length xs + 0 = omega arith in
    (ap length same ∙ none_left, subst (All IsSending) (sym same) h)
  where
    same : q.entries ≡ xs
    same = e ∙ append-nil xs
turns_send (size ∷ sizes) q xs row e begun h fits =
    let ys = waiting (suc row) sizes in
    let (rows, kept, moved) = one_turn q xs ys size row q.rows begun h (omega arith) in
    let x : Entry = record { run = sent_run size; row = row } in
    let q3 : Queue = at_work (record q { begun = length xs + 1 }) xs (sent_run size) row ys rows in
    let n : length (xs ++ x ∷ []) ≡ length xs + 1 = length-append xs (x ∷ []) in
    let n' : length (xs ++ x ∷ []) ≡ suc (length xs) = omega arith in
    let rest =
      turns_send sizes q3 (xs ++ x ∷ []) (suc row) (sym (append_assoc xs (x ∷ []) ys)) (sym n)
        (All-snoc xs x h refl) (omega arith) in
    let (long, all) =
      subst
        (λ k.
          let t = on_queue_events open_site (turns k sizes) q3 in
          (length t.entries ≡ k + length sizes) × All IsSending t.entries)
        n' rest in
    let same : q ≡ at_work q xs (new_run size) row ys q.rows =
      ap (λ es. record q { entries = es }) e in
    subst (λ t. (length t.entries ≡ length xs + suc (length sizes)) × All IsSending t.entries)
      (sym (
        ap (on_queue_events open_site (turns (suc (length xs)) sizes))
          (ap (on_queue_events open_site (turns (length xs) (size ∷ []))) same ∙ moved)))
      (omega (arith, long), all)

add_files-eq :
    (sizes : List ℕ) (q : Queue)
    → ((add_files sizes q).entries ≡ q.entries ++ waiting (length q.rows) sizes)
      × (length (add_files sizes q).rows ≡ length q.rows + length sizes)
      × ((add_files sizes q).begun ≡ q.begun)
unfolding add_files add_file
add_files-eq [] q = (sym (append-nil q.entries), omega arith, refl)
add_files-eq (size ∷ sizes) q =
    let (entries, rows, begun) = add_files-eq sizes (add_file size q) in
    let one : length (q.rows ++ waiting_row (length q.entries) ∷ []) ≡ length q.rows + 1 =
      length-append q.rows _ in
    let one' : length (q.rows ++ waiting_row (length q.entries) ∷ []) ≡ suc (length q.rows) =
      omega arith in
    (
      entries
          ∙ append_assoc q.entries _ _
          ∙ ap
              (λ k.
                q.entries ++ record { run = new_run size; row = length q.rows } ∷ waiting k sizes)
              one',
      omega arith,
      begun,
    )

-- The requests of all files of a drop can be under way at once: where the links and the encryption
-- of all succeed before the first answer, each file's request has begun and none has ended. The
-- options are confirmed, the server has no limit and the browser can encrypt.
pub requests_overlap :
    (size : ℕ) (sizes : List ℕ)
    → let q =
        on_queue_events open_site
          (QueueEvent.files (size ∷ sizes) ∷ turns 0 (size ∷ sizes))
          (empty_queue true) in
      (length q.entries ≡ length (size ∷ sizes)) × All IsSending q.entries
unfolding on_queue_events on_queue_event handle_files
requests_overlap size sizes =
    let q : Queue = add_files (size ∷ sizes) (empty_queue true) in
    let (entries, rows, begun) = add_files-eq (size ∷ sizes) (empty_queue true) in
    let (long, all) = turns_send (size ∷ sizes) q [] 0 entries begun tt (omega arith) in
    (omega (arith, long), all)
