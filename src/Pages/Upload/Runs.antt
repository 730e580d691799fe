-- ===== src/Pages/Upload/Runs.antt =====
-- `uploadOne` of web/static/app.js for one file: what each event does to the upload and to its row.
-- The upload is numbered by `n`, and a continuation, an answer or a timer that is not due changes
-- nothing.
pub mod Bounds
pub mod Retries
pub mod Settles
use k_quickshare.Base.{
  ◌∷◌, [], List, Option, some, none, Bool, true, false, ◌&&◌, ◌||◌, ℕ, ◌+◌, ◌-◌, min, Error, ok,
  err, aborted, file_unreadable, if◌then◌else◌, ◌==◌, leb, ltb, get_or, length,
}
use k_quickshare.Json.{Text, Value, codes}
use k_quickshare.Json.Read.{parse}
use k_quickshare.E2e.Manifest.{get_field}
use k_quickshare.Pages.Upload.Rows.{
  Row, Kind, Status, Reason, fail_row, mark_cancelled, show_retry, clear_row, server_reason,
}

-- What the page knows of its server and its browser: MAX_UPLOAD, 0 for no limit, and whether
-- `window.PYXIS_E2E` is there and available.
pub record Site : Type 0 where
  pub max_upload : ℕ
  pub available : Bool

-- Where an upload stands: in the queue, at one of the two awaits, with a request under way, before
-- the next request, or with nothing to come.
pub data Phase : Type 0 where
  waiting linking sealing sending closed : Phase
  pausing : ℕ → Phase

-- The size of the file, `ctl.aborted`, and `attempt`.
pub record Run : Type 0 where
  pub size : ℕ
  pub aborted : Bool
  pub phase : Phase
  pub attempt : ℕ

abbrev pub new_run : ℕ → Run
new_run size = record { size = size; aborted = false; phase = Phase.waiting; attempt = 0 }

abbrev pub net_attempts : ℕ
net_attempts = 3

abbrev pub retry_wait : List ℕ
retry_wait = 2000 ∷ 6000 ∷ []

-- `RETRY_STATUS[xhr.status]`
unfoldable pub retry_status : ℕ → Bool
retry_status code = code == 502 || code == 503 || code == 504

unfoldable pub close_run : Run → Run
close_run run = record run { phase = Phase.closed }

-- `sendAttempt`
unfoldable pub send_attempt : Run → Run
send_attempt run = record run { attempt = run.attempt + 1; phase = Phase.sending }

-- From the start to the first await.
unfoldable pub begin : Site → ℕ → Run → Row → Run × Row
unfolding close_run clear_row fail_row
begin site n run row =
    if run.aborted
    then (close_run run, row)
    else if ltb 0 site.max_upload && ltb site.max_upload run.size
    then (
      close_run run,
      fail_row n Kind.too_large (Reason.over_limit run.size site.max_upload) (clear_row n row),
    )
    else if site.available
    then (
      record run { phase = Phase.linking },
      record (clear_row n row) { status = Status.linking },
    )
    else (close_run run, fail_row n Kind.e2e_unavailable Reason.insecure (clear_row n row))

-- After `ensureBatch`: a failure is told even of an upload that was cancelled.
unfoldable pub after_link : ℕ → Option Error → Run → Row → Run × Row
unfolding close_run fail_row
after_link n (some e) run row = (close_run run, fail_row n Kind.failed Reason.batch_failed row)
after_link n none run row =
    if run.aborted then (close_run run, row) else (record run { phase = Phase.sealing }, row)

-- The `catch` of the encryption.
unfoldable pub catch_sealing : ℕ → Error → Row → Row
unfolding fail_row
catch_sealing n aborted row = row
catch_sealing n file_unreadable row = fail_row n Kind.file_gone Reason.gone row
catch_sealing n e row = fail_row n Kind.e2e_failed (Reason.encrypt_failed e) row

-- After the form is sealed.
unfoldable pub after_sealing : ℕ → Option Error → Run → Row → Run × Row
unfolding close_run catch_sealing send_attempt
after_sealing n (some e) run row = (close_run run, catch_sealing n e row)
after_sealing n none run row = if run.aborted then (close_run run, row) else (send_attempt run, row)

-- `onProgress` of the encryption, with the percentage done.
unfoldable pub sealing_progress : ℕ → Row → Row
sealing_progress pct row = record row { fill = pct; status = Status.encrypting }

-- `xhr.upload.onprogress`; the rate is left out.
unfoldable pub sending_progress : ℕ → Row → Row
sending_progress pct row = record row { fill = pct; status = Status.percent (min 99 pct) }

unfoldable pub retry_or_fail : ℕ → Kind → Reason → Run → Row → Run × Row
unfolding close_run fail_row
retry_or_fail n kind detail run row =
    if run.aborted
    then (close_run run, row)
    else if leb net_attempts run.attempt
    then (close_run run, fail_row n kind detail row)
    else (
      record run {
        phase = Phase.pausing (get_or retry_wait (min (run.attempt - 1) (length retry_wait - 1)) 0);
      },
      record row {
        status = Status.retrying;
        fill = 0;
        reason = Reason.again (run.attempt + 1) net_attempts;
        reason_hidden = false;
      },
    )

-- The timer of `retryOrFail`.
unfoldable pub on_timer : Run → Run
unfolding close_run send_attempt
on_timer run = if run.aborted then close_run run else send_attempt run

-- `created && created.id` of the answer, whose ids are texts.
unfoldable pub truthy_text : Option Value → Option Text
truthy_text (some (Value.str (c ∷ t))) = some (c ∷ t)
truthy_text _ = none

unfoldable pub id_field : Option Value → Option Text
unfolding get_field truthy_text
id_field none = none
id_field (some v) = elim (get_field (codes "id") v) [ err e ↦ none | ok f ↦ truthy_text f ]

unfoldable pub created_id : Text → Option Text
unfolding id_field
created_id response = id_field (parse response)

-- The row of a file that was stored, by whether the answer has an id.
unfoldable pub done_row : Option Text → Row → Row
done_row created row =
    let stored = record row {
      fill = 100;
      is_done = true;
      status = Status.done;
      buttons = [];
      reason = Reason.none_given;
      reason_hidden = true;
    } in
    elim created [
      | some id ↦ stored
      | none ↦ record stored { reason = Reason.roster; reason_hidden = false }
    ]

-- `xhr.onload`
unfoldable pub on_load : ℕ → ℕ → Text → Run → Row → Run × Row
unfolding close_run fail_row done_row created_id server_reason retry_or_fail retry_status
on_load n code response run row =
    if run.aborted
    then (close_run run, row)
    else if leb 200 code && ltb code 400
    then (close_run run, done_row (created_id response) row)
    else if code == 401
    then (close_run run, fail_row n Kind.login Reason.login_needed row)
    else if code == 413
    then (close_run run, fail_row n Kind.too_large (server_reason code response) row)
    else if code == 507
    then (close_run run, fail_row n Kind.quota (server_reason code response) row)
    else if code == 429
    then (close_run run, fail_row n Kind.rate_limited (server_reason code response) row)
    else if retry_status code
    then retry_or_fail n Kind.network (server_reason code response) run row
    else (close_run run, fail_row n Kind.failed (server_reason code response) row)

-- `xhr.onerror`
unfoldable pub on_error : ℕ → Run → Row → Run × Row
unfolding close_run retry_or_fail
on_error n run row =
    if run.aborted
    then (close_run run, row)
    else retry_or_fail n Kind.network Reason.no_network run row

-- `ctl.xhr.abort()` ends the request that is under way: none of its handlers runs.
unfoldable pub abort_request : Run → Run
unfolding close_run
abort_request run = elim run.phase [ Phase.sending ↦ close_run run | _ ↦ run ]

-- The cancel button of a row that waits.
unfoldable pub cancel_queued : Run → Row → Run × Row
unfolding abort_request mark_cancelled
cancel_queued run row =
    if run.aborted
    then (run, row)
    else (abort_request (record run { aborted = true }), mark_cancelled row)

-- The cancel button of an upload that has begun.
unfoldable pub cancel_begun : ℕ → Run → Row → Run × Row
unfolding abort_request mark_cancelled show_retry
cancel_begun n run row =
    if run.aborted
    then (run, row)
    else (abort_request (record run { aborted = true }), show_retry n (mark_cancelled row))

-- What can happen to one upload: an await that ends, without or with an error; an answer or a
-- failure of the network; the timer; progress; the cancel button.
pub data Event : Type 0 where
  turn timer unreached cancelled : Event
  linked : Option Error → Event
  sealed : Option Error → Event
  answered : ℕ → Text → Event
  sealing_at : ℕ → Event
  sending_at : ℕ → Event

unfoldable pub on_event : Site → ℕ → Event → Phase → Run → Row → Run × Row
unfolding begin after_link after_sealing on_load on_error on_timer cancel_queued cancel_begun
    sealing_progress sending_progress
on_event site n turn Phase.waiting run row = begin site n run row
on_event site n (linked e) Phase.linking run row = after_link n e run row
on_event site n (sealed e) Phase.sealing run row = after_sealing n e run row
on_event site n (sealing_at pct) Phase.sealing run row = (run, sealing_progress pct row)
on_event site n (sending_at pct) Phase.sending run row = (run, sending_progress pct row)
on_event site n (answered code response) Phase.sending run row = on_load n code response run row
on_event site n unreached Phase.sending run row = on_error n run row
on_event site n timer (Phase.pausing wait) run row = (on_timer run, row)
on_event site n cancelled Phase.waiting run row = cancel_queued run row
on_event site n cancelled Phase.closed run row = (run, row)
on_event site n cancelled phase run row = cancel_begun n run row
on_event site n event phase run row = (run, row)

unfoldable pub step : Site → ℕ → Event → Run × Row → Run × Row
unfolding on_event
step site n event (run, row) = on_event site n event run.phase run row

unfoldable pub steps : Site → ℕ → List Event → Run × Row → Run × Row
unfolding step
steps site n [] s = s
steps site n (e ∷ es) s = steps site n es (step site n e s)
