-- ===== src/Pages/Upload/Rows.antt =====
-- A row of the upload queue of web/static/app.js: what it shows, `fail`, `markRowCancelled` and the
-- clearing at the start of `uploadOne`. A text that `t` translates is named for its key.
use k_quickshare.Base.{
  List, ◌∷◌, [], Bool, true, false, ◌&&◌, ◌||◌, not, ℕ, Error, if◌then◌else◌, ◌==◌, leb, length,
}
use k_quickshare.Json.{Text}

-- The kinds of failure.
pub data Kind : Type 0 where
  network failed quota rate_limited e2e_failed cancelled file_gone : Kind
  too_large e2e_unavailable login : Kind

-- RETRYABLE
unfoldable pub retryable : Kind → Bool
retryable network = true
retryable failed = true
retryable quota = true
retryable rate_limited = true
retryable e2e_failed = true
retryable cancelled = true
retryable file_gone = true
retryable _ = false

-- `status.textContent`
pub data Status : Type 0 where
  queued linking encrypting retrying done : Status
  percent : ℕ → Status
  stopped : Kind → Status

-- `reason.textContent`
pub data Reason : Type 0 where
  none_given cancelled_by_user insecure batch_failed gone no_network login_needed roster : Reason
  over_limit : ℕ → ℕ → Reason
  encrypt_failed : Error → Reason
  again : ℕ → ℕ → Reason
  http : ℕ → Reason
  server : Text → Reason

-- A button with the number of the upload its handler belongs to: that of a row that waits, that of
-- an upload that runs, and the one that starts another upload of the same file in the same row.
pub data Button : Type 0 where
  cancel_waiting : ℕ → Button
  cancel : ℕ → Button
  retry : ℕ → Button

pub record Row : Type 0 where
  pub is_error : Bool
  pub is_done : Bool
  pub is_cancelled : Bool
  pub fill : ℕ
  pub status : Status
  pub buttons : List Button
  pub reason : Reason
  pub reason_hidden : Bool

-- `newQueueRow`, and what `handleFiles` puts into the row of upload `n`.
abbrev pub waiting_row : ℕ → Row
waiting_row n = record {
  is_error = false;
  is_done = false;
  is_cancelled = false;
  fill = 0;
  status = queued;
  buttons = cancel_waiting n ∷ [];
  reason = none_given;
  reason_hidden = true;
}

unfoldable pub mark_cancelled : Row → Row
mark_cancelled row = record row {
  is_error = false;
  is_done = false;
  is_cancelled = true;
  status = stopped cancelled;
  fill = 0;
  reason = cancelled_by_user;
  reason_hidden = false;
  buttons = [];
}

-- `showRetry` of upload `n`
unfoldable pub show_retry : ℕ → Row → Row
show_retry n row = record row { buttons = retry n ∷ [] }

-- What `uploadOne` clears, with its cancel button.
unfoldable pub clear_row : ℕ → Row → Row
clear_row n row = record row {
  is_error = false;
  is_done = false;
  is_cancelled = false;
  fill = 0;
  status = percent 0;
  buttons = cancel n ∷ [];
  reason = none_given;
  reason_hidden = true;
}

unfoldable pub is_cancel : Kind → Bool
is_cancel cancelled = true
is_cancel _ = false

-- `fail(kind, detail)` of upload `n`; no detail is empty.
unfoldable pub fail_row : ℕ → Kind → Reason → Row → Row
unfolding retryable show_retry is_cancel
fail_row n kind detail row =
    let marked = record row {
      is_cancelled = is_cancel kind || row.is_cancelled;
      is_error = not (is_cancel kind) || row.is_error;
      status = stopped kind;
      fill = if is_cancel kind then 0 else 100;
      reason = detail;
      reason_hidden = false;
    } in
    if retryable kind then show_retry n marked else record marked { buttons = [] }

-- The characters that `trim` removes.
unfoldable pub is_trimmed : ℕ → Bool
is_trimmed c =
    (leb 9 c && leb c 13)
    || c == 32
    || c == 160
    || c == 0x1680
    || (leb 0x2000 c && leb c 0x200a)
    || c == 0x2028
    || c == 0x2029
    || c == 0x202f
    || c == 0x205f
    || c == 0x3000
    || c == 0xfeff

unfoldable pub trim_start : Text → Text
unfolding is_trimmed
trim_start [] = []
trim_start (c ∷ t) = let rest = trim_start t in if is_trimmed c then rest else c ∷ t

-- The end of a text is trimmed from the back.
unfoldable pub trim_end : Text → Text
unfolding is_trimmed
trim_end [] = []
trim_end (c ∷ t) = elim (trim_end t) [
  | [] ↦ if is_trimmed c then [] else c ∷ []
  | d ∷ rest ↦ c ∷ d ∷ rest
]

-- `serverReason`: the server's own message unless it is empty, long or a page.
unfoldable pub server_reason : ℕ → Text → Reason
unfolding trim_start trim_end
server_reason code response = elim (trim_end (trim_start response)) [
  | [] ↦ http code
  | c ∷ t ↦ if leb (length (c ∷ t)) 300 && not (c == 60) then server (c ∷ t) else http code
]
