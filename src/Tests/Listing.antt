-- ===== src/Tests/Listing.antt =====
-- The rows of a link's page: their names and their files.
use k_quickshare.Tests.Instances.{toy, plain, no_numbers}
use k_quickshare.Tests.Files.{key, sealed_hello, opened_hello, opens_hello, all_bytes-AreBytes}
use k_quickshare.Base.{
  ◌&&◌, true, if◌then◌else◌, leb, ◌∷◌, [], List, some, none, false, ok, err, refl, ◌≡◌, ◌+◌, ◌≤◌,
  Bytes, AreBytes, replicate, network_error, arith,
}
use k_quickshare.Json.{Text, Value, codes}
use k_quickshare.Pages.Fetches.{
  Fetches, manifest_name, manifest_bytes, FileRow, Promised, no_fetches, put, count_of, unwrap_row,
  open_row, ask, unwrap_end, fetch_end, FetchEvent, on_fetch_events,
}
use k_quickshare.Pages.Fetches.Paid.{requests_paid, cost}
use k_quickshare.Pages.Fetches.Sound.{IsReply, IsAsked, fetched_sound}
use k_quickshare.Pages.Share.{
  Rendered, InFlight, Share, new_share, open_share, ShareEvent, on_share_events,
}
use k_quickshare.Pages.Share.Once.{IsAnswer, fetched_once, failure_stays}
use k_quickshare.Pages.Listing.{Listed, open_names}
use k_quickshare.Pages.Listing.Named.{Named, open_names-sealed, AreNamed}
use k_quickshare.E2e.Chunks.{Opened, open_file, Blob}
use k_quickshare.E2e.Base64.{b64u_encode}
use k_quickshare.E2e.Base64.RoundTrip.{b64u_decode-b64u_encode}
use k_quickshare.E2e.Blobs.{or_empty, name_aad, name_json, seal_name, wrap_file_key, lay_sealed}
use k_quickshare.E2e.Blobs.RoundTrip.{unwrap_file_key-wrap_file_key}
use k_quickshare.Json.Write.{stringify}
use k_quickshare.E2e.Padding.{pad_name_body}
use k_quickshare.E2e.Manifest.{manifest_json, get_field}
use k_quickshare.Pages.Kinds.{
  dot_place, before_semicolon, string_of, starts_with, extension, media_type, FileKind,
  icon_kind_for,
}
use k_quickshare.Pages.Media.{is_among}
use k_quickshare.Pages.Upload.Rows.{is_trimmed, trim_end, trim_start}

abbrev nonce : Bytes
nonce = replicate 12 9

abbrev wrapped : Bytes
wrapped = wrap_file_key toy nonce nonce key

abbrev row : FileRow Bytes
row = record {
  id = codes "s1";
  key = nonce;
  wrapped_key = b64u_encode wrapped;
  version = 5;
  manifest = [];
  content_type = codes "text/plain";
  name = Value.str (codes "a.txt");
}

wrapped-AreBytes : AreBytes wrapped
unfolding wrap_file_key lay_sealed
wrapped-AreBytes = all_bytes-AreBytes wrapped refl

unwraps : unwrap_row toy plain no_numbers row ≡ ok key
unfolding unwrap_row
unwraps =
    rw (b64u_decode-b64u_encode wrapped wrapped-AreBytes)
      (unwrap_file_key-wrap_file_key toy nonce nonce key refl)

opens : open_row toy plain no_numbers row key sealed_hello.0.content ≡ ok (row, opened_hello.blob)
unfolding open_row manifest_bytes open_file manifest_name get_field manifest_json or_empty
opens = rw (open_row, open_file, opens_hello) refl

abbrev events : List (FetchEvent Bytes)
events =
    FetchEvent.asked row
    ∷ FetchEvent.unwrapped (codes "s1")
    ∷ FetchEvent.answered (codes "s1") (err network_error)
    ∷ FetchEvent.asked row
    ∷ FetchEvent.asked row
    ∷ FetchEvent.unwrapped (codes "s1")
    ∷ FetchEvent.answered (codes "s1") (ok sealed_hello.0.content)
    ∷ []

requests_paid_example :
    count_of (codes "s1") (on_fetch_events toy plain no_numbers events no_fetches).requests
    ≡ count_of (codes "s1") (on_fetch_events toy plain no_numbers events no_fetches).failures
      + cost ((on_fetch_events toy plain no_numbers events no_fetches).cache (codes "s1"))
requests_paid_example = requests_paid toy plain no_numbers events (codes "s1")

abbrev one_fetch : List (FetchEvent Bytes)
one_fetch =
    FetchEvent.asked row
    ∷ FetchEvent.unwrapped (codes "s1")
    ∷ FetchEvent.answered (codes "s1") (ok sealed_hello.0.content)
    ∷ []

requested :
    unwrap_end toy plain no_numbers
      (codes "s1")
      (some (Promised.unwrapping row))
      (ask toy plain no_numbers row no_fetches)
    ≡ record (put
        (codes "s1")
        (some (Promised.fetching row key))
        (ask toy plain no_numbers row no_fetches)) { requests = codes "s1" ∷ [] }
unfolding unwrap_end ask put
requested = rw (unwrap_end, unwraps) refl

received :
    (s : Fetches Bytes)
    → (fetch_end toy plain no_numbers
          (codes "s1")
          (ok sealed_hello.0.content)
          (some (Promised.fetching row key))
          s).cache
        (codes "s1")
      ≡ some (Promised.opened row opened_hello.blob)
unfolding fetch_end put
received s = rw (fetch_end, opens) refl

arrives :
    (on_fetch_events toy plain no_numbers one_fetch no_fetches).cache (codes "s1")
    ≡ some (Promised.opened row opened_hello.blob)
unfolding on_fetch_events ask put
arrives = rw (requested) (received _)

fetched_sound_example :
    (asked : FileRow Bytes) × (k : Bytes) × (buf : Bytes) × (asked.id ≡ codes "s1")
    × IsAsked asked one_fetch
    × IsReply (codes "s1") buf one_fetch
    × (unwrap_row toy plain no_numbers asked ≡ ok k)
    × (open_row toy plain no_numbers asked k buf ≡ ok (row, opened_hello.blob))
fetched_sound_example =
    fetched_sound toy plain no_numbers one_fetch (codes "s1") row opened_hello.blob arrives

abbrev rendered : Rendered
rendered = record { version = 5; manifest = none; file_type = codes "text/plain" }

abbrev share_events : List ShareEvent
share_events = ShareEvent.asked ∷ ShareEvent.asked ∷ ShareEvent.answered (err network_error) ∷ []

abbrev shared : Share
shared = on_share_events toy plain no_numbers rendered key share_events (new_share (codes "a.txt"))

fetched_once_example :
    (shared.requests ≤ 1)
    × ((b : Blob)
        → shared.plain_blob ≡ some b
        → (buf : Bytes) × (out : Opened) × IsAnswer buf share_events
          × (open_share toy plain no_numbers rendered key buf ≡ ok out)
          × (b ≡ out.blob))
fetched_once_example = fetched_once toy plain no_numbers rendered key share_events (codes "a.txt")

abbrev later_events : List ShareEvent
later_events = ShareEvent.asked ∷ ShareEvent.answered (ok sealed_hello.0.content) ∷ []

failure_stays_example :
    let s =
      on_share_events toy plain no_numbers rendered key
        (ShareEvent.asked ∷ ShareEvent.answered (err network_error) ∷ later_events)
        (new_share (codes "a.txt")) in
    (s.plain_blob ≡ none) × (s.in_flight ≡ InFlight.failed network_error) × (s.requests ≡ 1)
failure_stays_example =
    failure_stays toy plain no_numbers rendered key (codes "a.txt") (err network_error)
      network_error later_events refl

abbrev sealed_name : Bytes
sealed_name = lay_sealed nonce (
    toy.encrypt key nonce (name_aad plain (codes "f1"))
      (pad_name_body (stringify (name_json (codes "a.txt") []))))

seals_name : seal_name toy plain nonce key (codes "f1") (codes "a.txt") [] ≡ ok sealed_name
unfolding seal_name name_json stringify
seals_name = refl

name-AreBytes : AreBytes sealed_name
unfolding lay_sealed name_json stringify name_aad pad_name_body
name-AreBytes = all_bytes-AreBytes sealed_name refl

abbrev listed : Listed Bytes
listed = record {
  name = Value.str [];
  enc_name = b64u_encode sealed_name;
  manifest_id = codes "f1";
  name_key = some key;
  content_type = Value.str [];
  size = 3;
  icon_kind = FileKind.generic;
  preview_kind = none;
  previews_allowed = true;
  unverified = false;
}

abbrev damaged : Listed Bytes
damaged = record listed { enc_name = codes "?" }

abbrev sender_named : Named
sender_named = record { first = 97; rest = codes ".txt"; type = [] }

-- `toLowerCase` of an ASCII text.
abbrev lower : Text → Text
lower [] = []
lower (c ∷ t) = (if leb 65 c && leb c 90 then c + 32 else c) ∷ lower t

text_icon :
    icon_kind_for no_numbers lower
      (Value.str (codes "application/octet-stream"))
      (Value.str (codes "a.ZIP"))
    ≡ FileKind.archive
unfolding icon_kind_for media_type extension starts_with is_among string_of or_empty
    before_semicolon dot_place trim_start trim_end is_trimmed
text_icon = refl

open_names-sealed_example :
    AreNamed toy plain no_numbers lower
      (damaged ∷ listed ∷ [])
      (none ∷ some sender_named ∷ [])
      (open_names toy plain no_numbers lower (damaged ∷ listed ∷ []))
open_names-sealed_example =
    open_names-sealed toy plain no_numbers lower (damaged ∷ listed ∷ [])
      (none ∷ some sender_named ∷ [])
      (
        (
          key,
          nonce,
          sealed_name,
          refl,
          refl,
          refl,
          name-AreBytes,
          refl,
          (omega arith, omega arith),
          seals_name,
        ),
        tt,
      )
