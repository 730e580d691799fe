-- ===== src/Tests/Forms.antt =====
-- The upload form, the store of names and a small media file.
use k_quickshare.Base.{
  arith, ◌++◌, ◌∷◌, [], List, some, none, false, true, refl, ◌<◌, ◌≤◌, ◌+◌, length, be32, Bytes,
  ◌≡◌,
}
use k_quickshare.Pages.Steps.{on_step_events, StepEvent, reset_options, Steps, Defaults}
use k_quickshare.Pages.Media.{
  label_of, codec_in, first_video, is_among, fourcc, read_be32, sample_entries, box_extent,
  read_box, enter_box, iso_round, iso_walk, all_formats, sniff_iso, Media,
}
use k_quickshare.Pages.Names.{
  digits_value, index_of, Label, remember_name, get_name, Stored, on_name_events, read_name_store,
  NameEvent,
}
use k_quickshare.Json.{codes}
use k_quickshare.Pages.Names.Kept.{remembered_name}
use k_quickshare.Pages.Names.Set.{IsStore}
use k_quickshare.Pages.Media.Budget.{all_formats_bounded}
use k_quickshare.Pages.Media.Described.{sniff_iso_sound, IsDescribed}
use k_quickshare.Pages.Steps.Coherent.{on_step_events-IsCoherent, IsCoherent}

abbrev defaults : Defaults
defaults = record { expires = codes "24"; max_downloads = codes "0"; password = [] }

abbrev blank : Steps
blank = record {
  options_locked = false;
  params_confirmed = false;
  single_use = false;
  pre_single_use = none;
  expires = [];
  expires_at = [];
  max_downloads = [];
  password = [];
  expires_disabled = false;
  expires_at_disabled = false;
  password_disabled = false;
  max_disabled = false;
  single_use_disabled = false;
  pressed = false;
  box_locked = false;
  files_locked = false;
  input_disabled = false;
  paste_disabled = false;
  step_done = false;
  chip_hidden = false;
  confirm_hidden = false;
  edit_hidden = false;
  expires_at_hidden = false;
}

abbrev clicks : List StepEvent
clicks = StepEvent.single_use_pressed ∷ StepEvent.confirm ∷ StepEvent.locked true ∷ []

on_step_events-IsCoherent_example :
    IsCoherent (on_step_events clicks (reset_options defaults blank))
on_step_events-IsCoherent_example = on_step_events-IsCoherent defaults blank clicks

fresh-IsCoherent : IsCoherent (reset_options defaults blank)
unfolding on_step_events
fresh-IsCoherent = on_step_events-IsCoherent defaults blank []

is_off : (reset_options defaults blank).single_use ≡ false
unfolding reset_options
is_off = refl

abbrev learned : List NameEvent
learned =
    NameEvent.remember true (codes "f1") (codes "a.txt") (codes "text/plain")
    ∷ NameEvent.forget true (codes "f2" ∷ [])
    ∷ []

f3_plain : index_of (codes "f3") ≡ none
unfolding index_of digits_value
f3_plain = refl

remembered_name_example :
    IsStore (read_name_store (on_name_events learned Stored.missing))
    × (get_name (codes "f3") (
          read_name_store (
            remember_name true (codes "f3") (codes "b") [] (on_name_events learned Stored.missing)))
        ≡ some (Label.named (codes "b") []))
remembered_name_example = remembered_name learned 102 98 (codes "3") [] [] refl f3_plain

-- `moov`, `trak`, `mdia`, `minf`, `stbl` and `stsd`, with one entry `avc1`.
abbrev stsd : Bytes
stsd = be32 24 ++ (codes "stsd" ++ (be32 0 ++ (be32 1 ++ (be32 8 ++ codes "avc1"))))

abbrev within : Bytes → Bytes → Bytes
within type b = be32 (8 + length b) ++ (type ++ b)

abbrev movie : Bytes
movie = within (codes "moov") (
    within (codes "trak")
      (within (codes "mdia") (within (codes "minf") (within (codes "stbl") stsd))))

all_formats_bounded_example :
    (all_formats movie
      ≡ (iso_walk 5000 movie 0 (length movie) 0 (record { out = []; left = 4000 })).out)
    × (length (all_formats movie) ≤ 4000)
all_formats_bounded_example = all_formats_bounded movie 5000 (omega arith)

abbrev described : Media
described = record { formats = codes "avc1" ∷ []; video = codes "avc1"; label = codes "H.264" }

is_described : sniff_iso movie ≡ some described
unfolding sniff_iso all_formats iso_walk iso_round enter_box read_box box_extent sample_entries
    read_be32 fourcc is_among first_video codec_in label_of
is_described = refl

sniff_iso_sound_example :
    (codes "avc1" ∷ [] ≡ all_formats movie)
    × (0 < 1)
    × (1 ≤ 4000)
    × IsDescribed (codes "avc1" ∷ []) (codes "avc1") (codes "H.264")
sniff_iso_sound_example = sniff_iso_sound movie described is_described
