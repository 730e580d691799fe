-- ===== src/Pages/Media/Described.antt =====
-- What a media file is described by.
use k_quickshare.Base.{
  ◌++◌, All, none, Option, subst, some-injective, ◌<◌, some, ◌⊎◌, inr, inl, ◌∙◌, ap, sym, refl,
  Option-cases, Bool-cases, ltb, arith, ◌∷◌, [], List, ◌≤◌, length, Bytes, ◌≡◌,
}
use k_quickshare.Pages.Media.{
  iso_openers, Media, sniff_iso, label_of, video_codecs, iso_budget, codec_in, first_video,
  all_formats, is_among, fourcc, slice,
}
use k_quickshare.Json.{Text}
use k_quickshare.Pages.Media.Budget.{all_formats_bounded}

-- A file is described by the first of its formats that has a name, or by none where none has one.
abbrev pub IsDescribed : List Text → Text → Text → Type 0
IsDescribed formats video label =
    ((video ≡ []) × (label ≡ []) × All (λ f. codec_in f video_codecs ≡ none) formats)
    ⊎ ((before : List Text) × (after : List Text) × (formats ≡ before ++ video ∷ after)
        × All (λ f. codec_in f video_codecs ≡ none) before
        × (codec_in video video_codecs ≡ some label))

video_skipped :
    (f : Text) (fs : List Text)
    → codec_in f video_codecs ≡ none
    → first_video (f ∷ fs) ≡ first_video fs
unfolding first_video
video_skipped f fs e = rw (first_video, e) refl

video_taken :
    (f label : Text) (fs : List Text)
    → codec_in f video_codecs ≡ some label
    → first_video (f ∷ fs) ≡ f
unfolding first_video
video_taken f label fs e = rw (first_video, e) refl

label_of-eq : (f label : Text) → codec_in f video_codecs ≡ some label → label_of f ≡ label
unfolding label_of
label_of-eq f label e = rw (label_of, e) refl

no_label : label_of [] ≡ []
unfolding label_of codec_in
no_label = refl

first_video-IsDescribed :
    (fs : List Text) → IsDescribed fs (first_video fs) (label_of (first_video fs))
unfolding first_video
first_video-IsDescribed [] = inl (refl, no_label, tt)
first_video-IsDescribed (f ∷ fs) = elim (Option-cases (codec_in f video_codecs)) [
  | inl e ↦
      subst (λ v. IsDescribed (f ∷ fs) v (label_of v)) (sym (video_skipped f fs e))
        (later e (first_video-IsDescribed fs))
  | inr (label, e) ↦
      subst (λ v. IsDescribed (f ∷ fs) v (label_of v)) (sym (video_taken f label fs e))
        (inr ([], fs, refl, tt, e ∙ ap some (sym (label_of-eq f label e))))
]
  where
    later :
        codec_in f video_codecs ≡ none
        → IsDescribed fs (first_video fs) (label_of (first_video fs))
        → IsDescribed (f ∷ fs) (first_video fs) (label_of (first_video fs))
    later e (inl (empty, unnamed, all)) = inl (empty, unnamed, (e, all))
    later e (inr (before, after, split, all, named)) =
        inr (f ∷ before, after, ap (λ x. f ∷ x) split, (e, all), named)

-- A file that is described has the formats that the walk finds, at least one and at most 4,000, and
-- it is described by the first of them that VIDEO_CODECS names, with that name, or by none where
-- VIDEO_CODECS names none of them.
pub sniff_iso_sound :
    (blob : Bytes) (m : Media)
    → sniff_iso blob ≡ some m
    → (m.formats ≡ all_formats blob)
      × (0 < length m.formats)
      × (length m.formats ≤ iso_budget)
      × IsDescribed m.formats m.video m.label
unfolding sniff_iso
sniff_iso_sound blob m e = elim (Bool-cases (ltb (length (slice blob 0 8)) 8)) [
  | inl short ↦ absurd (none-some (rw (sniff_iso, short) at e))
  | inr long ↦ elim (Bool-cases (is_among (fourcc (slice blob 0 8) 4) iso_openers)) [
    | inr other ↦ absurd (none-some (rw (sniff_iso, long, other) at e))
    | inl iso ↦
        described (all_formats blob) (all_formats_bounded blob iso_budget (omega arith)).1
          (rw (sniff_iso, long, iso) at e)
  ]
]
  where
    none-some : none ≡ some m → ⊥
    none-some e = cc

    described :
        (fs : List Text)
        → length fs ≤ iso_budget
        → (elim fs as (λ _. Option Media) [
          | [] ↦ none
          | f ∷ fs ↦
              let video = first_video (f ∷ fs) in
              some (record { formats = f ∷ fs; video = video; label = label_of video })
        ])
          ≡ some m
        → (m.formats ≡ fs)
          × (0 < length m.formats)
          × (length m.formats ≤ iso_budget)
          × IsDescribed m.formats m.video m.label
    described [] le e = absurd (none-some e)
    described (f ∷ fs) le e =
        subst
          (λ x.
            (x.formats ≡ f ∷ fs)
            × (0 < length x.formats)
            × (length x.formats ≤ iso_budget)
            × IsDescribed x.formats x.video x.label)
          (some-injective e) (refl, omega arith, le, first_video-IsDescribed (f ∷ fs))
