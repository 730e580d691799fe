-- ===== src/Pages/Steps/Coherent.antt =====
-- What holds of the upload form whatever is done to it.
use k_quickshare.Base.{◌∷◌, [], List, Option, Bool, arith, some, none, ◌||◌, not, false, true, ◌≡◌}
use k_quickshare.Pages.Steps.{
  set_single_use, Defaults, reset_options, on_step_events, Saved, StepEvent, Steps, on_step_event,
}
use k_quickshare.Json.{codes, text_eq}

-- There are values to go back to.
abbrev pub is_kept : Option Saved → Bool
is_kept none = false
is_kept (some p) = true

-- Step 2 is open exactly where the settings are confirmed, the settings can be edited exactly
-- before that and while no link has them, and under Single-Use only the password can.
pub record IsCoherent (s : Steps) : Type 0 where
  pub gate : s.input_disabled ≡ not s.params_confirmed
  pub paste_gate : s.paste_disabled ≡ not s.params_confirmed
  pub back : s.edit_hidden ≡ (not s.params_confirmed || s.options_locked)
  pub forth : s.confirm_hidden ≡ s.params_confirmed
  pub password : s.password_disabled ≡ (s.options_locked || s.params_confirmed)
  pub single : s.single_use_disabled ≡ (s.options_locked || s.params_confirmed)
  pub box : s.box_locked ≡ (s.options_locked || s.params_confirmed)
  pub expires : s.expires_disabled ≡ (s.options_locked || s.params_confirmed || s.single_use)
  pub expires_at : s.expires_at_disabled ≡ (s.options_locked || s.params_confirmed || s.single_use)
  pub max : s.max_disabled ≡ (s.options_locked || s.params_confirmed || s.single_use)
  pub pressed : s.pressed ≡ s.single_use
  pub custom : s.expires_at_hidden ≡ not (text_eq s.expires (codes "custom"))
  pub one_hour : s.single_use ≡ true → s.expires ≡ codes "1"
  pub one_download : s.single_use ≡ true → s.max_downloads ≡ codes "1"
  pub kept : is_kept s.pre_single_use ≡ s.single_use

on_step_event-IsCoherent :
    (e : StepEvent) (s : Steps) → IsCoherent s → IsCoherent (on_step_event e s)
unfolding on_step_event
on_step_event-IsCoherent e s h = ground arith

reset_options-IsCoherent : (d : Defaults) (s : Steps) → IsCoherent (reset_options d s)
unfolding reset_options
reset_options-IsCoherent d s = ground arith

events-IsCoherent :
    (es : List StepEvent) (s : Steps) → IsCoherent s → IsCoherent (on_step_events es s)
unfolding on_step_events
events-IsCoherent [] s h = h
events-IsCoherent (e ∷ es) s h =
    events-IsCoherent es (on_step_event e s) (on_step_event-IsCoherent e s h)

-- Whatever is done to the form after it was reset, its elements agree with its state: files can be
-- added exactly while the settings are confirmed, the settings can be edited exactly before that
-- and while no link has them, and Single-Use is one hour and one download that cannot be edited.
pub on_step_events-IsCoherent :
    (d : Defaults) (s : Steps) (es : List StepEvent)
    → IsCoherent (on_step_events es (reset_options d s))
on_step_events-IsCoherent d s es =
    events-IsCoherent es (reset_options d s) (reset_options-IsCoherent d s)

-- Single-Use turned on and off again leaves the form as it was, every value and every element. It
-- was off, and the elements agreed with the state.
pub single_use_restores :
    (s : Steps)
    → IsCoherent s
    → s.single_use ≡ false
    → set_single_use false (set_single_use true s) ≡ s
unfolding set_single_use
single_use_restores s h off = grind arith
