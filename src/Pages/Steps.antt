-- ===== src/Pages/Steps.antt =====
-- The two steps of the upload form of web/static/app.js, on a page that has all of its elements:
-- which settings can be edited and when files can be added.
pub mod Coherent
use k_quickshare.Base.{
  [], ◌∷◌, List, Option, some, none, Bool, true, false, ◌&&◌, ◌||◌, not, if◌then◌else◌,
}
use k_quickshare.Json.{Text, codes, text_eq}

-- What the fields held before Single-Use.
pub record Saved : Type 0 where
  pub expires : Text
  pub expires_at : Text
  pub max : Text

-- The variables of the form, the values of its fields, and what the elements show: which are
-- disabled, which are hidden, and `aria-pressed`.
pub record Steps : Type 0 where
  pub options_locked : Bool
  pub params_confirmed : Bool
  pub single_use : Bool
  pub pre_single_use : Option Saved
  pub expires : Text
  pub expires_at : Text
  pub max_downloads : Text
  pub password : Text
  pub expires_disabled : Bool
  pub expires_at_disabled : Bool
  pub password_disabled : Bool
  pub max_disabled : Bool
  pub single_use_disabled : Bool
  pub pressed : Bool
  pub box_locked : Bool
  pub files_locked : Bool
  pub input_disabled : Bool
  pub paste_disabled : Bool
  pub step_done : Bool
  pub chip_hidden : Bool
  pub confirm_hidden : Bool
  pub edit_hidden : Bool
  pub expires_at_hidden : Bool

unfoldable pub apply_option_state : Steps → Steps
apply_option_state s =
    let frozen = s.options_locked || s.params_confirmed in
    let owned = not frozen && s.single_use in
    record s {
      expires_disabled = frozen || owned;
      expires_at_disabled = frozen || owned;
      password_disabled = frozen;
      max_disabled = frozen || owned;
      box_locked = frozen;
      single_use_disabled = frozen;
      pressed = s.single_use;
    }

unfoldable pub apply_step_state : Steps → Steps
apply_step_state s = record s {
  files_locked = not s.params_confirmed;
  input_disabled = not s.params_confirmed;
  paste_disabled = not s.params_confirmed;
  step_done = s.params_confirmed;
  chip_hidden = not s.params_confirmed;
  confirm_hidden = s.params_confirmed;
  edit_hidden = not s.params_confirmed || s.options_locked;
}

unfoldable pub set_params_confirmed : Bool → Steps → Steps
unfolding apply_option_state apply_step_state
set_params_confirmed on s =
    apply_step_state (apply_option_state (record s { params_confirmed = on }))

unfoldable pub set_options_locked : Bool → Steps → Steps
unfolding apply_option_state apply_step_state
set_options_locked locked s =
    apply_step_state (apply_option_state (record s { options_locked = locked }))

-- The button that goes back to step 1.
unfoldable pub click_edit : Steps → Steps
unfolding set_params_confirmed
click_edit s = if s.options_locked then s else set_params_confirmed false s

unfoldable pub sync_custom_expiry : Steps → Steps
sync_custom_expiry s = record s { expires_at_hidden = not (text_eq s.expires (codes "custom")) }

unfoldable pub take_values : Steps → Steps
take_values s = record s {
  pre_single_use =
      some (record { expires = s.expires; expires_at = s.expires_at; max = s.max_downloads });
  expires = codes "1";
  max_downloads = codes "1";
}

unfoldable pub restore_values : Steps → Steps
restore_values s = elim s.pre_single_use [
  | none ↦ s
  | some p ↦ record s {
    expires = p.expires;
    expires_at = p.expires_at;
    max_downloads = p.max;
    pre_single_use = none;
  }
]

-- `on === singleUse`
abbrev pub same_flag : Bool → Bool → Bool
same_flag true b = b
same_flag false b = not b

unfoldable pub set_single_use : Bool → Steps → Steps
unfolding take_values restore_values sync_custom_expiry apply_option_state
set_single_use on s =
    if same_flag on s.single_use
    then s
    else (let t = if on then take_values s else restore_values s in
        apply_option_state (sync_custom_expiry (record t { single_use = on })))

-- The values that `form.reset()` puts back.
pub record Defaults : Type 0 where
  pub expires : Text
  pub max_downloads : Text
  pub password : Text

unfoldable pub reset_options : Defaults → Steps → Steps
unfolding sync_custom_expiry apply_option_state apply_step_state
reset_options d s = apply_step_state (
    apply_option_state (
      sync_custom_expiry (record s {
        expires = d.expires;
        expires_at = [];
        max_downloads = d.max_downloads;
        password = d.password;
        single_use = false;
        pre_single_use = none;
        params_confirmed = false;
      })))

-- The user's choice of an expiry and its handler, with the date a week ahead as the browser has it.
unfoldable pub choose_expires : Text → Text → Steps → Steps
unfolding sync_custom_expiry
choose_expires value week_ahead s =
    let chosen = sync_custom_expiry (record s { expires = value }) in
    if text_eq value (codes "custom") && text_eq chosen.expires_at []
    then record chosen { expires_at = week_ahead }
    else chosen

-- What the user and the page can do to the form.
pub data StepEvent : Type 0 where
  confirm edit single_use_pressed : StepEvent
  locked : Bool → StepEvent
  shown_again : Defaults → StepEvent
  expires_chosen : Text → Text → StepEvent
  expires_at_typed : Text → StepEvent
  max_typed : Text → StepEvent
  password_typed : Text → StepEvent

-- An element that is disabled or hidden takes no input.
unfoldable pub on_step_event : StepEvent → Steps → Steps
unfolding set_params_confirmed click_edit set_single_use set_options_locked reset_options
    choose_expires
on_step_event confirm s = if s.confirm_hidden then s else set_params_confirmed true s
on_step_event edit s = if s.edit_hidden then s else click_edit s
on_step_event single_use_pressed s =
    if s.single_use_disabled then s else set_single_use (not s.single_use) s
on_step_event (locked b) s = set_options_locked b s
on_step_event (shown_again d) s = reset_options d s
on_step_event (expires_chosen v w) s = if s.expires_disabled then s else choose_expires v w s
on_step_event (expires_at_typed v) s =
    if s.expires_at_disabled then s else record s { expires_at = v }
on_step_event (max_typed v) s = if s.max_disabled then s else record s { max_downloads = v }
on_step_event (password_typed v) s = if s.password_disabled then s else record s { password = v }

unfoldable pub on_step_events : List StepEvent → Steps → Steps
unfolding on_step_event
on_step_events [] s = s
on_step_events (e ∷ es) s = on_step_events es (on_step_event e s)
