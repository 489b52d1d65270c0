-- ===== src/Workflow/Pace/Passwords.antt =====
-- What the operations on the context do to its passwords.
use text.Mathlib.Text.{◌==◌ as str_eq}
use ausweis_app2_omapi.Prelude.{
  Bool, true, false, if◌then◌else◌, ◌≡◌, refl, ap, ◌∙◌, ◌&&◌, String, ℤ, arith, some,
}
use ausweis_app2_omapi.Global.Status.{GlobalStatus, Code, of_code}
use ausweis_app2_omapi.Workflow.Context.Fields.{WorkflowContext}
use ausweis_app2_omapi.Workflow.Context.{
  set_can, set_pin, set_puk, reset_pace_passwords, update_status, reset_card_connection,
  reset_last_pace_result,
}
use ausweis_app2_omapi.Workflow.Pace.{verify_counter, on_card_removed}
use ausweis_app2_omapi.Workflow.Pace.Signals.{Outcome, fires, fire_abort}

abbrev pub no_passwords : WorkflowContext → Bool
no_passwords c = str_eq c.can "" && (str_eq c.pin "" && str_eq c.puk "")

chosen :
    (p : WorkflowContext → Bool) (b : Bool) (x y : WorkflowContext)
    → (b ≡ true → p x ≡ true)
    → p y ≡ true
    → p (if b then x else y) ≡ true
chosen p true x y f e = f refl
chosen p false x y f e = e

can_cleared : (c : WorkflowContext) → str_eq (set_can "" c).can "" ≡ true
unfolding set_can
can_cleared c = chosen (λ d. str_eq d.can "") (str_eq c.can "") c _ (λ e. e) refl

pin_cleared : (c : WorkflowContext) → str_eq (set_pin "" c).pin "" ≡ true
unfolding set_pin
pin_cleared c = chosen (λ d. str_eq d.pin "") (str_eq c.pin "") c _ (λ e. e) refl

puk_cleared : (c : WorkflowContext) → str_eq (set_puk "" c).puk "" ≡ true
unfolding set_puk
puk_cleared c = chosen (λ d. str_eq d.puk "") (str_eq c.puk "") c _ (λ e. e) refl

pin_keeps_can : (s : String) (c : WorkflowContext) → str_eq (set_pin s c).can "" ≡ str_eq c.can ""
unfolding set_pin
pin_keeps_can s c = ground arith

puk_keeps_can : (s : String) (c : WorkflowContext) → str_eq (set_puk s c).can "" ≡ str_eq c.can ""
unfolding set_puk
puk_keeps_can s c = ground arith

puk_keeps_pin : (s : String) (c : WorkflowContext) → str_eq (set_puk s c).pin "" ≡ str_eq c.pin ""
unfolding set_puk
puk_keeps_pin s c = ground arith

pub cleared : (c : WorkflowContext) → no_passwords (reset_pace_passwords c) ≡ true
unfolding reset_pace_passwords
cleared c =
    let can_step = set_can "" c in
    let pin_step = set_pin "" can_step in
    let can : str_eq (set_puk "" pin_step).can "" ≡ true =
      puk_keeps_can "" pin_step ∙ pin_keeps_can "" can_step ∙ can_cleared c in
    let pin : str_eq (set_puk "" pin_step).pin "" ≡ true =
      puk_keeps_pin "" pin_step ∙ pin_cleared can_step in
    ap (λ b. b && (str_eq (set_puk "" pin_step).pin "" && str_eq (set_puk "" pin_step).puk "")) can
    ∙ ap (λ b. b && str_eq (set_puk "" pin_step).puk "") pin
    ∙ puk_cleared pin_step

pub status_kept :
    (s : GlobalStatus) (c : WorkflowContext) → no_passwords (update_status s c) ≡ no_passwords c
unfolding update_status
status_kept s c = ground arith

pub connection_kept :
    (c : WorkflowContext) → no_passwords (reset_card_connection c) ≡ no_passwords c
unfolding reset_card_connection
connection_kept c = ground arith

pub result_kept : (c : WorkflowContext) → no_passwords (reset_last_pace_result c) ≡ no_passwords c
unfolding reset_last_pace_result
result_kept c = ground arith

pub verify_kept :
    (current : ℤ) (c : WorkflowContext)
    → no_passwords c ≡ true
    → no_passwords (verify_counter current c) ≡ true
unfolding verify_counter
verify_kept current c h = let after = cleared c in ground arith

pub on_card_removed_lem :
    (reader : String) (c : WorkflowContext) (o : Outcome)
    → on_card_removed reader c ≡ some o
    → fires fire_abort (update_status (of_code Code.workflow_card_removed) c) ≡ o
unfolding on_card_removed
on_card_removed_lem reader c o e = ground arith
