-- ===== src/Workflow/Pace/Safety.antt =====
-- A password that the card rejected is not sent to it again.
use mathlib.Core.Bool.{false≢true}
use ausweis_app2_omapi.Prelude.{
  String, Bool, true, false, ◌≡◌, refl, ap, ◌∙◌, sym, subst, ◌||◌, Option, none, some, arith, ◌⊎◌,
  inl, inr,
}
use ausweis_app2_omapi.Global.Status.{GlobalStatus, of_code, Code}
use ausweis_app2_omapi.Global.ReturnCode.{CardReturnCode, equals_wrong_pace_password}
use ausweis_app2_omapi.Workflow.Context.Fields.{WorkflowContext, CardConnection}
use ausweis_app2_omapi.Workflow.Context.{
  update_status, reset_card_connection, reset_last_pace_result, on_entry, on_exit,
}
use ausweis_app2_omapi.Workflow.Pace.{
  maintain_by_result, run_maintain_card_connection, run_enter_pace_password,
  run_update_retry_counter, verify_with, run_verify_retry_counter, prepare_with, prepare_if,
  run_prepare_pace, on_update_retry_counter_done, on_user_cancelled, on_card_removed,
  run_clear_pace_passwords,
}
use ausweis_app2_omapi.Workflow.Pace.Passwords.{
  on_card_removed_lem, no_passwords, cleared, status_kept, connection_kept, result_kept,
  verify_kept,
}
use ausweis_app2_omapi.Workflow.Pace.Signals.{CardCommand, fire_abort, Outcome, fires, calls}
use ausweis_app2_omapi.Workflow.Pace.Machine.{
  PaceState, maintain_card_connection, clear_pace_passwords_on_error, select_card,
  update_retry_counter, verify_retry_counter, prepare_pace, unfortunate_card_position,
  enter_pace_password, establish_pace_channel, clear_pace_passwords_before_destroy, destroy_pace,
  Target, enters, transition, run, cancel, Ends, ran, password_entered, retry_counter_updated,
  channel_done, destroyed, card_selected, selection_aborted, cancelled, cancelled_meanwhile,
  card_removed, card_removed_meanwhile, entered, Step, step,
}

-- The state that asks for a password.
abbrev pub asks : PaceState → Bool
asks enter_pace_password = true
asks _ = false

abbrev is_call : Outcome → Bool
is_call (calls command c) = true
is_call _ = false

-- What holds on the way from a rejected password to the state that asks for a new one.
abbrev held : PaceState → WorkflowContext → Bool
held maintain_card_connection c = equals_wrong_pace_password c.last_pace_result || no_passwords c
held clear_pace_passwords_on_error c = true
held enter_pace_password c = no_passwords c
held select_card c = no_passwords c
held update_retry_counter c = no_passwords c
held verify_retry_counter c = no_passwords c
held prepare_pace c = no_passwords c
held _ c = false

abbrev held_at : Option Target → WorkflowContext → Bool
held_at (some (enters t)) c = held t c
held_at _ c = true

abbrev leads : PaceState → Outcome → Bool
leads s (fires signal c) = held_at (transition s signal) c
leads s (calls command c) = held s c
leads s _ = true

maintain_leads :
    (r : CardReturnCode) (c : WorkflowContext)
    → equals_wrong_pace_password r || no_passwords c ≡ true
    → leads maintain_card_connection (maintain_by_result r c) ≡ true
unfolding transition maintain_by_result equals_wrong_pace_password
maintain_leads CardReturnCode.ok c h = ground arith
maintain_leads _ c h =
    let after = cleared c in
    let without : no_passwords (reset_last_pace_result (reset_card_connection c)) ≡ no_passwords c =
      result_kept (reset_card_connection c) ∙ connection_kept c in
    let reset = result_kept c in ground arith

prepare_leads :
    (connection : CardConnection) (c : WorkflowContext)
    → no_passwords c ≡ true
    → leads prepare_pace (prepare_with connection c) ≡ true
unfolding transition prepare_with
prepare_leads connection c h = ground arith

update_leads :
    (r : CardReturnCode) (c : WorkflowContext)
    → no_passwords c ≡ true
    → leads update_retry_counter (on_update_retry_counter_done r c) ≡ true
unfolding transition on_update_retry_counter_done
update_leads r c h = let gone = connection_kept c in ground arith

verify_leads :
    (connection : Option CardConnection) (c : WorkflowContext)
    → no_passwords c ≡ true
    → leads verify_retry_counter (verify_with connection c) ≡ true
unfolding transition
verify_leads none c h = ground arith
verify_leads (some connection) c h = verify_kept connection.retry_counter c h

prepare_if-leads :
    (connection : Option CardConnection) (c : WorkflowContext)
    → no_passwords c ≡ true
    → leads prepare_pace (prepare_if connection c) ≡ true
prepare_if-leads none c h = unfold transition equals_wrong_pace_password in ground arith
prepare_if-leads (some connection) c h = prepare_leads connection c h

run_maintain_leads :
    (c : WorkflowContext)
    → equals_wrong_pace_password c.last_pace_result || no_passwords c ≡ true
    → leads maintain_card_connection (run_maintain_card_connection c) ≡ true
unfolding run_maintain_card_connection transition
run_maintain_leads c h =
    let switch : leads maintain_card_connection (maintain_by_result c.last_pace_result c) ≡ true =
      maintain_leads c.last_pace_result c h in
    ground arith

run_update_leads :
    (c : WorkflowContext)
    → no_passwords c ≡ true
    → leads update_retry_counter (run_update_retry_counter c) ≡ true
unfolding run_update_retry_counter transition
run_update_leads c h = ground arith

run-leads :
    (s : PaceState) (c : WorkflowContext)
    → held s c ≡ true
    → asks s ≡ false
    → leads s (run s c) ≡ true
unfolding run
run-leads maintain_card_connection c h n = run_maintain_leads c h
run-leads clear_pace_passwords_on_error c h n = unfold transition run_clear_pace_passwords in refl
run-leads select_card c h n = refl
run-leads update_retry_counter c h n = run_update_leads c h
run-leads verify_retry_counter c h n =
    unfold run_verify_retry_counter in verify_leads c.card_connection c h
run-leads prepare_pace c h n = unfold run_prepare_pace in prepare_if-leads c.card_connection c h
run-leads enter_pace_password c h n = absurd (false≢true (sym n))
run-leads unfortunate_card_position c h n = absurd (false≢true h)
run-leads establish_pace_channel c h n = absurd (false≢true h)
run-leads clear_pace_passwords_before_destroy c h n = absurd (false≢true h)
run-leads destroy_pace c h n = absurd (false≢true h)

-- The status does not matter to what is held.
aborted-leads :
    (s : PaceState) (status : GlobalStatus) (c : WorkflowContext)
    → held s c ≡ true
    → leads s (fires fire_abort (update_status status c)) ≡ true
unfolding transition
aborted-leads establish_pace_channel status c h = absurd (false≢true h)
aborted-leads unfortunate_card_position status c h = absurd (false≢true h)
aborted-leads clear_pace_passwords_before_destroy status c h = absurd (false≢true h)
aborted-leads destroy_pace status c h = absurd (false≢true h)
aborted-leads maintain_card_connection status c h = refl
aborted-leads clear_pace_passwords_on_error status c h = refl
aborted-leads _ status c h = let kept = status_kept status c in ground arith

cancel-leads : (s : PaceState) (c : WorkflowContext) → held s c ≡ true → leads s (cancel s c) ≡ true
unfolding cancel on_user_cancelled
cancel-leads establish_pace_channel c h = absurd (false≢true h)
cancel-leads s c h = aborted-leads s (of_code Code.workflow_cancellation_by_user) c h

removed-leads :
    (s : PaceState) (reader : String) (c : WorkflowContext) (o : Outcome)
    → on_card_removed reader c ≡ some o
    → held s c ≡ true
    → leads s o ≡ true
removed-leads s reader c o e h =
    subst (λ x. leads s x ≡ true) (on_card_removed_lem reader c o e)
      (aborted-leads s (of_code Code.workflow_card_removed) c h)

-- A state that calls the card keeps what is held meanwhile.
called-held :
    (s : PaceState) (command : CardCommand) (c c' : WorkflowContext)
    → run s c ≡ calls command c'
    → held s c ≡ true
    → held s c' ≡ true
unfolding run run_enter_pace_password
called-held enter_pace_password command c c' e h = absurd (false≢true (ap is_call e))
called-held s command c c' e h = sym (ap (leads s) e) ∙ run-leads s c h refl

-- The end of the state that asks for a password by its approval, whether the user entered one or not.
abbrev pub is_approval : (s : PaceState) (c : WorkflowContext) (o : Outcome) → Ends s c o → Bool
is_approval s c o (ran _ _) = asks s
is_approval s c o (password_entered can pin puk _) = true
is_approval s c o _ = false

Ends-leads :
    (s : PaceState) (c : WorkflowContext) (o : Outcome) (ends : Ends s c o)
    → held s c ≡ true
    → is_approval s c o ends ≡ false
    → leads s o ≡ true
Ends-leads s c o (ran _ _) h n = run-leads s c h n
Ends-leads s c o (password_entered can pin puk _) h n = absurd (false≢true (sym n))
Ends-leads s c o (retry_counter_updated connection r _ c' e) h n =
    update_leads r _ (sym (ap (leads update_retry_counter) e) ∙ run_update_leads c h)
Ends-leads s c o (channel_done now command connection r output _ c' e) h n = absurd (false≢true h)
Ends-leads s c o (destroyed connection _ c' e) h n = absurd (false≢true h)
Ends-leads s c o (card_selected reader connection _) h n = unfold transition in h
Ends-leads s c o (selection_aborted reader connection _) h n = unfold transition in ground arith
Ends-leads s c o (cancelled _ _) h n = cancel-leads s c h
Ends-leads s c o (cancelled_meanwhile _ command _ c' e) h n =
    cancel-leads s c' (called-held s command c c' e h)
Ends-leads s c o (card_removed _ reader _ _ e) h n = removed-leads s reader c o e h
Ends-leads s c o (card_removed_meanwhile _ reader command _ c' _ e r) h n =
    removed-leads s reader c' o r (called-held s command c c' e h)

entered_passwords :
    (s : PaceState) (c : WorkflowContext) → no_passwords (entered s c) ≡ no_passwords c
unfolding on_entry on_exit
entered_passwords s c = ground arith

entered_result :
    (s : PaceState) (c : WorkflowContext) → (entered s c).last_pace_result ≡ c.last_pace_result
unfolding on_entry on_exit
entered_result s c = ground arith

held-entered : (s : PaceState) (c : WorkflowContext) → held s (entered s c) ≡ held s c
held-entered maintain_card_connection c =
    ap (λ b. equals_wrong_pace_password (entered maintain_card_connection c).last_pace_result || b)
      (entered_passwords maintain_card_connection c)
    ∙ ap (λ r. equals_wrong_pace_password r || no_passwords c)
        (entered_result maintain_card_connection c)
held-entered clear_pace_passwords_on_error c = refl
held-entered enter_pace_password c = entered_passwords enter_pace_password c
held-entered select_card c = entered_passwords select_card c
held-entered update_retry_counter c = entered_passwords update_retry_counter c
held-entered verify_retry_counter c = entered_passwords verify_retry_counter c
held-entered prepare_pace c = entered_passwords prepare_pace c
held-entered _ c = refl

abbrev pub is_approval_step : (s t : PaceState) (c d : WorkflowContext) → Step s c t d → Bool
is_approval_step s t c _ (step _ _ _ d signal ends e) = is_approval s c (fires signal d) ends

Step-held :
    (s t : PaceState) (c d : WorkflowContext) (taken : Step s c t d)
    → is_approval_step s t c d taken ≡ false
    → held s c ≡ true
    → held t d ≡ true
Step-held s t c _ (step _ _ _ d signal ends e) n h =
    held-entered t d ∙ sym (ap (λ target. held_at target d) e) ∙ Ends-leads s c _ ends h n

-- Steps of the machine in which the state that asks for a password is not approved. The user may cancel
-- there, and the card may be removed.
pub data Unattended : PaceState → WorkflowContext → PaceState → WorkflowContext → Type 0 where
  here : (s : PaceState) (c : WorkflowContext) → Unattended s c s c
  further :
      (s t u : PaceState) (b c d : WorkflowContext) (taken : Step t c u d)
      → Unattended s b t c
      → is_approval_step t u c d taken ≡ false
      → Unattended s b u d

Unattended-held :
    (s t : PaceState) (c d : WorkflowContext)
    → Unattended s c t d
    → held s c ≡ true
    → held t d ≡ true
Unattended-held s t c d (here _ _) h = h
Unattended-held s u b d (further _ t _ _ c _ taken walk n) h =
    Step-held t u c d taken n (Unattended-held s t b c walk h)

asked_without :
    (t : PaceState) (d : WorkflowContext)
    → held t d ≡ true
    → (asks t ≡ false) ⊎ (no_passwords d ≡ true)
asked_without enter_pace_password d h = inr h
asked_without _ d h = inl refl

-- From the state that looks after the card connection, with a last result that says a password was
-- rejected, and from there by any steps in which the state that asks for a password is not approved,
-- cancellations and removals of the card included, the machine is never in the state that sends a
-- password to the card; and where it is in the state that asks for one, the context has none.
pub rejected_password_not_sent :
    (c d : WorkflowContext) (t : PaceState)
    → equals_wrong_pace_password c.last_pace_result ≡ true
    → Unattended maintain_card_connection c t d
    → (¬ (t ≡ establish_pace_channel)) × ((asks t ≡ false) ⊎ (no_passwords d ≡ true))
rejected_password_not_sent c d t wrong walk =
    let start : held maintain_card_connection c ≡ true = ap (λ b. b || no_passwords c) wrong in
    let now : held t d ≡ true = Unattended-held maintain_card_connection t c d walk start in
    (λ e. false≢true (ap (λ s. held s d) (sym e) ∙ now), asked_without t d now)
