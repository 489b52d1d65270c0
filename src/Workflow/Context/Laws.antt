-- ===== src/Workflow/Context/Laws.antt =====
-- What holds of the context: the first error stays, a killed workflow needs no approval, and a card
-- that is lost again and again counts as badly placed.
use ausweis_app2_omapi.Prelude.{
  ℕ, ◌+◌, Bool, true, false, ◌≡◌, refl, ap, ◌∙◌, List, [], ◌∷◌, Option, none, some, String, arith,
  if◌then◌else◌, ltb,
}
use ausweis_app2_omapi.Global.Status.{GlobalStatus, is_error, is_no_error}
use ausweis_app2_omapi.Workflow.Context.Fields.{WorkflowContext}
use ausweis_app2_omapi.Workflow.Context.{
  update_status, on_entry, on_exit, handle_wrong_npa_position, set_status,
}

abbrev pub updated : List GlobalStatus → WorkflowContext → WorkflowContext
updated [] c = c
updated (s ∷ l) c = updated l (update_status s c)

-- The first error of a list, or the status that was there.
abbrev pub first_error : List GlobalStatus → GlobalStatus → GlobalStatus
first_error [] d = d
first_error (s ∷ l) d = if is_error s then s else first_error l d

stays :
    (l : List GlobalStatus) (c : WorkflowContext) → is_no_error c.status ≡ false → updated l c ≡ c
unfolding update_status
stays [] c h = refl
stays (s ∷ l) c h =
    let same : update_status s c ≡ c = ground arith in ap (updated l) same ∙ stays l c h

updated-step :
    (s : GlobalStatus) (l : List GlobalStatus) (c : WorkflowContext)
    → is_no_error c.status ≡ true
    → ((d : WorkflowContext)
        → is_no_error d.status ≡ true
        → (updated l d).status ≡ first_error l d.status)
    → (b : Bool) → is_error s ≡ b
    → (updated l (update_status s c)).status ≡ (if b then s else first_error l c.status)
unfolding update_status is_error
updated-step s l c h rest true e =
    let taken : update_status s c ≡ set_status s c = ground arith in
    let error : is_no_error (set_status s c).status ≡ false = unfold set_status in ground arith in
    ap (λ d. (updated l d).status) taken
    ∙ ap (λ d. d.status) (stays l (set_status s c) error)
    ∙ unfold set_status in refl
updated-step s l c h rest false e =
    let ignored : update_status s c ≡ c = ground arith in
    ap (λ d. (updated l d).status) ignored ∙ rest c h

-- A workflow that had no error ends, whatever its states report, with the first error among it, or with
-- the status that it had.
pub updated-first_error :
    (l : List GlobalStatus) (c : WorkflowContext)
    → is_no_error c.status ≡ true
    → (updated l c).status ≡ first_error l c.status
unfolding update_status
updated-first_error [] c h = refl
updated-first_error (s ∷ l) c h = updated-step s l c h (updated-first_error l) (is_error s) refl

-- A state that is entered waits for its approval, unless the workflow was killed.
pub entered-approved :
    (name : String) (c : WorkflowContext)
    → (on_entry name (on_exit c)).state_approved ≡ c.workflow_killed
unfolding on_entry on_exit
entered-approved name c = ground arith

abbrev pub lost : List ℕ → WorkflowContext → WorkflowContext
lost [] c = c
lost (now ∷ times) c = lost times (handle_wrong_npa_position now c)

-- The timer starts with the second time.
abbrev pub second_time : List ℕ → Option ℕ
second_time (first ∷ second ∷ times) = some second
second_time _ = none

-- More than four seconds after the second time.
abbrev pub late : List ℕ → ℕ → Bool
late (first ∷ second ∷ times) now = ltb (second + 4000) now
late _ now = false
