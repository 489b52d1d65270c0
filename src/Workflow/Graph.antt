-- ===== src/Workflow/Graph.antt =====
-- The state machines of the controllers (QStateMachine): a state reacts to a signal by going to another
-- state, or ignores it.
use ausweis_app2_omapi.Prelude.{
  ℕ, zero, suc, Bool, true, ◌≡◌, ap, sym, ◌∙◌, if◌then◌else◌, ◌&&◌, Option, none, some,
}

-- `n` times the same signal.
unfoldable pub repeated : {S T : Type 0} → (S → T → Option S) → ℕ → T → S → S
repeated transition zero signal s = s
repeated transition (suc n) signal s =
    repeated transition n signal (elim (transition s signal) [ none ↦ s | some t ↦ t ])

-- A walk from a state, every step of which starts in a state that `through` admits.
pub data Walk {S T : Type 0} (transition : S → T → Option S) (through : S → Bool)
    : S → S → Type 0 where
  here : (s : S) → Walk transition through s s
  further :
      (s t u : S) (signal : T)
      → Walk transition through s t
      → through t ≡ true
      → transition t signal ≡ some u
      → Walk transition through s u

abbrev pub holds_at : {S : Type 0} → (S → Bool) → Option S → Bool
holds_at inv none = true
holds_at inv (some s) = inv s

-- The invariant is kept by a step.
abbrev pub keeps : {S T : Type 0} → (S → T → Option S) → (S → Bool) → (S → Bool) → S → T → Bool
keeps transition through inv s signal =
    if through s && inv s then holds_at inv (transition s signal) else true

-- An invariant that each step keeps holds at the end of a walk.
pub Walk-invariant :
    {S T : Type 0} (transition : S → T → Option S) (through inv : S → Bool)
    → ((s : S) (signal : T) → keeps transition through inv s signal ≡ true)
    → (s t : S) → Walk transition through s t
    → inv s ≡ true
    → inv t ≡ true
Walk-invariant transition through inv kept s t (here _) h = h
Walk-invariant transition through inv kept s u (further _ t _ signal walk admitted e) h =
    let before : inv t ≡ true = Walk-invariant transition through inv kept s t walk h in
    let both : through t && inv t ≡ true = ap (λ b. b && inv t) admitted ∙ before in
    let goes : keeps transition through inv t signal ≡ inv u =
      ap (λ b. if b then holds_at inv (transition t signal) else true) both ∙ ap (holds_at inv) e in
    sym goes ∙ kept t signal
