-- ===== src/Card/Chains/Choice.antt =====
-- Which chain is chosen for the references of an answer of PACE.
use ausweis_app2_omapi.Prelude.{
  Bool, true, false, not, ◌&&◌, if◌then◌else◌, Bool-cases, Option, none, some, List, [], ◌∷◌, Bytes,
  ◌≡◌, refl, ap, sym, ◌∙◌, subst, ◌⊎◌, inl, inr,
}
use mathlib.Core.Bool.{false≢true}
use ausweis_app2_omapi.Card.PaceOutput.{EstablishPaceChannelOutput}
use ausweis_app2_omapi.Card.Chains.Cvc.{
  CvCertificate, CvCertificateChain, is_valid_list, is_valid, new_chain, or_else, find_in_chain,
  find_sub_chain, is_root_for, get_chain_for_car, get_chain_for_certification_authority,
}

-- The end of a chain, from one of its certificates on; and the end of one of several chains.
abbrev pub IsEnd : List CvCertificate → List CvCertificate → Type 0
IsEnd s [] = ⊥
IsEnd s (x ∷ l) = (s ≡ x ∷ l) ⊎ IsEnd s l

abbrev pub IsEndOfOne : List CvCertificate → List (List CvCertificate) → Type 0
IsEndOfOne s [] = ⊥
IsEndOfOne s (c ∷ chains) = IsEnd s c ⊎ IsEndOfOne s chains

abbrev pub starts_with : (CvCertificate → Bool) → List CvCertificate → Bool
starts_with start [] = false
starts_with start (x ∷ l) = start x

-- A valid part of one of the chains that starts as asked for.
abbrev pub Fits : (CvCertificate → Bool) → List (List CvCertificate) → List CvCertificate → Type 0
Fits start chains s = IsEndOfOne s chains × (is_valid_list s ≡ true) × (starts_with start s ≡ true)

abbrev FitsEnd : (CvCertificate → Bool) → List CvCertificate → List CvCertificate → Type 0
FitsEnd start l s = IsEnd s l × (is_valid_list s ≡ true) × (starts_with start s ≡ true)

is_valid-new_chain :
    (l : List CvCertificate) (productive : Bool)
    → is_valid (new_chain l productive) ≡ is_valid_list l
unfolding is_valid new_chain is_valid_list
is_valid-new_chain l productive = elim (Bool-cases (is_valid_list l)) [
  | inl h ↦ ap (λ b. is_valid_list (if not b then [] else l)) h
  | inr h ↦ ap (λ b. is_valid_list (if not b then [] else l)) h ∙ sym h
]

new_chain_valid :
    (l : List CvCertificate) (productive : Bool)
    → is_valid_list l ≡ true
    → (new_chain l productive).cvcs ≡ l
unfolding new_chain
new_chain_valid l productive h = ap (λ b. if not b then [] else l) h

-- The search in one chain.
abbrev Finds : (CvCertificate → Bool) → List CvCertificate → Option CvCertificateChain → Type 0
Finds start l none = (s : List CvCertificate) → FitsEnd start l s → ⊥
Finds start l (some c) = FitsEnd start l c.cvcs

both : (a b : Bool) → a && b ≡ true → (a ≡ true) × (b ≡ true)
both true b h = (refl, h)
both false b h = elim (false≢true h) [ ]

found_here :
    (start : CvCertificate → Bool) (productive : Bool) (x : CvCertificate) (l : List CvCertificate)
    (b : Bool)
    → start x && is_valid (new_chain (x ∷ l) productive) ≡ b
    → (rest : Option CvCertificateChain) → Finds start l rest
    → Finds start (x ∷ l) (if b then some (new_chain (x ∷ l) productive) else rest)
found_here start productive x l true h rest f =
    let parts : (start x ≡ true) × (is_valid (new_chain (x ∷ l) productive) ≡ true) =
      both (start x) (is_valid (new_chain (x ∷ l) productive)) h in
    let valid : is_valid_list (x ∷ l) ≡ true =
      sym (is_valid-new_chain (x ∷ l) productive) ∙ parts.1 in
    subst (FitsEnd start (x ∷ l)) (sym (new_chain_valid (x ∷ l) productive valid))
      (inl refl, valid, parts.0)
found_here start productive x l false h none f = λ s g. elim g.0 [
  | inl e ↦
      let valid : is_valid (new_chain (x ∷ l) productive) ≡ true =
        is_valid-new_chain (x ∷ l) productive ∙ ap is_valid_list (sym e) ∙ g.1 in
      let st : start x ≡ true = ap (starts_with start) (sym e) ∙ g.2 in
      false≢true (sym h ∙ ap (λ b. b && is_valid (new_chain (x ∷ l) productive)) st ∙ valid)
  | inr i ↦ f s (i, g.1, g.2)
]
found_here start productive x l false h (some c) f = (inr f.0, f.1, f.2)

find_in_chain-Finds :
    (start : CvCertificate → Bool) (productive : Bool) (l : List CvCertificate)
    → Finds start l (find_in_chain start productive l)
unfolding find_in_chain
find_in_chain-Finds start productive [] = λ s h. h.0
find_in_chain-Finds start productive (x ∷ l) =
    found_here start productive x l (start x && is_valid (new_chain (x ∷ l) productive)) refl
      (find_in_chain start productive l) (find_in_chain-Finds start productive l)

-- The search in all chains: a part that fits, or nothing where none fits.
abbrev pub Chooses :
    (CvCertificate → Bool) → List (List CvCertificate) → List CvCertificate → Type 0
Chooses start chains r =
    Fits start chains r ⊎ ((r ≡ []) × (¬ ((s : List CvCertificate) × Fits start chains s)))

chosen_here :
    (start : CvCertificate → Bool) (l : List CvCertificate) (chains : List (List CvCertificate))
    (o : Option CvCertificateChain) (rest : CvCertificateChain)
    → Finds start l o
    → Chooses start chains rest.cvcs
    → Chooses start (l ∷ chains) (or_else o rest).cvcs
chosen_here start l chains (some c) rest f h = inl (inl f.0, f.1, f.2)
chosen_here start l chains none rest f (inl h) = inl (inr h.0, h.1, h.2)
chosen_here start l chains none rest f (inr h) = inr (
  h.0,
  λ w.
      (let s : List CvCertificate = w.0 in
        let g : Fits start (l ∷ chains) s = w.1 in
        elim g.0 [ inl i ↦ f s (i, g.1, g.2) | inr i ↦ h.1 (s, (i, g.1, g.2)) ]),
)

nothing-Fits : (start : CvCertificate → Bool) (s : List CvCertificate) → Fits start [] s → ⊥
nothing-Fits start s f = f.0

pub find_sub_chain-Chooses :
    (start : CvCertificate → Bool) (productive : Bool) (chains : List (List CvCertificate))
    → Chooses start chains (find_sub_chain start productive chains).cvcs
unfolding find_sub_chain new_chain is_valid_list
find_sub_chain-Chooses start productive [] = inr (refl, λ w. nothing-Fits start w.0 w.1)
find_sub_chain-Chooses start productive (l ∷ chains) =
    chosen_here start l chains (find_in_chain start productive l)
      (find_sub_chain start productive chains) (find_in_chain-Finds start productive l)
      (find_sub_chain-Chooses start productive chains)

fall_back :
    (a b : CvCertificateChain) (chains : List (List CvCertificate))
    (curr prev : CvCertificate → Bool)
    → Chooses curr chains a.cvcs
    → Chooses prev chains b.cvcs
    → Fits curr chains (if not (is_valid_list a.cvcs) then b else a).cvcs
      ⊎ ((¬ ((s : List CvCertificate) × Fits curr chains s))
          × Chooses prev chains (if not (is_valid_list a.cvcs) then b else a).cvcs)
unfolding is_valid_list
fall_back a b chains curr prev (inl f) d =
    inl (subst (λ v. Fits curr chains (if not v then b else a).cvcs) (sym f.1) f)
fall_back a b chains curr prev (inr f) d =
    let invalid : is_valid_list a.cvcs ≡ false = ap is_valid_list f.0 in
    inr (f.1, subst (λ v. Chooses prev chains (if not v then b else a).cvcs) (sym invalid) d)

-- What a choice among chains for a reference means.
abbrev pub IsRootOf : Bytes → List CvCertificate → Type 0
IsRootOf car s = starts_with (is_root_for car) s ≡ true

-- The chain for the answer of PACE is a valid part of one of the chains for the current reference; where
-- there is none, one for the previous reference; and where there is none either, it is empty.
pub get_chain_for_certification_authority_lem :
    (output : EstablishPaceChannelOutput) (productive : Bool) (chains : List (List CvCertificate))
    → let r = (get_chain_for_certification_authority output productive chains).cvcs in
      let curr = is_root_for output.car_curr in
      let prev = is_root_for output.car_prev in
      Fits curr chains r
      ⊎ ((¬ ((s : List CvCertificate) × Fits curr chains s)) × Chooses prev chains r)
unfolding get_chain_for_certification_authority get_chain_for_car is_valid
get_chain_for_certification_authority_lem output productive chains =
    fall_back (find_sub_chain (is_root_for output.car_curr) productive chains)
      (find_sub_chain (is_root_for output.car_prev) productive chains) chains
      (is_root_for output.car_curr) (is_root_for output.car_prev)
      (find_sub_chain-Chooses (is_root_for output.car_curr) productive chains)
      (find_sub_chain-Chooses (is_root_for output.car_prev) productive chains)
