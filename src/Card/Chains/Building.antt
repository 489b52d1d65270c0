-- ===== src/Card/Chains/Building.antt =====
-- The recursion of `ChainBuilder` ends, and what it builds are chains.
use ausweis_app2_omapi.Prelude.{
  ℕ, ◌+◌, ◌≤◌, ◌<◌, Bool, true, false, if◌then◌else◌, Option, List, [], ◌∷◌, ◌++◌, length, All,
  ◌>>=◌, ◌≡◌, refl, ap, ◌∙◌, ◌⊎◌, inl, inr, arith,
}
use ausweis_app2_omapi.Card.Chains.Builder.{contains, last, visit}

-- Membership in a pool.
abbrev pub IsIn : {A : Type 0} → A → List A → Type 0
IsIn a [] = ⊥
IsIn a (x ∷ l) = (x ≡ a) ⊎ IsIn a l

pub All-append {ℓ κ} :
    {A : Type ℓ} (P : A → Type κ) (l m : List A) → All P l → All P m → All P (l ++ m)
All-append P [] m a b = b
All-append P (x ∷ l) m a b = (a.0, All-append P l m a.1 b)

nested :
    (a b c : Bool)
    → (if a then true else if b then true else c) ≡ (if (if a then true else b) then true else c)
nested true b c = refl
nested false b c = refl

module _ {A : Type 0} (same : A → A → Bool) (is_child : A → A → Bool) where
  -- Every element is a child of the one before it.
  abbrev pub IsLinked : A → List A → Type 0
  IsLinked x [] = Unit
  IsLinked x (y ∷ l) = (is_child y x ≡ true) × IsLinked y l

  abbrev pub IsDistinct : List A → Type 0
  IsDistinct [] = Unit
  IsDistinct (x ∷ l) = (contains same l x ≡ false) × IsDistinct l

  abbrev pub IsChain : List A → List A → Type 0
  IsChain pool [] = ⊥
  IsChain pool (x ∷ l) = IsLinked x l × IsDistinct (x ∷ l) × All (λ a. IsIn a pool) (x ∷ l)

  pub IsLinked-append :
      (e x : A) (l : List A)
      → is_child e (last x l) ≡ true
      → IsLinked x l
      → IsLinked x (l ++ e ∷ [])
  unfolding last
  IsLinked-append e x [] c h = (c, tt)
  IsLinked-append e x (y ∷ l) c h = (h.0, IsLinked-append e y l c h.1)

  pub contains-append :
      (l m : List A) (a : A)
      → contains same (l ++ m) a ≡ (if contains same l a then true else contains same m a)
  unfolding contains
  contains-append [] m a = refl
  contains-append (x ∷ l) m a =
      ap (λ b. if same x a then true else b) (contains-append l m a)
      ∙ nested (same x a) (contains same l a) (contains same m a)

  -- How many elements of a list a chain lacks.
  abbrev pub missing : List A → List A → ℕ
  missing c [] = 0
  missing c (x ∷ l) = (if contains same c x then 0 else 1) + missing c l

  pub missing-length : (c l : List A) → missing c l ≤ length l
  missing-length c [] = omega arith
  missing-length c (x ∷ l) = ground (arith, missing-length c l)

  missing_less :
      (c d l : List A)
      → ((x : A) → contains same c x ≡ true → contains same d x ≡ true)
      → missing d l ≤ missing c l
  missing_less c d [] h = omega arith
  missing_less c d (x ∷ l) h = ground (arith, missing_less c d l h, h x)

  pub missing_strict :
      (c d l : List A) (e : A)
      → ((x : A) → contains same c x ≡ true → contains same d x ≡ true)
      → IsIn e l
      → contains same c e ≡ false
      → contains same d e ≡ true
      → missing d l < missing c l
  missing_strict c d [] e h i f t = elim i [ ]
  missing_strict c d (x ∷ l) e h (inl p) f t =
      let cf : contains same c x ≡ false = ap (contains same c) p ∙ f in
      let dt : contains same d x ≡ true = ap (contains same d) p ∙ t in
      ground (arith, missing_less c d l h, cf, dt)
  missing_strict c d (x ∷ l) e h (inr i) f t = ground (arith, missing_strict c d l e h i f t, h x)

  pub visit_known :
      (build : A → List A → List (List A) → Option (List (List A))) (f : A) (r : List A) (e : A)
      (l : List A) (b : Bool) (c : List (List A))
      → contains same (f ∷ r) e ≡ true
      → visit same is_child build f r (e ∷ l) b c ≡ visit same is_child build f r l b c
  unfolding visit
  visit_known build f r e l b c h = ground (arith, h)

  pub visit_below :
      (build : A → List A → List (List A) → Option (List (List A))) (f : A) (r : List A) (e : A)
      (l : List A) (b : Bool) (c : List (List A))
      → contains same (f ∷ r) e ≡ false
      → is_child e (last f r) ≡ true
      → visit same is_child build f r (e ∷ l) b c
        ≡ (do d ← build f (r ++ e ∷ []) c; visit same is_child build f r l false d)
  unfolding visit
  visit_below build f r e l b c h k = ground (arith, h, k)

  pub visit_above :
      (build : A → List A → List (List A) → Option (List (List A))) (f : A) (r : List A) (e : A)
      (l : List A) (b : Bool) (c : List (List A))
      → contains same (f ∷ r) e ≡ false
      → is_child e (last f r) ≡ false
      → is_child f e ≡ true
      → visit same is_child build f r (e ∷ l) b c
        ≡ (do d ← build e (f ∷ r) c; visit same is_child build f r l false d)
  unfolding visit
  visit_above build f r e l b c h k j = ground (arith, h, k, j)

  pub visit_other :
      (build : A → List A → List (List A) → Option (List (List A))) (f : A) (r : List A) (e : A)
      (l : List A) (b : Bool) (c : List (List A))
      → contains same (f ∷ r) e ≡ false
      → is_child e (last f r) ≡ false
      → is_child f e ≡ false
      → visit same is_child build f r (e ∷ l) b c ≡ visit same is_child build f r l b c
  unfolding visit
  visit_other build f r e l b c h k j = ground (arith, h, k, j)
