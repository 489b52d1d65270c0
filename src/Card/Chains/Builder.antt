-- ===== src/Card/Chains/Builder.antt =====
-- src/card/base/asn1/ChainBuilder.h: all chains of the elements of a pool, top down. The test that two
-- elements are the same and the relation of child and parent are parameters, as in the template.
use ausweis_app2_omapi.Prelude.{
  ℕ, zero, suc, Bool, true, false, not, ◌&&◌, if◌then◌else◌, Option, none, some, List, [], ◌∷◌,
  ◌++◌, length, ◌>>=◌,
}

-- `QVector::contains`
unfoldable pub contains {ℓ} : {A : Type ℓ} → (A → A → Bool) → List A → A → Bool
contains same [] a = false
contains same (x ∷ l) a = if same x a then true else contains same l a

unfoldable pub is_prefix {ℓ} : {A : Type ℓ} → (A → A → Bool) → List A → List A → Bool
is_prefix same [] l = true
is_prefix same (x ∷ sub) [] = false
is_prefix same (x ∷ sub) (y ∷ l) = same y x && is_prefix same sub l

-- `std::search`: whether it finds the second sequence in the first.
unfoldable pub is_found {ℓ} : {A : Type ℓ} → (A → A → Bool) → List A → List A → Bool
unfolding is_prefix
is_found same [] sub = false
is_found same (x ∷ l) sub = if is_prefix same sub (x ∷ l) then true else is_found same l sub

unfoldable pub is_sub_chain {ℓ} : {A : Type ℓ} → (A → A → Bool) → List (List A) → List A → Bool
unfolding is_found
is_sub_chain same [] sub = false
is_sub_chain same (c ∷ chains) sub =
    if is_found same c sub then true else is_sub_chain same chains sub

-- A chain is not empty: its first element, and the others.
unfoldable pub last {ℓ} : {A : Type ℓ} → A → List A → A
last first [] = first
last first (x ∷ rest) = last x rest

-- The loop of `buildChain`; its first argument stands for the recursive calls. The state is
-- `chainComplete` and `mChains`.
unfoldable pub visit {ℓ} :
    {A : Type ℓ}
    → (A → A → Bool)
    → (A → A → Bool)
    → (A → List A → List (List A) → Option (List (List A)))
    → A
    → List A
    → List A
    → Bool
    → List (List A)
    → Option (Bool × List (List A))
unfolding contains last
visit same is_child build first rest [] complete chains = some (complete, chains)
visit same is_child build first rest (e ∷ elements) complete chains =
    if contains same (first ∷ rest) e
    then visit same is_child build first rest elements complete chains
    else if is_child e (last first rest)
    then (do
      c ← build first (rest ++ e ∷ []) chains
      visit same is_child build first rest elements false c)
    else if is_child first e
    then (do
      c ← build e (first ∷ rest) chains
      visit same is_child build first rest elements false c)
    else visit same is_child build first rest elements complete chains

-- The end of `buildChain`.
unfoldable pub complete_chain {ℓ} :
    {A : Type ℓ} → (A → A → Bool) → List A → Bool × List (List A) → List (List A)
unfolding is_sub_chain
complete_chain same chain s =
    if s.0 && not (is_sub_chain same s.1 chain) then s.1 ++ chain ∷ [] else s.1

-- `buildChain` on fuel: the depth of the recursion.
unfoldable pub build_chain {ℓ} :
    {A : Type ℓ}
    → (A → A → Bool)
    → (A → A → Bool)
    → List A
    → ℕ
    → A
    → List A
    → List (List A)
    → Option (List (List A))
unfolding visit complete_chain
build_chain same is_child all_elements zero first rest chains = none
build_chain same is_child all_elements (suc n) first rest chains = do
  s ←
      visit same is_child (build_chain same is_child all_elements n) first rest all_elements true
        chains
  some (complete_chain same (first ∷ rest) s)

unfoldable pub build_from {ℓ} :
    {A : Type ℓ}
    → (A → A → Bool)
    → (A → A → Bool)
    → List A
    → List A
    → List (List A)
    → Option (List (List A))
unfolding build_chain is_sub_chain
build_from same is_child all_elements [] chains = some chains
build_from same is_child all_elements (e ∷ elements) chains =
    if not (is_sub_chain same chains (e ∷ []))
    then (do
      c ← build_chain same is_child all_elements (suc (length all_elements)) e [] chains
      build_from same is_child all_elements elements c)
    else build_from same is_child all_elements elements chains

-- The constructor of `ChainBuilder`.
unfoldable pub build_chains {ℓ} :
    {A : Type ℓ} → (A → A → Bool) → (A → A → Bool) → List A → Option (List (List A))
unfolding build_from
build_chains same is_child all_elements = build_from same is_child all_elements all_elements []
