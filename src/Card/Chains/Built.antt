-- ===== src/Card/Chains/Built.antt =====
-- The chain builder on fuel returns, and every chain that it returns is a chain.
use ausweis_app2_omapi.Prelude.{
  ℕ, zero, suc, ◌≤◌, ◌<◌, Bool, true, false, not, ◌&&◌, if◌then◌else◌, Bool-cases, Option, some,
  List, [], ◌∷◌, ◌++◌, length, All, ◌>>=◌, ◌≡◌, refl, ap, sym, subst, inl, inr, arith,
}
use ausweis_app2_omapi.Card.Chains.Builder.{
  contains, is_sub_chain, last, visit, complete_chain, build_chain, build_from, build_chains,
}
use ausweis_app2_omapi.Card.Chains.Building.{
  IsIn, All-append, IsChain, missing, missing-length, visit_known, visit_below, visit_above,
  visit_other,
}
use ausweis_app2_omapi.Card.Chains.Extension.{below_IsChain, below_missing, above_missing}

none_below : {n : ℕ} → n < 0 → ⊥
none_below h = omega (arith, h)

All-IsIn : {A : Type 0} (l m : List A) → ((a : A) → IsIn a l → IsIn a m) → All (λ a. IsIn a m) l
All-IsIn [] m f = tt
All-IsIn (x ∷ l) m f = (f x (inl refl), All-IsIn l m (λ a i. f a (inr i)))

module _ {A : Type 0} (same : A → A → Bool) (is_child : A → A → Bool)
    (same_refl : (a : A) → same a a ≡ true) (same_sym : (a b : A) → same a b ≡ same b a) where
  -- A run returns, with chains only.
  record Builds (pool : List A) (o : Option (List (List A))) : Type 0 where
    chains : List (List A)
    runs : o ≡ some chains
    all_chains : All (IsChain same is_child pool) chains

  record Visits (pool : List A) (o : Option (Bool × List (List A))) : Type 0 where
    state : Bool × List (List A)
    runs : o ≡ some state
    all_chains : All (IsChain same is_child pool) state.1

  -- Recursive calls on chains that lack fewer elements than the bound return.
  abbrev BuildsBelow : List A → ℕ → (A → List A → List (List A) → Option (List (List A))) → Type 0
  BuildsBelow pool n build =
      (f : A) (r : List A) (c : List (List A))
      → IsChain same is_child pool (f ∷ r)
      → missing same is_child (f ∷ r) pool < n
      → All (IsChain same is_child pool) c
      → Builds pool (build f r c)

  moved :
      (pool : List A) (o p : Option (Bool × List (List A))) → o ≡ p → Visits pool p → Visits pool o
  moved pool o p e v = subst (Visits pool) (sym e) v

  visit_end :
      (pool : List A) (build : A → List A → List (List A) → Option (List (List A))) (f : A)
      (r : List A) (b : Bool) (c : List (List A))
      → All (IsChain same is_child pool) c
      → Visits pool (visit same is_child build f r [] b c)
  unfolding visit
  visit_end pool build f r b c a = record { state = (b, c); runs = refl; all_chains = a }

  then_Visits :
      (pool : List A) (o : Option (List (List A)))
      (k : List (List A) → Option (Bool × List (List A)))
      → Builds pool o
      → ((c : List (List A)) → All (IsChain same is_child pool) c → Visits pool (k c))
      → Visits pool (do c ← o; k c)
  then_Visits pool o k h f =
      moved pool (do c ← o; k c) (k h.chains) (ap (λ p. p >>= k) h.runs) (f h.chains h.all_chains)

  visit-Visits :
      (pool : List A) (n : ℕ) (build : A → List A → List (List A) → Option (List (List A)))
      → BuildsBelow pool n build
      → (f : A) (r l : List A) (b : Bool) (c : List (List A)) → All (λ a. IsIn a pool) l
      → IsChain same is_child pool (f ∷ r)
      → missing same is_child (f ∷ r) pool < suc n
      → All (IsChain same is_child pool) c
      → Visits pool (visit same is_child build f r l b c)
  visit-Visits pool n build rec f r [] b c i g m a = visit_end pool build f r b c a
  visit-Visits pool n build rec f r (e ∷ l) b c i g m a =
      let on : (b' : Bool) (c' : List (List A))
          → All (IsChain same is_child pool) c'
          → Visits pool (visit same is_child build f r l b' c') =
        λ b' c' a'. visit-Visits pool n build rec f r l b' c' i.1 g m a' in
      elim (Bool-cases (contains same (f ∷ r) e)) [
        | inl k ↦
            moved pool (visit same is_child build f r (e ∷ l) b c)
              (visit same is_child build f r l b c) (visit_known same is_child build f r e l b c k)
              (on b c a)
        | inr k ↦ elim (Bool-cases (is_child e (last f r))) [
          | inl j ↦
              let less : missing same is_child (f ∷ r ++ e ∷ []) pool
                  < missing same is_child (f ∷ r) pool =
                below_missing same is_child same_refl same_sym pool f r e k i.0 in
              moved pool (visit same is_child build f r (e ∷ l) b c)
                (do d ← build f (r ++ e ∷ []) c; visit same is_child build f r l false d)
                (visit_below same is_child build f r e l b c k j)
                (then_Visits pool (build f (r ++ e ∷ []) c) (visit same is_child build f r l false)
                  (rec f (r ++ e ∷ []) c
                    (below_IsChain same is_child same_refl same_sym pool f r e g k j i.0)
                    (omega (arith, less, m)) a)
                  (on false))
          | inr j ↦ elim (Bool-cases (is_child f e)) [
            | inl h ↦
                let less : missing same is_child (e ∷ f ∷ r) pool
                    < missing same is_child (f ∷ r) pool =
                  above_missing same is_child same_refl same_sym pool (f ∷ r) e k i.0 in
                moved pool (visit same is_child build f r (e ∷ l) b c)
                  (do d ← build e (f ∷ r) c; visit same is_child build f r l false d)
                  (visit_above same is_child build f r e l b c k j h)
                  (then_Visits pool (build e (f ∷ r) c) (visit same is_child build f r l false)
                    (rec e (f ∷ r) c ((h, g.0), (k, g.1), (i.0, g.2)) (omega (arith, less, m)) a)
                    (on false))
            | inr h ↦
                moved pool (visit same is_child build f r (e ∷ l) b c)
                  (visit same is_child build f r l b c)
                  (visit_other same is_child build f r e l b c k j h) (on b c a)
          ]
        ]
      ]

  complete_chain-All :
      (pool : List A) (f : A) (r : List A) (s : Bool × List (List A))
      → IsChain same is_child pool (f ∷ r)
      → All (IsChain same is_child pool) s.1
      → All (IsChain same is_child pool) (complete_chain same (f ∷ r) s)
  unfolding complete_chain
  complete_chain-All pool f r s g a =
      elim (Bool-cases (s.0 && not (is_sub_chain same s.1 (f ∷ r)))) [
        | inl k ↦
            subst (λ b. All (IsChain same is_child pool) (if b then s.1 ++ (f ∷ r) ∷ [] else s.1))
              (sym k) (All-append (IsChain same is_child pool) s.1 ((f ∷ r) ∷ []) a (g, tt))
        | inr k ↦
            subst (λ b. All (IsChain same is_child pool) (if b then s.1 ++ (f ∷ r) ∷ [] else s.1))
              (sym k) a
      ]

  then_Builds :
      (pool : List A) (o : Option (List (List A))) (k : List (List A) → Option (List (List A)))
      → Builds pool o
      → ((c : List (List A)) → All (IsChain same is_child pool) c → Builds pool (k c))
      → Builds pool (do c ← o; k c)
  then_Builds pool o k h f =
      subst (Builds pool) (sym (ap (λ p. p >>= k) h.runs)) (f h.chains h.all_chains)

  build_chain-Builds :
      (pool : List A) (n : ℕ) → BuildsBelow pool n (build_chain same is_child pool n)
  unfolding build_chain
  build_chain-Builds pool zero f r c g m a = elim (none_below m) [ ]
  build_chain-Builds pool (suc n) f r c g m a =
      let v : Visits pool (visit same is_child (build_chain same is_child pool n) f r pool true c) =
        visit-Visits pool n (build_chain same is_child pool n) (build_chain-Builds pool n) f r pool
          true c (All-IsIn pool pool (λ a i. i)) g m a in
      record {
        chains = complete_chain same (f ∷ r) v.state;
        runs = ap (λ p. p >>= λ s. some (complete_chain same (f ∷ r) s)) v.runs;
        all_chains = complete_chain-All pool f r v.state g v.all_chains;
      }

  build_from-Builds :
      (pool l : List A) (c : List (List A))
      → All (λ a. IsIn a pool) l
      → All (IsChain same is_child pool) c
      → Builds pool (build_from same is_child pool l c)
  unfolding build_from
  build_from-Builds pool [] c i a = record { chains = c; runs = refl; all_chains = a }
  build_from-Builds pool (e ∷ l) c i a =
      let on : (c' : List (List A))
          → All (IsChain same is_child pool) c'
          → Builds pool (build_from same is_child pool l c') =
        λ c' a'. build_from-Builds pool l c' i.1 a' in
      let bound : missing same is_child (e ∷ []) pool ≤ length pool =
        missing-length same is_child (e ∷ []) pool in
      let first : Builds pool (build_chain same is_child pool (suc (length pool)) e [] c) =
        build_chain-Builds pool (suc (length pool)) e [] c (tt, (refl, tt), (i.0, tt))
          (omega (arith, bound)) a in
      elim (Bool-cases (not (is_sub_chain same c (e ∷ [])))) [
        | inl k ↦
            subst
              (λ b. Builds pool (
                if b
                then (do
                  d ← build_chain same is_child pool (suc (length pool)) e [] c
                  build_from same is_child pool l d)
                else build_from same is_child pool l c))
              (sym k)
              (then_Builds pool (build_chain same is_child pool (suc (length pool)) e [] c)
                (build_from same is_child pool l) first on)
        | inr k ↦
            subst
              (λ b. Builds pool (
                if b
                then (do
                  d ← build_chain same is_child pool (suc (length pool)) e [] c
                  build_from same is_child pool l d)
                else build_from same is_child pool l c))
              (sym k) (on c a)
      ]

  -- The constructor returns, and what it keeps are chains of elements of the pool: each is linked, and
  -- holds no element twice.
  pub build_chains-IsChain :
      (pool : List A)
      → (c : List (List A)) × ((build_chains same is_child pool ≡ some c)
          × All (IsChain same is_child pool) c)
  unfolding build_chains
  build_chains-IsChain pool =
      let b : Builds pool (build_from same is_child pool pool []) =
        build_from-Builds pool pool [] (All-IsIn pool pool (λ a i. i)) tt in
      (b.chains, (b.runs, b.all_chains))
