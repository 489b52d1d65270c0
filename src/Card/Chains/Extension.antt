-- ===== src/Card/Chains/Extension.antt =====
-- A chain that is extended at either end is a chain, and lacks fewer elements of the pool.
use ausweis_app2_omapi.Prelude.{
  ◌<◌, Bool, true, false, if◌then◌else◌, List, [], ◌∷◌, ◌++◌, ◌≡◌, refl, ap, ◌∙◌, arith,
}
use ausweis_app2_omapi.Card.Chains.Builder.{contains, last}
use ausweis_app2_omapi.Card.Chains.Building.{
  IsIn, All-append, IsDistinct, IsChain, IsLinked-append, contains-append, missing, missing_strict,
}

module _ {A : Type 0} (same : A → A → Bool) (is_child : A → A → Bool)
    (same_refl : (a : A) → same a a ≡ true) (same_sym : (a b : A) → same a b ≡ same b a) where
  contains-end : (l : List A) (e : A) → contains same (l ++ e ∷ []) e ≡ true
  unfolding contains
  contains-end [] e = ground (arith, same_refl e)
  contains-end (x ∷ l) e = ground (arith, contains-end l e)

  contains_more :
      (l m : List A) (a : A) → contains same l a ≡ true → contains same (l ++ m) a ≡ true
  contains_more l m a h =
      contains-append same is_child l m a ∙ ap (λ b. if b then true else contains same m a) h

  IsDistinct-append :
      (l : List A) (e : A)
      → IsDistinct same is_child l
      → contains same l e ≡ false
      → IsDistinct same is_child (l ++ e ∷ [])
  unfolding contains
  IsDistinct-append [] e d h = (refl, tt)
  IsDistinct-append (x ∷ l) e d h =
      let s : same x e ≡ same e x = same_sym x e in
      let a : contains same (l ++ e ∷ []) x
          ≡ (if contains same l x then true else contains same (e ∷ []) x) =
        contains-append same is_child l (e ∷ []) x in
      let rest : contains same l e ≡ false = ground (arith, h) in
      (ground (arith, h, s, a, d.0), IsDistinct-append l e d.1 rest)

  pub below_IsChain :
      (pool : List A) (f : A) (r : List A) (e : A)
      → IsChain same is_child pool (f ∷ r)
      → contains same (f ∷ r) e ≡ false
      → is_child e (last f r) ≡ true
      → IsIn e pool
      → IsChain same is_child pool (f ∷ r ++ e ∷ [])
  below_IsChain pool f r e c h k i = (
    IsLinked-append same is_child e f r k c.0,
    IsDistinct-append (f ∷ r) e c.1 h,
    All-append (λ a. IsIn a pool) (f ∷ r) (e ∷ []) c.2 (i, tt),
  )

  pub below_missing :
      (pool : List A) (f : A) (r : List A) (e : A)
      → contains same (f ∷ r) e ≡ false
      → IsIn e pool
      → missing same is_child (f ∷ r ++ e ∷ []) pool < missing same is_child (f ∷ r) pool
  below_missing pool f r e h i =
      missing_strict same is_child (f ∷ r) (f ∷ r ++ e ∷ []) pool e (contains_more (f ∷ r) (e ∷ []))
        i h (contains-end (f ∷ r) e)

  contains_tail : (l : List A) (e x : A) → contains same l x ≡ true → contains same (e ∷ l) x ≡ true
  unfolding contains
  contains_tail l e x h = ground (arith, h)

  contains_head : (l : List A) (e : A) → contains same (e ∷ l) e ≡ true
  unfolding contains
  contains_head l e = ground (arith, same_refl e)

  pub above_missing :
      (pool c : List A) (e : A)
      → contains same c e ≡ false
      → IsIn e pool
      → missing same is_child (e ∷ c) pool < missing same is_child c pool
  above_missing pool c e h i =
      missing_strict same is_child c (e ∷ c) pool e (contains_tail c e) i h (contains_head c e)
