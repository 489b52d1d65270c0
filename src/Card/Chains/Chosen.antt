-- ===== src/Card/Chains/Chosen.antt =====
-- The chains that are chosen from a pool of certificates.
use ausweis_app2_omapi.Prelude.{
  Bool, true, not, if◌then◌else◌, Bool-cases, some, List, [], ◌∷◌, All, Bytes, ◌>>=◌, ◌≡◌, ap, sym,
  subst, ◌⊎◌, inl, inr, arith,
}
use ausweis_app2_omapi.Card.PaceOutput.{EstablishPaceChannelOutput}
use ausweis_app2_omapi.Card.Chains.Builder.{build_chains}
use ausweis_app2_omapi.Card.Chains.Building.{IsChain}
use ausweis_app2_omapi.Card.Chains.Built.{build_chains-IsChain}
use ausweis_app2_omapi.Card.Chains.Cvc.{
  CvCertificate, same_pointer, is_child, is_valid_list, is_valid, new_chain, remove_invalid_chains,
  chain_builder, is_root_for, get_chain_for_certification_authority,
}
use ausweis_app2_omapi.Card.Chains.Choice.{
  IsEnd, IsEndOfOne, Fits, IsRootOf, get_chain_for_certification_authority_lem,
}

-- A chain that is built from a pool, valid, and whose first certificate is for the reference.
abbrev pub IsChainFor : Bytes → List CvCertificate → List CvCertificate → Type 0
IsChainFor car pool s =
    IsChain same_pointer is_child pool s × (is_valid_list s ≡ true) × IsRootOf car s

address_refl : (a : CvCertificate) → same_pointer a a ≡ true
address_refl a = ground arith

address_sym : (a b : CvCertificate) → same_pointer a b ≡ same_pointer b a
address_sym a b = ground arith

IsEnd-IsChain :
    (pool s c : List CvCertificate)
    → IsChain same_pointer is_child pool c
    → IsEnd s c
    → IsChain same_pointer is_child pool s
IsEnd-IsChain pool s [] h i = elim i [ ]
IsEnd-IsChain pool s (x ∷ l) h (inl e) = subst (IsChain same_pointer is_child pool) (sym e) h
IsEnd-IsChain pool s (x ∷ []) h (inr i) = elim i [ ]
IsEnd-IsChain pool s (x ∷ y ∷ l) h (inr i) = IsEnd-IsChain pool s (y ∷ l) (h.0.1, h.1.1, h.2.1) i

IsEndOfOne-IsChain :
    (pool s : List CvCertificate) (chains : List (List CvCertificate))
    → All (IsChain same_pointer is_child pool) chains
    → IsEndOfOne s chains
    → IsChain same_pointer is_child pool s
IsEndOfOne-IsChain pool s [] a i = elim i [ ]
IsEndOfOne-IsChain pool s (c ∷ chains) a (inl i) = IsEnd-IsChain pool s c a.0 i
IsEndOfOne-IsChain pool s (c ∷ chains) a (inr i) = IsEndOfOne-IsChain pool s chains a.1 i

remove_invalid_chains-All :
    (P : List CvCertificate → Type 0) (productive : Bool) (chains : List (List CvCertificate))
    → All P chains
    → All P (remove_invalid_chains productive chains)
unfolding remove_invalid_chains
remove_invalid_chains-All P productive [] a = tt
remove_invalid_chains-All P productive (c ∷ chains) a =
    let rest : All P (remove_invalid_chains productive chains) =
      remove_invalid_chains-All P productive chains a.1 in
    elim (Bool-cases (not (is_valid (new_chain c productive)))) [
      | inl h ↦
          subst
            (λ b. All P (
              if b
              then remove_invalid_chains productive chains
              else c ∷ remove_invalid_chains productive chains))
            (sym h) rest
      | inr h ↦
          subst
            (λ b. All P (
              if b
              then remove_invalid_chains productive chains
              else c ∷ remove_invalid_chains productive chains))
            (sym h) (a.0, rest)
    ]

built :
    (pool : List CvCertificate) (productive : Bool)
    → (chains : List (List CvCertificate)) × ((chain_builder pool productive ≡ some chains)
        × All (IsChain same_pointer is_child pool) chains)
unfolding chain_builder
built pool productive =
    let b : (c : List (List CvCertificate)) × ((build_chains same_pointer is_child pool ≡ some c)
          × All (IsChain same_pointer is_child pool) c) =
      build_chains-IsChain same_pointer is_child address_refl address_sym pool in
    (
      remove_invalid_chains productive b.0,
      (
        ap (λ o. o >>= λ c. some (remove_invalid_chains productive c)) b.1.0,
        remove_invalid_chains-All (IsChain same_pointer is_child pool) productive b.0 b.1.1,
      ),
    )

Fits-IsChainFor :
    (pool : List CvCertificate) (car : Bytes) (chains : List (List CvCertificate))
    (s : List CvCertificate)
    → All (IsChain same_pointer is_child pool) chains
    → Fits (is_root_for car) chains s
    → IsChainFor car pool s
Fits-IsChainFor pool car chains s a f = (IsEndOfOne-IsChain pool s chains a f.0, f.1, f.2)

-- From any pool of certificates the builder returns chains, and the chain that is chosen for the answer
-- of PACE is one of certificates of the pool, each issued by the one before it and none twice, that ends
-- in a DV and a terminal and starts with a certificate that is issued by the current or the previous
-- reference and not by itself; or it is empty.
pub get_chain_for_certification_authority-chain_builder :
    (pool : List CvCertificate) (productive : Bool) (output : EstablishPaceChannelOutput)
    → (chains : List (List CvCertificate)) × ((chain_builder pool productive ≡ some chains)
        × (let r = (get_chain_for_certification_authority output productive chains).cvcs in
            IsChainFor output.car_curr pool r ⊎ (IsChainFor output.car_prev pool r ⊎ (r ≡ []))))
get_chain_for_certification_authority-chain_builder pool productive output =
    let b = built pool productive in
    (
      b.0,
      (
        b.1.0,
        elim (get_chain_for_certification_authority_lem output productive b.0) [
          | inl f ↦ inl (Fits-IsChainFor pool output.car_curr b.0 _ b.1.1 f)
          | inr f ↦ elim f.1 [
            | inl g ↦ inr (inl (Fits-IsChainFor pool output.car_prev b.0 _ b.1.1 g))
            | inr g ↦ inr (inr g.0)
          ]
        ],
      ),
    )
