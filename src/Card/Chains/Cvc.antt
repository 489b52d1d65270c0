-- ===== src/Card/Chains/Cvc.antt =====
-- src/card/base/asn1/CVCertificate.h, CVCertificateChain.cpp and CVCertificateChainBuilder.cpp: the
-- chains of certificates and the choice among them. A pointer to a certificate is its address and the
-- object; the encodings and the dates are the ones that the ASN.1 templates give.
use ausweis_app2_omapi.Prelude.{
  ℕ, Bool, true, false, not, ◌&&◌, ◌==◌, leb, if◌then◌else◌, Option, none, some, List, [], ◌∷◌,
  Bytes, bytes_eq, ◌>>=◌,
}
use ausweis_app2_omapi.Card.AccessRight.{AccessRole}
use ausweis_app2_omapi.Card.Chat.{Chat, get_access_role}
use ausweis_app2_omapi.Card.PaceOutput.{EstablishPaceChannelOutput}
use ausweis_app2_omapi.Card.Chains.Builder.{build_chains}

-- A date is the number of its day.
pub record CvCertificate : Type 0 where
  pub address : ℕ
  pub certification_authority_reference : Bytes
  pub certificate_holder_reference : Bytes
  pub chat : Chat
  pub effective_date : ℕ
  pub expiration_date : ℕ
  pub raw_body : Bytes
  pub raw_signature : Bytes

-- `operator==` of the pointers, and of the certificates.
abbrev pub same_pointer : CvCertificate → CvCertificate → Bool
same_pointer a b = a.address == b.address

unfoldable pub equals : CvCertificate → CvCertificate → Bool
equals a b = bytes_eq a.raw_body b.raw_body && bytes_eq a.raw_signature b.raw_signature

unfoldable pub is_valid_on : ℕ → CvCertificate → Bool
is_valid_on day cvc = leb day cvc.expiration_date && leb cvc.effective_date day

unfoldable pub is_issued_by : CvCertificate → CvCertificate → Bool
is_issued_by cvc issuer =
    bytes_eq cvc.certification_authority_reference issuer.certificate_holder_reference

unfoldable pub is_child : CvCertificate → CvCertificate → Bool
unfolding is_issued_by
is_child child parent = not (is_issued_by child child) && is_issued_by child parent

-- A chain, top down.
pub record CvCertificateChain : Type 0 where
  pub cvcs : List CvCertificate
  pub productive : Bool

abbrev pub access_role_of : CvCertificate → AccessRole
access_role_of cvc = get_access_role cvc.chat.template

unfoldable pub is_at : AccessRole → Bool
is_at AccessRole.at = true
is_at _ = false

unfoldable pub is_dv : AccessRole → Bool
is_dv AccessRole.dv_od = true
is_dv AccessRole.dv_no_f = true
is_dv _ = false

-- `getDvCvc` and `getTerminalCvc`: the last but one, and the last, of at least two.
unfoldable pub get_dv_cvc : CvCertificate → CvCertificate → List CvCertificate → CvCertificate
get_dv_cvc a b [] = a
get_dv_cvc a b (c ∷ l) = get_dv_cvc b c l

unfoldable pub get_terminal_cvc : CvCertificate → CvCertificate → List CvCertificate → CvCertificate
get_terminal_cvc a b [] = b
get_terminal_cvc a b (c ∷ l) = get_terminal_cvc b c l

unfoldable pub is_valid_list : List CvCertificate → Bool
unfolding is_at is_dv get_dv_cvc get_terminal_cvc
is_valid_list [] = false
is_valid_list (a ∷ []) = false
is_valid_list (a ∷ b ∷ l) =
    is_at (access_role_of (get_terminal_cvc a b l)) && is_dv (access_role_of (get_dv_cvc a b l))

unfoldable pub is_valid : CvCertificateChain → Bool
unfolding is_valid_list
is_valid chain = is_valid_list chain.cvcs

-- The constructor: a list that is no valid chain is cleared.
unfoldable pub new_chain : List CvCertificate → Bool → CvCertificateChain
unfolding is_valid_list
new_chain l productive = record {
  cvcs = if not (is_valid_list l) then [] else l;
  productive = productive;
}

unfoldable pub remove_invalid_chains : Bool → List (List CvCertificate) → List (List CvCertificate)
unfolding new_chain is_valid
remove_invalid_chains productive [] = []
remove_invalid_chains productive (l ∷ chains) =
    let rest = remove_invalid_chains productive chains in
    if not (is_valid (new_chain l productive)) then rest else l ∷ rest

-- `CVCertificateChainBuilder`: the chains that are kept; none where the recursion needs more fuel.
unfoldable pub chain_builder : List CvCertificate → Bool → Option (List (List CvCertificate))
unfolding is_child remove_invalid_chains
chain_builder pool productive = do
  chains ← build_chains same_pointer is_child pool
  some (remove_invalid_chains productive chains)

-- The two nested loops: `start` says whether the part of a chain from a certificate on is asked for.
unfoldable pub find_in_chain :
    (CvCertificate → Bool) → Bool → List CvCertificate → Option CvCertificateChain
unfolding new_chain is_valid
find_in_chain start productive [] = none
find_in_chain start productive (cvc ∷ l) =
    let rest = find_in_chain start productive l in
    if start cvc && is_valid (new_chain (cvc ∷ l) productive)
    then some (new_chain (cvc ∷ l) productive)
    else rest

abbrev pub or_else : Option CvCertificateChain → CvCertificateChain → CvCertificateChain
or_else (some c) rest = c
or_else none rest = rest

unfoldable pub find_sub_chain :
    (CvCertificate → Bool) → Bool → List (List CvCertificate) → CvCertificateChain
unfolding find_in_chain new_chain
find_sub_chain start productive [] = new_chain [] productive
find_sub_chain start productive (l ∷ chains) =
    let rest = find_sub_chain start productive chains in
    or_else (find_in_chain start productive l) rest

abbrev pub is_root_for : Bytes → CvCertificate → Bool
is_root_for car cvc =
    bytes_eq cvc.certification_authority_reference car && not (is_issued_by cvc cvc)

unfoldable pub get_chain_for_car : Bytes → Bool → List (List CvCertificate) → CvCertificateChain
unfolding find_sub_chain
get_chain_for_car car productive chains = find_sub_chain (is_root_for car) productive chains

unfoldable pub get_chain_for_certification_authority :
    EstablishPaceChannelOutput → Bool → List (List CvCertificate) → CvCertificateChain
unfolding get_chain_for_car is_valid
get_chain_for_certification_authority output productive chains =
    let chain = get_chain_for_car output.car_curr productive chains in
    if not (is_valid chain) then get_chain_for_car output.car_prev productive chains else chain

unfoldable pub get_chain_starting_with :
    CvCertificate → Bool → List (List CvCertificate) → CvCertificateChain
unfolding find_sub_chain equals
get_chain_starting_with root productive chains =
    find_sub_chain (λ cvc. equals cvc root) productive chains
