-- ===== src/Tests/Certificates.antt =====
-- Rights and chains of certificates: src/card/base/asn1.
use ausweis_app2_omapi.Prelude.{ℕ, ◌≡◌, refl, some, List, [], ◌∷◌, Bytes, ◌⊎◌, true, arith}
use ausweis_app2_omapi.Prelude.Bits.{write_bit}
use ausweis_app2_omapi.Card.AccessRight.{AccessRight, AccessRole, right_value}
use ausweis_app2_omapi.Card.Chat.{set_access_right, set_access_role, remove_access_right}
use ausweis_app2_omapi.Card.Chat.Rights.{
  Operation, grant, revoke, appoint, apply_all, meaning_of_all, view,
}
use ausweis_app2_omapi.Card.Chat.Refinement.{IsTemplate, apply_all-meaning_of_all}
use ausweis_app2_omapi.Card.PaceOutput.{EstablishPaceChannelOutput, new_output}
use ausweis_app2_omapi.Card.Chains.Builder.{build_chains}
use ausweis_app2_omapi.Card.Chains.Cvc.{
  CvCertificate, chain_builder, get_chain_for_certification_authority, is_root_for, same_pointer,
  is_child,
}
use ausweis_app2_omapi.Card.Chains.Choice.{Fits, Chooses, get_chain_for_certification_authority_lem}
use ausweis_app2_omapi.Card.Chains.Chosen.{
  IsChainFor, get_chain_for_certification_authority-chain_builder,
}

abbrev zeros : Bytes
zeros = 0 ∷ 0 ∷ 0 ∷ 0 ∷ 0 ∷ []

abbrev operations : List Operation
operations =
    grant AccessRight.read_dg17
    ∷ appoint AccessRole.dv_od
    ∷ revoke AccessRight.read_dg17
    ∷ grant AccessRight.age_verification
    ∷ []

zeros-IsTemplate : IsTemplate zeros
zeros-IsTemplate =
    (refl, (omega arith, (omega arith, (omega arith, (omega arith, (omega arith, tt))))))

apply_all-meaning_of_all_example :
    (u : Bytes) × ((apply_all operations zeros ≡ some u)
      × (IsTemplate u × (view u ≡ meaning_of_all operations (view zeros))))
apply_all-meaning_of_all_example = apply_all-meaning_of_all operations zeros zeros-IsTemplate

operations_run : apply_all operations zeros ≡ some (0x80 ∷ 0 ∷ 0 ∷ 0 ∷ 1 ∷ [])
unfolding apply_all set_access_right right_value set_access_role remove_access_right write_bit
operations_run = refl

abbrev certificate : ℕ → ℕ → ℕ → ℕ → CvCertificate
certificate address car chr role = record {
  address = address;
  certification_authority_reference = car ∷ [];
  certificate_holder_reference = chr ∷ [];
  chat = record { chat_type = []; template = role ∷ 0 ∷ 0 ∷ 0 ∷ 0 ∷ [] };
  effective_date = 0;
  expiration_date = 100;
  raw_body = car ∷ chr ∷ [];
  raw_signature = [];
}

-- A terminal, its DV, a link certificate and the root.
abbrev pool : List CvCertificate
pool =
    certificate 1 7 8 0x00
    ∷ certificate 2 5 7 0x80
    ∷ certificate 3 4 5 0xc0
    ∷ certificate 4 4 4 0xc0
    ∷ []

abbrev asked : EstablishPaceChannelOutput
asked = record new_output { car_curr = 9 ∷ []; car_prev = 5 ∷ [] }

built_from_pool :
    build_chains same_pointer is_child pool
    ≡ some (
        (certificate 4 4 4 0xc0
          ∷ certificate 3 4 5 0xc0
          ∷ certificate 2 5 7 0x80
          ∷ certificate 1 7 8 0x00
          ∷ [])
        ∷ [])
unfolding build_chains is_child
built_from_pool = refl

get_chain_for_certification_authority-chain_builder_example :
    (chains : List (List CvCertificate)) × ((chain_builder pool true ≡ some chains)
      × (let r = (get_chain_for_certification_authority asked true chains).cvcs in
          IsChainFor asked.car_curr pool r ⊎ (IsChainFor asked.car_prev pool r ⊎ (r ≡ []))))
get_chain_for_certification_authority-chain_builder_example =
    get_chain_for_certification_authority-chain_builder pool true asked

abbrev one_chain : List (List CvCertificate)
one_chain = (certificate 2 5 7 0x80 ∷ certificate 1 7 8 0x00 ∷ []) ∷ []

get_chain_for_certification_authority_example :
    let r = (get_chain_for_certification_authority asked true one_chain).cvcs in
    Fits (is_root_for asked.car_curr) one_chain r
    ⊎ ((¬ ((s : List CvCertificate) × Fits (is_root_for asked.car_curr) one_chain s))
        × Chooses (is_root_for asked.car_prev) one_chain r)
get_chain_for_certification_authority_example =
    get_chain_for_certification_authority_lem asked true one_chain
