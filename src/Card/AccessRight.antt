-- ===== src/Card/AccessRight.antt =====
-- src/card/base/asn1/AccessRoleAndRight: the rights that a terminal may have, and its role.
use ausweis_app2_omapi.Prelude.{
  ℕ, Bool, List, [], ◌∷◌, ◌==◌, String, if◌then◌else◌, Option, none, some,
}
use text.Mathlib.Text.{◌==◌ as str_eq}

pub data AccessRight : Type 0 where
  write_dg17 write_dg18 write_dg19 write_dg20 write_dg21 rfu_32 rfu_31 rfu_30 rfu_29 read_dg21 :
      AccessRight
  read_dg20 read_dg19 read_dg18 read_dg17 read_dg16 read_dg15 read_dg14 read_dg13 read_dg12 :
      AccessRight
  read_dg11 read_dg10 read_dg09 read_dg08 read_dg07 read_dg06 read_dg05 read_dg04 read_dg03 :
      AccessRight
  read_dg02 read_dg01 install_qual_cert install_cert pin_management can_allowed : AccessRight
  privileged_terminal restricted_identification community_id_verification age_verification :
      AccessRight

-- The value of the enumerator.
unfoldable pub right_value : AccessRight → ℕ
right_value write_dg17 = 37
right_value write_dg18 = 36
right_value write_dg19 = 35
right_value write_dg20 = 34
right_value write_dg21 = 33
right_value rfu_32 = 32
right_value rfu_31 = 31
right_value rfu_30 = 30
right_value rfu_29 = 29
right_value read_dg21 = 28
right_value read_dg20 = 27
right_value read_dg19 = 26
right_value read_dg18 = 25
right_value read_dg17 = 24
right_value read_dg16 = 23
right_value read_dg15 = 22
right_value read_dg14 = 21
right_value read_dg13 = 20
right_value read_dg12 = 19
right_value read_dg11 = 18
right_value read_dg10 = 17
right_value read_dg09 = 16
right_value read_dg08 = 15
right_value read_dg07 = 14
right_value read_dg06 = 13
right_value read_dg05 = 12
right_value read_dg04 = 11
right_value read_dg03 = 10
right_value read_dg02 = 9
right_value read_dg01 = 8
right_value install_qual_cert = 7
right_value install_cert = 6
right_value pin_management = 5
right_value can_allowed = 4
right_value privileged_terminal = 3
right_value restricted_identification = 2
right_value community_id_verification = 1
right_value age_verification = 0

unfoldable pub right_eq : AccessRight → AccessRight → Bool
unfolding right_value
right_eq a b = right_value a == right_value b

abbrev pub all_rights : List AccessRight
all_rights =
    write_dg17 ∷ write_dg18 ∷ write_dg19 ∷ write_dg20 ∷ write_dg21 ∷ rfu_32 ∷ rfu_31 ∷ rfu_30
    ∷ rfu_29 ∷ read_dg21 ∷ read_dg20 ∷ read_dg19 ∷ read_dg18 ∷ read_dg17 ∷ read_dg16 ∷ read_dg15
    ∷ read_dg14 ∷ read_dg13 ∷ read_dg12 ∷ read_dg11 ∷ read_dg10 ∷ read_dg09 ∷ read_dg08 ∷ read_dg07
    ∷ read_dg06 ∷ read_dg05 ∷ read_dg04 ∷ read_dg03 ∷ read_dg02 ∷ read_dg01 ∷ install_qual_cert
    ∷ install_cert ∷ pin_management ∷ can_allowed ∷ privileged_terminal ∷ restricted_identification
    ∷ community_id_verification ∷ age_verification ∷ []

abbrev pub all_displayed_ordered_rights : List AccessRight
all_displayed_ordered_rights =
    read_dg05 ∷ read_dg13 ∷ read_dg04 ∷ read_dg07 ∷ read_dg08 ∷ read_dg09 ∷ read_dg17 ∷ read_dg01
    ∷ read_dg03 ∷ restricted_identification ∷ read_dg10 ∷ read_dg06 ∷ age_verification
    ∷ community_id_verification ∷ read_dg02 ∷ read_dg19 ∷ install_qual_cert ∷ install_cert ∷ []

unfoldable pub to_display_text : AccessRight → String
to_display_text write_dg17 = "WRITE_DG17"
to_display_text write_dg18 = "WRITE_DG18"
to_display_text write_dg19 = "WRITE_DG19"
to_display_text write_dg20 = "WRITE_DG20"
to_display_text write_dg21 = "WRITE_DG21"
to_display_text read_dg21 = "Optional data"
to_display_text read_dg20 = "Residence permit II"
to_display_text read_dg19 = "Residence permit I"
to_display_text read_dg18 = "Community-ID"
to_display_text read_dg17 = "Address"
to_display_text read_dg16 = "RFU"
to_display_text read_dg15 = "RFU"
to_display_text read_dg14 = "RFU"
to_display_text read_dg13 = "Birth name"
to_display_text read_dg12 = "Optional data"
to_display_text read_dg11 = "Gender"
to_display_text read_dg10 = "Nationality"
to_display_text read_dg09 = "Place of birth"
to_display_text read_dg08 = "Date of birth"
to_display_text read_dg07 = "Doctoral degree"
to_display_text read_dg06 = "Religious / artistic name"
to_display_text read_dg05 = "Family name"
to_display_text read_dg04 = "Given name(s)"
to_display_text read_dg03 = "Valid until"
to_display_text read_dg02 = "Issuing country"
to_display_text read_dg01 = "Document type"
to_display_text install_qual_cert = "Installation of qualified signature certificates"
to_display_text install_cert = "Installation of signature certificates"
to_display_text pin_management = "PIN Management"
to_display_text can_allowed = "CAN allowed"
to_display_text privileged_terminal = "Privileged terminal"
to_display_text restricted_identification = "Pseudonym"
to_display_text community_id_verification = "Address verification"
to_display_text age_verification = "Age verification"
to_display_text rfu_29 = "Unknown (reserved)"
to_display_text rfu_30 = "Unknown (reserved)"
to_display_text rfu_31 = "Unknown (reserved)"
to_display_text rfu_32 = "Unknown (reserved)"

-- The enumerators of `AccessRightNames`, in the order of their declaration.
abbrev pub access_right_names : List (String × AccessRight)
access_right_names =
    ("ResidencePermitII", read_dg20)
    ∷ ("ResidencePermitI", read_dg19)
    ∷ ("CommunityID", read_dg18)
    ∷ ("Address", read_dg17)
    ∷ ("BirthName", read_dg13)
    ∷ ("Nationality", read_dg10)
    ∷ ("PlaceOfBirth", read_dg09)
    ∷ ("DateOfBirth", read_dg08)
    ∷ ("DoctoralDegree", read_dg07)
    ∷ ("ArtisticName", read_dg06)
    ∷ ("FamilyName", read_dg05)
    ∷ ("GivenNames", read_dg04)
    ∷ ("ValidUntil", read_dg03)
    ∷ ("IssuingCountry", read_dg02)
    ∷ ("DocumentType", read_dg01)
    ∷ ("Pseudonym", restricted_identification)
    ∷ ("AddressVerification", community_id_verification)
    ∷ ("AgeVerification", age_verification)
    ∷ []

find_name : AccessRight → List (String × AccessRight) → String
unfolding right_eq
find_name r [] = ""
find_name r (n ∷ l) = if right_eq n.1 r then n.0 else find_name r l

-- `getEnumName`: a right without a name has the empty one.
unfoldable pub to_technical_name : AccessRight → String
unfolding find_name
to_technical_name r = find_name r access_right_names

find_right : String → List (String × AccessRight) → Option AccessRight
find_right s [] = none
find_right s (n ∷ l) = if str_eq n.0 s then some n.1 else find_right s l

-- The function that the source calls back is called with the right that is found.
unfoldable pub from_technical_name : String → Option AccessRight
unfolding find_right
from_technical_name s = find_right s access_right_names

-- The display texts of the names that are known, the others as they stand.
unfoldable pub display_texts : List String → List String
unfolding from_technical_name to_display_text
display_texts [] = []
display_texts (s ∷ l) =
    elim (from_technical_name s) [ some r ↦ to_display_text r | none ↦ s ] ∷ display_texts l

pub data AccessRole : Type 0 where
  cvca dv_od dv_no_f at unknown : AccessRole
