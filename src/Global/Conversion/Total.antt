-- ===== src/Global/Conversion/Total.antt =====
-- The conversion maps cover every code, whether or not they were filled before.
use ausweis_app2_omapi.Prelude.{◌≡◌, refl, ap, ◌⊎◌, inl, inr, some, false, ◌&&◌, is_empty}
use ausweis_app2_omapi.Global.Status.{
  Code, unknown_error, of_code, is_cancellation_by_user, is_no_error, code_eq,
  workflow_card_removed,
}
use ausweis_app2_omapi.Global.Minor.{
  Minor, null, minor_eq, sal_cancellation_by_user, ifdl_cancellation_by_user,
}
use ausweis_app2_omapi.Global.Conversion.{
  ConversionMaps, empty_maps, lookup_minor, lookup_code, or_unknown, or_unknown_minor,
  init_conversion_maps, to_code, from_code,
}

-- The two values that the static maps ever have.
abbrev pub AreMaps : ConversionMaps → Type 0
AreMaps maps = (maps ≡ empty_maps) ⊎ (maps ≡ init_conversion_maps empty_maps)

init_filled :
    (maps : ConversionMaps)
    → (is_empty maps.minor_of && is_empty maps.code_of) ≡ false
    → init_conversion_maps maps ≡ maps
unfolding init_conversion_maps
init_filled maps h = rw h

filled_once :
    (is_empty (init_conversion_maps empty_maps).minor_of
      && is_empty (init_conversion_maps empty_maps).code_of)
    ≡ false
unfolding init_conversion_maps
filled_once = refl

init_twice :
    init_conversion_maps (init_conversion_maps empty_maps) ≡ init_conversion_maps empty_maps
init_twice = init_filled (init_conversion_maps empty_maps) filled_once

pub init_maps :
    (maps : ConversionMaps)
    → AreMaps maps
    → init_conversion_maps maps ≡ init_conversion_maps empty_maps
init_maps maps (inl e) = rw e
init_maps maps (inr e) = rw (e, init_twice)

minor_found :
    (c : Code) → (m : Minor) × (lookup_minor c (init_conversion_maps empty_maps).minor_of ≡ some m)
unfolding init_conversion_maps
minor_found unknown_error = (_, refl)
minor_found _ = (_, refl)

code_found :
    (m : Minor) → (c : Code) × (lookup_code m (init_conversion_maps empty_maps).code_of ≡ some c)
unfolding init_conversion_maps
code_found null = (_, refl)
code_found _ = (_, refl)

-- Every status code has a minor code in the conversion maps and every minor code a status code, in
-- the first call and in any later one, so neither conversion takes its "missmatch" branch.
pub conversion_total :
    (maps : ConversionMaps)
    → AreMaps maps
    → ((c : Code) → (m : Minor) × (lookup_minor c (init_conversion_maps maps).minor_of ≡ some m))
      × ((m : Minor) → (c : Code) × (lookup_code m (init_conversion_maps maps).code_of ≡ some c))
conversion_total maps h = rw (init_maps maps h) (minor_found, code_found)

no_error_null : (m : Minor) → is_no_error (of_code (to_code empty_maps m)) ≡ minor_eq m null
unfolding is_no_error of_code to_code minor_eq
no_error_null null = refl
no_error_null _ = refl

-- How the minor code `sent` tells of the status code `c`.
abbrev Tells : Code → Minor → Type 0
Tells c sent =
    (minor_eq sent sal_cancellation_by_user ≡ is_cancellation_by_user (of_code c))
    × (minor_eq sent ifdl_cancellation_by_user ≡ code_eq c workflow_card_removed)
    × (is_cancellation_by_user (of_code (to_code empty_maps sent))
        ≡ is_cancellation_by_user (of_code c))

cancellation_filled : (c : Code) → Tells c (from_code empty_maps c)
unfolding is_cancellation_by_user of_code to_code from_code minor_eq code_eq
cancellation_filled unknown_error = (refl, refl, refl)
cancellation_filled _ = (refl, refl, refl)

pub to_code_maps :
    (maps : ConversionMaps) (m : Minor) → AreMaps maps → to_code maps m ≡ to_code empty_maps m
unfolding to_code
to_code_maps maps m h =
    ap (λ (filled : ConversionMaps). or_unknown (lookup_code m filled.code_of)) (init_maps maps h)

pub from_code_maps :
    (maps : ConversionMaps) (c : Code) → AreMaps maps → from_code maps c ≡ from_code empty_maps c
unfolding from_code
from_code_maps maps c h =
    ap (λ (filled : ConversionMaps). or_unknown_minor (lookup_minor c filled.minor_of))
      (init_maps maps h)

-- The minor code that a status code is converted to is the cancellation by the user of the SAL exactly
-- if the status is a cancellation by the user, and that of the IFDL exactly if the card was removed; the
-- status code that it is converted back to is a cancellation exactly if the status was one.
pub cancellation_survives :
    (maps : ConversionMaps) (c : Code)
    → AreMaps maps
    → (minor_eq (from_code maps c) sal_cancellation_by_user ≡ is_cancellation_by_user (of_code c))
      × (minor_eq (from_code maps c) ifdl_cancellation_by_user ≡ code_eq c workflow_card_removed)
      × (is_cancellation_by_user (of_code (to_code maps (from_code maps c)))
          ≡ is_cancellation_by_user (of_code c))
cancellation_survives maps c h =
    rw (to_code_maps maps (from_code maps c) h, from_code_maps maps c h) (cancellation_filled c)

-- Only `null` is converted to "no error".
pub no_error-to_code :
    (maps : ConversionMaps) (m : Minor)
    → AreMaps maps
    → is_no_error (of_code (to_code maps m)) ≡ minor_eq m null
no_error-to_code maps m h = rw (to_code_maps maps m h) (no_error_null m)
