-- ===== src/Global/Conversion.antt =====
-- src/global/ECardApiResult.cpp: the conversion maps between status codes and minor codes.
pub mod Total
use ausweis_app2_omapi.Prelude.{
  Bool, true, false, if◌then◌else◌, ◌&&◌, List, [], ◌∷◌, ◌++◌, Option, none, some, is_empty,
}
use ausweis_app2_omapi.Global.Status.{Code, unknown_error, code_index, code_eq}
use ausweis_app2_omapi.Global.Minor.{Minor, al_unknown_error, minor_index, minor_eq}
use ausweis_app2_omapi.Global.Elements.{conversion_elements}

-- `cConversionMap1` and `cConversionMap2`.
pub record ConversionMaps : Type 0 where
  pub minor_of : List (Code × Minor)
  pub code_of : List (Minor × Code)

abbrev pub empty_maps : ConversionMaps
empty_maps = record { minor_of = []; code_of = [] }

unfoldable pub lookup_minor : Code → List (Code × Minor) → Option Minor
unfolding code_eq
lookup_minor c [] = none
lookup_minor c ((k, m) ∷ rest) = if code_eq k c then some m else lookup_minor c rest

unfoldable pub lookup_code : Minor → List (Minor × Code) → Option Code
unfolding minor_eq
lookup_code m [] = none
lookup_code m ((k, c) ∷ rest) = if minor_eq k m then some c else lookup_code m rest

abbrev insert_minor : Option Minor → Code → Minor → List (Code × Minor) → List (Code × Minor)
insert_minor none c m map = map ++ (c, m) ∷ []
insert_minor (some old) c m map = map

abbrev insert_code : Option Code → Code → Minor → List (Minor × Code) → List (Minor × Code)
insert_code none c m map = map ++ (m, c) ∷ []
insert_code (some old) c m map = map

-- `addConversionElement`: the first entry of a key stays.
unfoldable pub add_conversion_element : ConversionMaps → Code → Minor → ConversionMaps
unfolding lookup_minor lookup_code
add_conversion_element maps c m = record {
  minor_of = insert_minor (lookup_minor c maps.minor_of) c m maps.minor_of;
  code_of = insert_code (lookup_code m maps.code_of) c m maps.code_of;
}

unfoldable pub add_all : List (Code × Minor) → ConversionMaps → ConversionMaps
unfolding add_conversion_element
add_all [] maps = maps
add_all ((c, m) ∷ rest) maps = add_all rest (add_conversion_element maps c m)

unfoldable pub init_conversion_maps : ConversionMaps → ConversionMaps
unfolding add_all conversion_elements
init_conversion_maps maps =
    if is_empty maps.minor_of && is_empty maps.code_of
    then add_all conversion_elements maps
    else maps

abbrev or_unknown : Option Code → Code
or_unknown none = unknown_error
or_unknown (some c) = c

abbrev or_unknown_minor : Option Minor → Minor
or_unknown_minor none = al_unknown_error
or_unknown_minor (some m) = m

-- `toStatus(Minor)`; the maps are those before the call, which may be the first one.
unfoldable pub to_code : ConversionMaps → Minor → Code
unfolding init_conversion_maps lookup_code
to_code maps m = or_unknown (lookup_code m (init_conversion_maps maps).code_of)

-- `fromStatus(Code)`
unfoldable pub from_code : ConversionMaps → Code → Minor
unfolding init_conversion_maps lookup_minor
from_code maps c = or_unknown_minor (lookup_minor c (init_conversion_maps maps).minor_of)
