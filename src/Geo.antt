-- ===== src/Geo.antt =====
-- app/utils/geo.py: the cities of a state, as users name it.
use metroflow_ai_backend.Common.{
  Bool, true, false, Option, none, some, List, [], ◌∷◌, if◌then◌else◌, Text, Text-discrete, codes,
  strip, ite,
}
use metroflow_ai_backend.Common.Dict.{Dict, lookup}

-- `STATE_CITY_MAP`
abbrev pub state_city_map : Dict Text (List Text)
state_city_map =
    (codes "Delhi", codes "Delhi" ∷ [])
    ∷ (codes "Maharashtra", codes "Mumbai" ∷ codes "Pune" ∷ [])
    ∷ (codes "Karnataka", codes "Bengaluru" ∷ [])
    ∷ (codes "Telangana", codes "Hyderabad" ∷ [])
    ∷ (codes "Tamil Nadu", codes "Chennai" ∷ [])
    ∷ (codes "West Bengal", codes "Kolkata" ∷ [])
    ∷ (codes "Gujarat", codes "Ahmedabad" ∷ [])
    ∷ (codes "Rajasthan", codes "Jaipur" ∷ [])
    ∷ (codes "Uttar Pradesh", codes "Lucknow" ∷ [])
    ∷ (codes "Madhya Pradesh", codes "Bhopal" ∷ [])
    ∷ (codes "Kerala", codes "Kochi" ∷ [])
    ∷ []

-- `text in texts`
abbrev pub is_in : Text → List Text → Bool
is_in text [] = false
is_in text (t ∷ ts) = ite (Text-discrete t text) true (is_in text ts)

-- The loop over the values of the map.
abbrev pub in_cities_of : Text → Dict Text (List Text) → Option (List Text)
in_cities_of state [] = none
in_cities_of state ((name, cities) ∷ rest) =
    if is_in state cities then some (state ∷ []) else in_cities_of state rest

-- `cities_for_state` of a state that is not the empty text.
abbrev pub cities_of : Text → List Text
cities_of state = elim (lookup Text-discrete state state_city_map) [
  | some cities ↦ cities
  | none ↦ elim (in_cities_of state state_city_map) [ some cities ↦ cities | none ↦ state ∷ [] ]
]

unfoldable pub cities_for_state : Option Text → Option (List Text)
cities_for_state none = none
cities_for_state (some []) = none
cities_for_state (some (c ∷ s)) = some (cities_of (strip (c ∷ s)))

-- The loop of `state_for_city`.
abbrev pub state_with_city : Text → Dict Text (List Text) → Option Text
state_with_city city [] = none
state_with_city city ((state, cities) ∷ rest) =
    if is_in city cities then some state else state_with_city city rest

-- `state_for_city`
unfoldable pub state_for_city : Text → Option Text
state_for_city city = state_with_city city state_city_map
