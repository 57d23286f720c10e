-- ===== src/Scenario/Interconnect.antt =====
-- `check_model`, `check_and_format_interconnect` and `interconnect_to_name` of
-- powersimdata/network/helpers.py, with the constants of powersimdata/network/constants/model.py.
use Prim.Native.String.{◌++◌ as append, compare, [] as empty_text, ◌∷◌ as char}
use Prim.Native.Nat.{Ordering}
use power_sim_data.Prelude.{
  String, Bool, true, false, not, ◌&&◌, none, some, List, [], ◌∷◌, map, contains, subset, string_eq,
  ◌==◌, if◌then◌else◌,
}
use power_sim_data.Prelude.Dict.{Dict, lookup, keys}
use power_sim_data.Prelude.Result.{Result, ok, raise, require, value_error, key_error, ◌>>=◌, ◌>>◌}

abbrev pub model2region : Dict String String
model2region = ("usa_tamu", "USA") ∷ ("hifld", "USA") ∷ ("europe_tub", "Europe") ∷ []

abbrev pub model2interconnect : Dict String (List String)
model2interconnect =
    ("usa_tamu", "Eastern" ∷ "Texas" ∷ "Western" ∷ [])
    ∷ ("hifld", "Eastern" ∷ "ERCOT" ∷ "Western" ∷ [])
    ∷ ("europe_tub", "ContinentalEurope" ∷ "Nordic" ∷ "GreatBritain" ∷ "Ireland" ∷ "Baltic" ∷ [])
    ∷ []

unfoldable pub check_model : String → Result (Unit {0})
check_model model = require (contains (keys model2region) model) value_error

-- `sorted(set(…))`: each text goes in once, before the first that is larger.
unfoldable pub insert_text : String → List String → List String
insert_text x [] = x ∷ []
insert_text x (y ∷ ys) =
    let rest = insert_text x ys in
    elim (compare x y) [ Ordering.lt ↦ x ∷ y ∷ ys | Ordering.eq ↦ y ∷ ys | Ordering.gt ↦ y ∷ rest ]

unfoldable pub sorted_set : List String → List String
unfolding insert_text
sorted_set [] = []
sorted_set (x ∷ xs) = insert_text x (sorted_set xs)

-- `i.replace(" ", "")`
unfoldable pub without_spaces : String → String
without_spaces empty_text = empty_text
without_spaces (char c s) =
    let rest = without_spaces s in if char c empty_text == " " then rest else char c rest

abbrev more_than_one : List String → Bool
more_than_one [] = false
more_than_one (x ∷ []) = false
more_than_one (x ∷ y ∷ xs) = true

-- The checks, and the region's name for all of its interconnects.
unfoldable pub format_in : String → List String → List String → Result (List String)
format_in region possible interconnect =
    require (subset interconnect (region ∷ possible)) value_error
    >> require (not (contains interconnect region && more_than_one interconnect)) value_error
    >> ok (if subset possible interconnect then region ∷ [] else interconnect)

unfoldable pub check_and_format_interconnect : List String → String → Result (List String)
unfolding format_in sorted_set without_spaces
check_and_format_interconnect interconnect model =
    let names = map without_spaces (sorted_set interconnect) in
    elim (lookup model model2region) [
      | none ↦ raise key_error
      | some region ↦ elim (lookup model model2interconnect) [
        | none ↦ raise key_error
        | some possible ↦ format_in region possible names
      ]
    ]

-- `"_".join(…)`
unfoldable pub joined : List String → String
joined [] = ""
joined (x ∷ []) = x
joined (x ∷ y ∷ xs) = let rest = joined (y ∷ xs) in append x (append "_" rest)

-- The second `sorted` finds no text twice in a list that the first has sorted, unless two of them
-- differ in spaces only.
insert_again : String → List String → List String
insert_again x [] = x ∷ []
insert_again x (y ∷ ys) =
    let rest = insert_again x ys in elim (compare x y) [ Ordering.gt ↦ y ∷ rest | _ ↦ x ∷ y ∷ ys ]

unfoldable pub sorted : List String → List String
unfolding insert_again
sorted [] = []
sorted (x ∷ xs) = insert_again x (sorted xs)

unfoldable pub interconnect_to_name : List String → String → Result String
unfolding check_and_format_interconnect joined sorted
interconnect_to_name interconnect model =
    check_and_format_interconnect interconnect model >>= λ names. ok (joined (sorted names))
