-- ===== src/CleanCapacity/Partition.antt =====
-- The targets of powersimdata/design/generation/clean_capacity_scaling.py divide the zones of the grid.
use power_sim_data.Prelude.{
  ℕ, suc, ◌+◌, ◌≤◌, String, ◌≡◌, ◌⊎◌, refl, sym, ap, ◌∙◌, inl, inr, Bool, true, false, ◌&&◌, Option,
  some, List, [], ◌∷◌, ◌++◌, string_eq, ==_iff, ◌==◌, select, contains, subset, length,
  if◌then◌else◌, arith, Bool-cases,
}
use power_sim_data.Prelude.Dict.{Dict, keys, lookup, insert, lookup-insert}
use power_sim_data.Prelude.Result.{Result, ok, require, value_error, ok-injective}
use power_sim_data.ChangeTable.Units.{then_ok}
use power_sim_data.CleanCapacity.Zones.{
  distinct, union, total, check_collisions, assign, assign_all, zones_of_targets,
  make_zonename2target,
}

-- How often a text stands in a list.
times : String → List String → ℕ
times z [] = 0
times z (x ∷ xs) = let rest = times z xs in if x == z then suc rest else rest

-- How many of the targets have a zone.
unfoldable pub owners : String → Dict String (List String) → ℕ
owners z [] = 0
owners z ((target, zones) ∷ rest) =
    let more = owners z rest in if contains zones z then suc more else more

-- A target of the table has the zone.
abbrev pub Owns : String → String → Dict String (List String) → Type 0
Owns t z [] = ⊥
Owns t z ((target, zones) ∷ rest) = ((t ≡ target) × (contains zones z ≡ true)) ⊎ Owns t z rest

times-append : (z : String) (xs ys : List String) → times z (xs ++ ys) ≡ times z xs + times z ys
unfolding times
times-append z [] ys = ground arith
times-append z (x ∷ xs) ys = ground (arith, times-append z xs ys)

times-contains : (z : String) (xs : List String) → contains xs z ≡ true → 1 ≤ times z xs
unfolding times
times-contains z [] h = ground arith
times-contains z (x ∷ xs) h = ground (arith, times-contains z xs)

times-absent : (z : String) (xs : List String) → contains xs z ≡ false → times z xs ≡ 0
unfolding times
times-absent z [] h = refl
times-absent z (x ∷ xs) h = ground (arith, times-absent z xs)

owners-times : (z : String) (t : Dict String (List String)) → owners z t ≤ times z (union t)
unfolding owners union times
owners-times z [] = ground arith
owners-times z ((target, zones) ∷ rest) =
    ground (arith, times-append z zones (union rest), owners-times z rest, times-contains z zones)

distinct-le : (xs : List String) → length (distinct xs) ≤ length xs
unfolding distinct
distinct-le [] = ground arith
distinct-le (x ∷ xs) = ground (arith, distinct-le xs)

-- A list that is as long as its set has nothing twice.
times-le-one : (z : String) (xs : List String) → length (distinct xs) ≡ length xs → times z xs ≤ 1
unfolding distinct times
times-le-one z [] h = ground arith
times-le-one z (x ∷ xs) h = elim (Bool-cases (contains xs x)) [
  | inl again ↦ ground (arith, distinct-le xs)
  | inr once ↦ elim (Bool-cases (x == z)) [
    | inr other ↦ ground (arith, times-le-one z xs)
    | inl same ↦
        let absent : contains xs z ≡ false = ap (contains xs) (sym ((==_iff x z).0 same)) ∙ once in
        ground (arith, times-absent z xs absent)
  ]
]

length-union : (t : Dict String (List String)) → length (union t) ≡ total t
unfolding union total
length-union [] = refl
length-union ((target, zones) ∷ rest) =
    ground (arith, length-append zones (union rest), length-union rest)
  where
    length-append : (xs ys : List String) → length (xs ++ ys) ≡ length xs + length ys
    length-append [] ys = ground arith
    length-append (x ∷ xs) ys = ground (arith, length-append xs ys)

contains-select :
    (p : String → Bool) (z : String) (xs : List String)
    → contains (select p xs) z ≡ contains xs z && p z
contains-select p z [] = refl
contains-select p z (x ∷ xs) = ground (arith, contains-select p z xs, ==_iff x z)

lookup-assign :
    (target z : String) (zones : List String) (d : Dict String String)
    → lookup z (assign target zones d) ≡ (if contains zones z then some target else lookup z d)
unfolding assign
lookup-assign target z [] d = refl
lookup-assign target z (x ∷ zones) d =
    ground (arith, lookup-assign target z zones (insert x target d), lookup-insert x z target d)

-- What a zone is given belongs to a target that has it, and the grid has the zone.
lookup-assign_all :
    (grid_zones : List String) (z t : String) (tz : Dict String (List String))
    (d : Dict String String)
    → lookup z (assign_all grid_zones tz d) ≡ some t
    → (lookup z d ≡ some t) ⊎ (Owns t z tz × (contains grid_zones z ≡ true))
unfolding assign_all
lookup-assign_all grid_zones z t [] d h = inl h
lookup-assign_all grid_zones z t ((target, zones) ∷ rest) d h =
    let here = select (contains grid_zones) zones in
    let given = lookup-assign target z here d in
    let chosen = contains-select (contains grid_zones) z zones in
    elim (lookup-assign_all grid_zones z t rest (assign target here d) h) [
      | inr (owned, in_grid) ↦ inr (inr owned, in_grid)
      | inl now ↦ elim (Bool-cases (contains here z)) [
        | inr absent ↦ inl (ground (arith, now, given, absent))
        | inl there ↦ inr (
          inl (ground (arith, now, given, there), ground (arith, chosen, there)),
          ground (arith, chosen, there),
        )
      ]
    ]

given_zone :
    (grid_zones : List String) (z t : String) (tz : Dict String (List String))
    → lookup z (assign_all grid_zones tz []) ≡ some t
    → Owns t z tz × (contains grid_zones z ≡ true)
unfolding lookup
given_zone grid_zones z t tz h = elim (lookup-assign_all grid_zones z t tz [] h) [
  | inl nothing ↦ absurd (ground arith)
  | inr owned ↦ owned
]

lookup-keys :
    (z : String) (d : Dict String String)
    → contains (keys d) z ≡ true
    → (t : String) × (lookup z d ≡ some t)
unfolding lookup
lookup-keys z [] h = ground arith
lookup-keys z ((k, t) ∷ d) h = elim (Bool-cases (k == z)) [
  | inl same ↦ (t, ground (arith, same))
  | inr other ↦
      let (u, there) = lookup-keys z d (ground (arith, h, other)) in
      (u, ground (arith, other, there))
]

subset-contains :
    (xs ys : List String) (z : String)
    → subset xs ys ≡ true
    → contains xs z ≡ true
    → contains ys z ≡ true
subset-contains [] ys z h inside = ground arith
subset-contains (x ∷ xs) ys z h inside = elim (Bool-cases (x == z)) [
  | inl same ↦
      let first : contains ys x ≡ true = ground (arith, h) in
      ap (contains ys) (sym ((==_iff x z).0 same)) ∙ first
  | inr other ↦ subset-contains xs ys z (ground (arith, h)) (ground (arith, inside, other))
]

check_collisions-ok :
    (tz : Dict String (List String)) (z : String) → check_collisions tz ≡ ok tt → owners z tz ≤ 1
unfolding check_collisions
check_collisions-ok [] z h = ground arith
check_collisions-ok (t ∷ tz) z h =
    let once = times-le-one z (union (t ∷ tz)) in
    ground (arith, owners-times z (t ∷ tz), length-union (t ∷ tz), once)

-- If `_make_zonename2target` goes through, every zone of the grid has a target that has the zone, no zone has
-- two targets, and the dictionary has no other zones than the grid.
pub make_zonename2target-ok :
    (area_to_loadzone : String → Option String → Result (List String)) (grid_zones : List String)
    (targets : List (String × Option String)) (d : Dict String String)
    → make_zonename2target area_to_loadzone grid_zones targets ≡ ok d
    → (tz : Dict String (List String)) × (zones_of_targets area_to_loadzone targets ≡ ok tz)
      × ((z : String)
          → contains grid_zones z ≡ true
          → (t : String) × (lookup z d ≡ some t) × Owns t z tz)
      × ((z : String) → owners z tz ≤ 1)
      × ((z t : String) → lookup z d ≡ some t → contains grid_zones z ≡ true)
unfolding make_zonename2target
make_zonename2target-ok area_to_loadzone grid_zones targets d h =
    then_ok (zones_of_targets area_to_loadzone targets) _ h λ tz known h₁.
      then_ok (check_collisions tz) _ h₁ λ apart e₂ h₂.
        then_ok (require (subset grid_zones (keys (assign_all grid_zones tz []))) value_error) _ h₂
          λ covered e₃ h₃.
            let made : assign_all grid_zones tz [] ≡ d = ok-injective h₃ in
            let all_in : subset grid_zones (keys (assign_all grid_zones tz [])) ≡ true =
              ground arith in
            (
              tz,
              known,
              (λ z inside.
                  let (t, there) = lookup-keys z (assign_all grid_zones tz []) (
                    subset-contains grid_zones (keys (assign_all grid_zones tz [])) z all_in
                      inside) in
                  (t, ap (lookup z) (sym made) ∙ there, (given_zone grid_zones z t tz there).0)),
              (λ z. check_collisions-ok tz z e₂),
              (λ z t there. (given_zone grid_zones z t tz (ap (lookup z) made ∙ there)).1),
            )
