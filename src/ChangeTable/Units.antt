-- ===== src/ChangeTable/Units.antt =====
-- What the checks of a new plant and of a new storage unit establish.
use power_sim_data.Prelude.{
  ℕ, String, ◌≡◌, refl, ap, subst, ◌∙◌, inl, inr, Bool, true, false, not, ◌&&◌, ◌||◌, Option, none,
  some, List, [], ◌∷◌, nat_eq, string_eq, contains, All, arith,
}
use power_sim_data.Prelude.Dict.{keys, lookup}
use power_sim_data.Prelude.Result.{
  Result, ok, require, value_error, ◌>>=◌, >>=-eq-ok, ok-injective, Result-cases,
}
use power_sim_data.Number.{Number, of_ℕ}
use power_sim_data.Grid.{Bus, Grid}
use power_sim_data.Grid.Rows.{ids, row_at}
use power_sim_data.Ct.{NewPlant, NewStorage}
use power_sim_data.ChangeTable.Entries.{
  Value, index, number, text, Entry, check_entry_keys, as_number,
}
use power_sim_data.ChangeTable.Checked.{require-ok, row_at-contains, not-eq}
use power_sim_data.ChangeTable.PlantTable.{is_some}
use power_sim_data.ChangeTable.Checks.{
  neighbor_of, bus_in, resource_of, compared, needed, coefficient_of, pmin_of, neighbor_for,
  check_plant, quantity, share_of, check_storage,
}

-- The next step of a check that succeeded.
pub then_ok :
    {A B C : Type 0} (r : Result A) (f : A → Result B) {b : B}
    → (r >>= f) ≡ ok b
    → ((a : A) → r ≡ ok a → f a ≡ ok b → C)
    → C
then_ok r f h k = let (a, first, rest) = >>=-eq-ok r f h in k a first rest

module _ {V : Type 0} ⦃num : Number V⦄ where
  open num use {lt}

  -- A plant that `add_plant` may add: a known resource at a bus of the table, 0 <= Pmin <= Pmax, and a
  -- neighbor for a resource with profiles, coefficients for any other.
  pub record ValidPlant (g : Grid V) (buses : List (Bus V)) (p : NewPlant V) : Type 0 where
    pub resource : contains g.immutables.all_resources p.type ≡ true
    pub at_bus : contains (ids (λ b. b.bus_id) buses) p.bus_id ≡ true
    pub positive : lt p.pmax (of_ℕ 0) ≡ false
    pub between : (lt p.pmin (of_ℕ 0) || lt p.pmax p.pmin) ≡ false
    pub neighbor : contains g.immutables.profile_resources p.type ≡ is_some p.plant_id_neighbor
    pub coefficients :
        (contains g.immutables.profile_resources p.type
          || (is_some p.c0 && is_some p.c1 && is_some p.c2))
        ≡ true

  bus_in-contains :
      (buses : List (Bus V)) (v : Option (Value V)) (b : Bus V)
      → bus_in buses v ≡ ok b
      → contains (ids (λ b. b.bus_id) buses) b.bus_id ≡ true
  unfolding bus_in
  bus_in-contains buses none b h = ground arith
  bus_in-contains buses (some (number x)) b h = ground arith
  bus_in-contains buses (some (text s)) b h = ground arith
  bus_in-contains buses (some (index n)) b h =
      elim (Result-cases (row_at (λ b. b.bus_id) n buses)) [
        | inl (r, k) ↦ row_at-contains (λ b. b.bus_id) n buses b (k ∙ ap ok (ground (arith, k)))
        | inr (e, k) ↦ ground (arith, k)
      ]

  resource_of-contains :
      (g : Grid V) (v : Option (Value V)) (t : String)
      → resource_of g v ≡ ok t
      → contains g.immutables.all_resources t ≡ true
  unfolding resource_of
  resource_of-contains g none t h = ground arith
  resource_of-contains g (some (index n)) t h = ground arith
  resource_of-contains g (some (number x)) t h = ground arith
  resource_of-contains g (some (text s)) t h = ground arith

  coefficient_of-is_some :
      (profile : Bool) (v : Option (Value V)) (c : Option V)
      → coefficient_of profile v ≡ ok c
      → (profile || is_some c) ≡ true
  unfolding coefficient_of needed
  coefficient_of-is_some true v c h = refl
  coefficient_of-is_some false none c h = ground arith
  coefficient_of-is_some false (some v) c h =
      let (x, first, rest) = >>=-eq-ok (compared (some v)) _ h in ground arith

  module _ (angle : V × V → V × V → V) (g : Grid V) (buses : List (Bus V)) where
    neighbor_for-is_some :
        (profile : Bool) (bus : Bus V) (t : String) (n : Option ℕ)
        → neighbor_for angle g profile bus t ≡ ok n
        → profile ≡ is_some n
    unfolding neighbor_for
    neighbor_for-is_some false bus t n h = ground arith
    neighbor_for-is_some true bus t n h =
        let (i, first, rest) = >>=-eq-ok (neighbor_of (angle (bus.lon, bus.lat)) t g) _ h in
        ground arith

    pub check_plant-ValidPlant :
        (entry : Entry V) (p : NewPlant V)
        → check_plant angle g buses entry ≡ ok p
        → ValidPlant g buses p
    unfolding check_plant
    check_plant-ValidPlant entry p h =
        then_ok
          (check_entry_keys (keys entry) ("bus_id" ∷ "Pmax" ∷ "type" ∷ []) []
            ("c0" ∷ "c1" ∷ "c2" ∷ "Pmin" ∷ []))
          _ h
          λ u named h₁. then_ok (resource_of g (lookup "type" entry)) _ h₁ λ t known h₂.
            then_ok (bus_in buses (lookup "bus_id" entry)) _ h₂ λ bus found h₃.
              then_ok (compared (lookup "Pmax" entry)) _ h₃ λ pmax most h₄.
                let (v, positive, h₅) =
                  >>=-eq-ok (require (not (lt pmax (of_ℕ 0))) value_error) _ h₄ in
                then_ok (pmin_of (g.immutables.pmin_share t) pmax (lookup "Pmin" entry)) _ h₅
                  λ pmin least h₆.
                    let (w, between, h₇) =
                      >>=-eq-ok (require (not (lt pmin (of_ℕ 0) || lt pmax pmin)) value_error) _
                        h₆ in
                    let profile = contains g.immutables.profile_resources t in
                    then_ok (neighbor_for angle g profile bus t) _ h₇ λ n near h₈.
                      then_ok (coefficient_of profile (lookup "c0" entry)) _ h₈ λ c0 zeroth h₉.
                        then_ok (coefficient_of profile (lookup "c1" entry)) _ h₉ λ c1 first k.
                          then_ok (coefficient_of profile (lookup "c2" entry)) _ k λ c2 second last.
                            let all_three : (profile || (is_some c0 && is_some c1 && is_some c2))
                                ≡ true =
                              ground (
                                arith,
                                coefficient_of-is_some profile (lookup "c0" entry) c0 zeroth,
                                coefficient_of-is_some profile (lookup "c1" entry) c1 first,
                                coefficient_of-is_some profile (lookup "c2" entry) c2 second,
                              ) in
                            subst (ValidPlant g buses) (ok-injective last) (record {
                              resource = resource_of-contains g (lookup "type" entry) t known;
                              at_bus = bus_in-contains buses (lookup "bus_id" entry) bus found;
                              positive =
                                  not-eq (require-ok (not (lt pmax (of_ℕ 0))) value_error positive);
                              between = not-eq (
                                  require-ok (not (lt pmin (of_ℕ 0) || lt pmax pmin)) value_error
                                    between);
                              neighbor = neighbor_for-is_some profile bus t n near;
                              coefficients = all_three;
                            })

  -- A storage unit that `add_storage_capacity` may add: at a bus of the table, with quantities that are
  -- not negative, and shares that are not above 1 either.
  pub record ValidStorage (buses : List (Bus V)) (u : NewStorage V) : Type 0 where
    pub at_bus : contains (ids (λ b. b.bus_id) buses) u.bus_id ≡ true
    pub quantities :
        All
          (λ x. lt x (of_ℕ 0) ≡ false)
          (u.capacity ∷ u.duration ∷ u.min_stor ∷ u.max_stor ∷ u.energy_value ∷ u.in_eff ∷ u.out_eff
            ∷ u.loss_factor ∷ u.terminal_min ∷ u.terminal_max ∷ [])
    pub shares :
        All
          (λ x. lt (of_ℕ 1) x ≡ false)
          (u.min_stor ∷ u.max_stor ∷ u.in_eff ∷ u.out_eff ∷ u.loss_factor ∷ [])

  quantity-positive :
      (default : V) (v : Option (Value V)) (x : V)
      → quantity default v ≡ ok x
      → lt x (of_ℕ 0) ≡ false
  unfolding quantity
  quantity-positive default none x h = ground arith
  quantity-positive default (some v) x h =
      let (y, first, rest) = >>=-eq-ok (as_number (some v)) _ h in ground arith

  share_of-between :
      (default : V) (v : Option (Value V)) (x : V)
      → share_of default v ≡ ok x
      → (lt x (of_ℕ 0) ≡ false) × (lt (of_ℕ 1) x ≡ false)
  unfolding share_of
  share_of-between default v x h =
      let (y, first, rest) = >>=-eq-ok (quantity default v) _ h in
      let low = quantity-positive default v y first in ground arith

  pub check_storage-ValidStorage :
      (g : Grid V) (buses : List (Bus V)) (entry : Entry V) (u : NewStorage V)
      → check_storage g buses entry ≡ ok u
      → ValidStorage buses u
  unfolding check_storage
  check_storage-ValidStorage g buses entry u h =
      let d = g.storage.defaults in
      then_ok
        (check_entry_keys (keys entry) ("bus_id" ∷ "capacity" ∷ []) [] (
          "duration" ∷ "min_stor" ∷ "max_stor" ∷ "energy_value" ∷ "InEff" ∷ "OutEff" ∷ "LossFactor"
          ∷ "terminal_min" ∷ "terminal_max" ∷ []))
        _ h
        λ v named h₁. then_ok (bus_in buses (lookup "bus_id" entry)) _ h₁ λ bus found h₂.
          then_ok (quantity (of_ℕ 0) (lookup "capacity" entry)) _ h₂ λ x1 e1 h₃.
            then_ok (quantity d.duration (lookup "duration" entry)) _ h₃ λ x2 e2 h₄.
              then_ok (share_of d.min_stor (lookup "min_stor" entry)) _ h₄ λ x3 e3 h₅.
                then_ok (share_of d.max_stor (lookup "max_stor" entry)) _ h₅ λ x4 e4 h₆.
                  then_ok (quantity d.energy_value (lookup "energy_value" entry)) _ h₆ λ x5 e5 h₇.
                    then_ok (share_of d.in_eff (lookup "InEff" entry)) _ h₇ λ x6 e6 h₈.
                      then_ok (share_of d.out_eff (lookup "OutEff" entry)) _ h₈ λ x7 e7 h₉.
                        then_ok (share_of d.loss_factor (lookup "LossFactor" entry)) _ h₉ λ x8 e8 k.
                          then_ok (quantity d.terminal_min (lookup "terminal_min" entry)) _ k
                            λ x9 e9 l.
                              then_ok (quantity d.terminal_max (lookup "terminal_max" entry)) _ l
                                λ x10 e10 last.
                                  let q1 = quantity-positive (of_ℕ 0) _ x1 e1 in
                                  let q2 = quantity-positive d.duration _ x2 e2 in
                                  let q3 = share_of-between d.min_stor _ x3 e3 in
                                  let q4 = share_of-between d.max_stor _ x4 e4 in
                                  let q5 = quantity-positive d.energy_value _ x5 e5 in
                                  let q6 = share_of-between d.in_eff _ x6 e6 in
                                  let q7 = share_of-between d.out_eff _ x7 e7 in
                                  let q8 = share_of-between d.loss_factor _ x8 e8 in
                                  let q9 = quantity-positive d.terminal_min _ x9 e9 in
                                  let q10 = quantity-positive d.terminal_max _ x10 e10 in
                                  subst (ValidStorage buses) (ok-injective last) (record {
                                    at_bus =
                                        bus_in-contains buses (lookup "bus_id" entry) bus found;
                                    quantities = (
                                      q1,
                                      (
                                        q2,
                                        (
                                          q3.0,
                                          (q4.0, (q5, (q6.0, (q7.0, (q8.0, (q9, (q10, tt))))))),
                                        ),
                                      ),
                                    );
                                    shares = (q3.1, (q4.1, (q6.1, (q7.1, (q8.1, tt)))));
                                  })
