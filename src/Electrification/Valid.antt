-- ===== src/Electrification/Valid.antt =====
-- What is stored has only admissible adoption rates.
use power_sim_data.Prelude.{
  String, false, ◌≡◌, Option, none, some, [], ◌∷◌, string_eq, ◌==◌, contains, any, All, arith,
  Bool-cases, inl, inr,
}
use power_sim_data.Prelude.Dict.{Dict, keys, values, insert, update}
use power_sim_data.Prelude.Result.{ok, require, value_error, Result-cases, >>=-eq-ok}
use power_sim_data.Number.{Number, of_ℕ}
use power_sim_data.Grid.{Grid}
use power_sim_data.ChangeTable.Scaling.{check_zone}
use power_sim_data.Electrification.{
  Factors, Area, Electrified, Demands, sum_from, check_scale_factors, check_area, check_zones,
  check_electrified, merge, check_request, store, add_electrification,
}

All-insert :
    {A : Type 0} (P : String × A → Type 0) (k : String) (a : A) (d : Dict String A)
    → P (k, a)
    → All P d
    → All P (insert k a d)
unfolding insert
All-insert P k a [] p h = (p, tt)
All-insert P k a ((j, b) ∷ d) p h = elim (Bool-cases (j == k)) [
  | inl e ↦ rw e (p, h.1)
  | inr e ↦ rw e (h.0, All-insert P k a d p h.1)
]

All-update :
    {A : Type 0} (P : String × A → Type 0) (d new : Dict String A)
    → All P d
    → All P new
    → All P (update d new)
unfolding update
All-update P d [] h k = h
All-update P d ((j, a) ∷ new) h k = All-update P (insert j a d) new (All-insert P j a d k.0 h) k.1

module _ {V : Type 0} ⦃num : Number V⦄ where
  open num use {lt}

  -- No rate is negative, and their sum is at most 1.
  pub record IsRates (d : Factors V) : Type 0 where
    pub not_negative : any (λ v. lt v (of_ℕ 0)) (values d) ≡ false
    pub at_most_one : lt (of_ℕ 1) (sum_from (of_ℕ 0) (values d)) ≡ false

  abbrev pub IsArea : Area V → Type 0
  IsArea area = All (λ p. IsRates p.1) area

  abbrev pub IsElectrified : Electrified V → Type 0
  IsElectrified d = IsArea d.grid × All (λ p. IsArea p.1) d.zone

  abbrev pub IsStored : Option (Electrified V) → Type 0
  IsStored none = Unit
  IsStored (some d) = IsElectrified d

  abbrev pub IsValid : Demands V → Type 0
  IsValid s = IsStored s.building × IsStored s.transportation

  check_scale_factors-IsRates :
      (d : Factors V) {u : Unit {0}} → check_scale_factors d ≡ ok u → IsRates d
  unfolding check_scale_factors
  check_scale_factors-IsRates d h = record {
    not_negative = ground arith;
    at_most_one = ground arith;
  }

  check_area-IsArea : (area : Area V) {u : Unit {0}} → check_area area ≡ ok u → IsArea area
  unfolding check_area
  check_area-IsArea [] h = tt
  check_area-IsArea ((end_use, d) ∷ area) h =
      let (u, first, rest) = >>=-eq-ok (check_scale_factors d) _ h in
      (check_scale_factors-IsRates d first, check_area-IsArea area rest)

  check_zones-IsArea :
      (zones : Dict String (Area V)) {u : Unit {0}}
      → check_zones zones ≡ ok u
      → All (λ p. IsArea p.1) zones
  unfolding check_zones
  check_zones-IsArea [] h = tt
  check_zones-IsArea ((z, area) ∷ zones) h =
      let (u, first, rest) = >>=-eq-ok (check_area area) _ h in
      (check_area-IsArea area first, check_zones-IsArea zones rest)

  check_electrified-IsElectrified :
      (g : Grid V) (info : Electrified V) {u : Unit {0}}
      → check_electrified g info ≡ ok u
      → IsElectrified info
  unfolding check_electrified
  check_electrified-IsElectrified g info h =
      let (u, first, h₁) = >>=-eq-ok (check_area info.grid) _ h in
      let (v, known, h₂) = >>=-eq-ok (require (check_zone g (keys info.zone)) value_error) _ h₁ in
      (check_area-IsArea info.grid first, check_zones-IsArea info.zone h₂)

  merge-IsElectrified :
      (info : Electrified V) (stored : Option (Electrified V))
      → IsElectrified info
      → IsStored stored
      → IsElectrified (merge info stored)
  unfolding merge
  merge-IsElectrified info none h k =
      (All-update _ [] info.grid tt h.0, All-update _ [] info.zone tt h.1)
  merge-IsElectrified info (some d) h k =
      (All-update _ d.grid info.grid k.0 h.0, All-update _ d.zone info.zone k.1 h.1)

  store-IsValid :
      (kind : String) (info : Electrified V) (s : Demands V)
      → IsElectrified info
      → IsValid s
      → IsValid (store kind info s)
  unfolding store
  store-IsValid kind info s good h = elim (Bool-cases (kind == "building")) [
    | inl b ↦ rw b (merge-IsElectrified info s.building good h.0, h.1)
    | inr b ↦ rw b (h.0, merge-IsElectrified info s.transportation good h.1)
  ]

  -- `add_electrification` keeps the adoption rates of every end use and area, in the whole grid and in each
  -- zone, not negative and their sum at most 1, whatever it is given and whether it raises or not.
  pub add_electrification-IsValid :
      (g : Grid V) (kind : String) (info : Electrified V) (s : Demands V)
      → IsValid s
      → IsValid (add_electrification g kind info s).1
  unfolding add_electrification check_request
  add_electrification-IsValid g kind info s h = elim (Result-cases (check_request g kind info)) [
    | inr (e, k) ↦ rw (k, add_electrification) h
    | inl (u, k) ↦
        let (v, known, checked) =
          >>=-eq-ok (require (contains ("building" ∷ "transportation" ∷ []) kind) value_error) _
            k in
        rw (k, add_electrification)
          (store-IsValid kind info s (check_electrified-IsElectrified g info checked) h)
  ]
