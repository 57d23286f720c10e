-- ===== src/Scenario/Settings.antt =====
-- What the setters of `_Builder` and `FromCSV` in powersimdata/scenario/create.py accept.
use Prim.Native.Nat.{◌%◌}
use power_sim_data.Prelude.{
  ℕ, ◌+◌, ◌-◌, ◌*◌, ◌≤◌, String, ◌≡◌, ◌≢◌, refl, inl, inr, Bool, true, false, ◌&&◌, List, [], ◌∷◌,
  any, select, if◌then◌else◌, arith, Bool-cases,
}
use power_sim_data.Prelude.Result.{Result, ok, raise, value_error, Result-cases}
use power_sim_data.ChangeTable.Units.{then_ok}
use power_sim_data.Scenario.Builder.{
  Builder, has, set_name, set_time, check_time_range, check_range, check_interval,
}

any-select :
    {A : Type 0} (p q : A → Bool) (xs : List A) → any q (select p xs) ≡ any (λ x. p x && q x) xs
any-select p q [] = refl
any-select p q (x ∷ xs) = ground (arith, any-select p q xs)

none-both :
    {A : Type 0} (p q : A → Bool) (xs : List A)
    → any p xs ≡ false
    → any (λ x. p x && q x) xs ≡ false
none-both p q [] h = refl
none-both p q (x ∷ xs) h = ground (arith, h, none-both p q xs)

-- `set_name` refuses a pair of names exactly if one of the scenarios that the builder knows has both, and
-- then changes nothing; otherwise it sets both names and nothing else.
pub set_name-eq :
    {V : Type 0} (plan name : String) (b : Builder V)
    → set_name plan name b ≡ (
        if any (λ r. has "plan" plan r && has "name" name r) b.existing
        then (raise value_error, b)
        else (ok tt, record b { plan_name = plan; scenario_name = name }))
unfolding set_name
set_name-eq plan name b =
    let both = any-select (has "plan" plan) (has "name" name) b.existing in
    elim (Bool-cases (any (has "plan" plan) b.existing)) [
      | inl planned ↦ rw (planned, both) refl
      | inr unplanned ↦
          let neither = none-both (has "plan" plan) (has "name" name) b.existing unplanned in
          rw (unplanned, neither) refl
    ]

module _ (timestamp : String → Result ℕ) (hours : String → Result ℕ) where
  -- Dates in order and within 2016; the range, with its last hour, is a whole number of intervals.
  pub record ValidTime (start_date end_date interval : String) : Type 0 where
    pub first : ℕ
    pub last : ℕ
    pub start : ℕ
    pub end : ℕ
    pub hour_count : ℕ
    pub first_known : timestamp "2016-01-01 00:00:00" ≡ ok first
    pub last_known : timestamp "2016-12-31 23:00:00" ≡ ok last
    pub start_known : timestamp start_date ≡ ok start
    pub end_known : timestamp end_date ≡ ok end
    pub interval_known : hours interval ≡ ok hour_count
    pub after_first : first ≤ start
    pub ordered : start ≤ end
    pub before_last : end ≤ last
    pub positive : hour_count ≢ 0
    pub divides : (end - start + 3600) % (hour_count * 3600) ≡ 0

  check_range-ok :
      (first last start end : ℕ)
      → check_range timestamp hours first last start end ≡ ok tt
      → (first ≤ start) × (start ≤ end) × (end ≤ last)
  unfolding check_range
  check_range-ok first last start end h = ground arith

  check_interval-ok :
      (start end n : ℕ)
      → check_interval timestamp hours start end n ≡ ok tt
      → (n ≢ 0) × ((end - start + 3600) % (n * 3600) ≡ 0)
  unfolding check_interval
  check_interval-ok start end n h = ground arith

  check_time_range-ok :
      (start_date end_date interval : String)
      → check_time_range timestamp hours start_date end_date interval ≡ ok tt
      → ValidTime start_date end_date interval
  unfolding check_time_range
  check_time_range-ok start_date end_date interval h =
      then_ok (timestamp "2016-01-01 00:00:00") _ h λ first e₁ h₁.
        then_ok (timestamp "2016-12-31 23:00:00") _ h₁ λ last e₂ h₂.
          then_ok (timestamp start_date) _ h₂ λ start e₃ h₃.
            then_ok (timestamp end_date) _ h₃ λ end e₄ h₄.
              then_ok (check_range timestamp hours first last start end) _ h₄ λ done e₅ h₅.
                then_ok (hours interval) _ h₅ λ n e₆ h₆.
                  let r = check_range-ok first last start end e₅ in
                  let i = check_interval-ok start end n h₆ in
                  record {
                    first = first;
                    last = last;
                    start = start;
                    end = end;
                    hour_count = n;
                    first_known = e₁;
                    last_known = e₂;
                    start_known = e₃;
                    end_known = e₄;
                    interval_known = e₆;
                    after_first = r.0;
                    ordered = r.1;
                    before_last = r.2;
                    positive = i.0;
                    divides = i.1;
                  }

  -- If `set_time` of a builder of a csv grid model goes through, both dates lie in 2016 and are in order,
  -- the range with its last hour is a whole number of intervals, and the builder has the three texts.
  pub set_time-ok :
      {V : Type 0} (start_date end_date interval : String) (b b' : Builder V)
      → b.from_csv ≡ true
      → set_time timestamp hours start_date end_date interval b ≡ (ok tt, b')
      → ValidTime start_date end_date interval
        × (b' ≡ record b { start_date = start_date; end_date = end_date; interval = interval })
  unfolding set_time
  set_time-ok start_date end_date interval b b' csv h =
      elim (Result-cases (check_time_range timestamp hours start_date end_date interval)) [
        | inl (done, e) ↦
            (check_time_range-ok start_date end_date interval e, ground (arith, csv, e))
        | inr (x, e) ↦ ground (arith, csv, e)
      ]
