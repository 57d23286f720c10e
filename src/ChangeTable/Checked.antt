-- ===== src/ChangeTable/Checked.antt =====
-- What the checks of an entry establish.
use power_sim_data.Prelude.{
  ℕ, String, ◌≡◌, refl, sym, ap, subst, ◌∙◌, ◌⊎◌, inl, inr, Bool, true, false, not, ◌&&◌, ◌||◌,
  Option, none, some, List, [], ◌∷◌, ◌++◌, suc, contains-append, nat_eq, string_eq, ◌==◌, ==_iff,
  ==_refl, contains, length, All, if◌then◌else◌, arith, Bool-cases, Option-cases,
}
use power_sim_data.Prelude.Dict.{Dict, keys, values, lookup}
use power_sim_data.Prelude.Result.{
  Result, Error, ok, raise, require, value_error, Result-cases, >>=-eq-ok, ok-injective,
}
use power_sim_data.Number.{Number, of_ℕ}
use power_sim_data.Grid.{Bus, Grid}
use power_sim_data.Grid.Rows.{ids, row_at}
use power_sim_data.Ct.{NewBus, NewLine}
use power_sim_data.ChangeTable.Entries.{
  Value, text, index, number, Entry, LineKind, check_entry_keys, bus_of, line_limits,
  limits_of_capacity, limits_of_range, as_number, number_or, beyond, is_branch, zone_of, check_line,
  check_bus, check_all, has,
}

-- Each result of a list of checks is one that the check can give.
pub check_all-All :
    {A B : Type 0} (P : B → Type 0) (check : A → Result B)
    → ((a : A) (b : B) → check a ≡ ok b → P b)
    → (items : List A) (l : List B) → check_all check items ≡ ok l
    → All P l × (length l ≡ length items)
unfolding check_all
check_all-All P check one [] [] h = (tt, refl)
check_all-All P check one [] (b ∷ l) h = ground arith
check_all-All P check one (a ∷ items) [] h =
    let (b, first, h₁) = >>=-eq-ok (check a) _ h in
    let (rest, more, h₂) = >>=-eq-ok (check_all check items) _ h₁ in ground arith
check_all-All P check one (a ∷ items) (b ∷ l) h =
    let (b', first, h₁) = >>=-eq-ok (check a) _ h in
    let (rest, more, h₂) = >>=-eq-ok (check_all check items) _ h₁ in
    let is_b : b' ≡ b = ground (arith, h₂) in
    let is_l : rest ≡ l = ground (arith, h₂) in
    let (valid, same) = check_all-All P check one items l (more ∙ ap ok is_l) in
    ((one a b (first ∙ ap ok is_b), valid), ap suc same)

raise-ok : {A : Type 0} {e : Error} {a : A} → raise e ≡ ok a → ⊥
raise-ok h = cc

pub require-ok : (test : Bool) (e : Error) {u : Unit {0}} → require test e ≡ ok u → test ≡ true
require-ok true e h = refl
require-ok false e h = cc

lookup-values :
    (k : String) (d : Dict String ℕ) (v : ℕ) → lookup k d ≡ some v → contains (values d) v ≡ true
unfolding lookup
lookup-values k [] v h = ground arith
lookup-values k ((j, w) ∷ d) v h = ground (arith, lookup-values k d v, ==_iff w v)

pub row_at-contains :
    {A : Type 0} (key : A → ℕ) (i : ℕ) (rows : List A) (r : A)
    → row_at key i rows ≡ ok r
    → contains (ids key rows) (key r) ≡ true
unfolding row_at
row_at-contains key i [] r h = ground arith
row_at-contains key i (q ∷ rows) r h = ground (arith, row_at-contains key i rows r, ==_refl (key q))

pub not-eq : {b : Bool} → not b ≡ true → b ≡ false
not-eq {b = true} h = ground arith
not-eq {b = false} h = refl

then-eq : {A : Type 0} (b : Bool) (x y : A) {r : A} → b ≡ true → (if b then x else y) ≡ r → x ≡ r
then-eq true x y k h = h
then-eq false x y k h = cc

else-eq : {A : Type 0} (b : Bool) (x y : A) {r : A} → b ≡ false → (if b then x else y) ≡ r → y ≡ r
else-eq true x y k h = cc
else-eq false x y k h = h

module _ {V : Type 0} ⦃num : Number V⦄ where
  open num use {neg, le, lt, equal}

  -- A bus that `add_bus` may add to the grid.
  pub record ValidBus (g : Grid V) (b : NewBus V) : Type 0 where
    pub near : beyond 90 b.lat ≡ false
    pub far : beyond 180 b.lon ≡ false
    pub in_grid : contains (keys g.id2zone ++ values g.zone2id) b.zone_id ≡ true
    pub base_kv_above : le b.base_kv (of_ℕ 0) ≡ false

  zone_of-in_grid :
      (g : Grid V) (entry : Entry V) (z : ℕ)
      → zone_of g entry ≡ ok z
      → contains (keys g.id2zone ++ values g.zone2id) z ≡ true
  unfolding zone_of
  zone_of-in_grid g entry z h = elim (Option-cases (lookup "zone_name" entry)) [
    | inr (text name, k) ↦ ground (
      arith,
      contains-append (keys g.id2zone) (values g.zone2id) z,
      lookup-values name g.zone2id z,
      k,
    )
    | inr (index n, k) ↦ ground (arith, k)
    | inr (number x, k) ↦ ground (arith, k)
    | inl k ↦ ground (arith, contains-append (keys g.id2zone) (values g.zone2id) z, k)
  ]

  pub check_bus-ValidBus :
      (g : Grid V) (entry : Entry V) (b : NewBus V) → check_bus g entry ≡ ok b → ValidBus g b
  unfolding check_bus
  check_bus-ValidBus g entry b h =
      let (u, keys_ok, h₁) =
        >>=-eq-ok
          (check_entry_keys (keys entry) ("lat" ∷ "lon" ∷ []) (("zone_id" ∷ "zone_name" ∷ []) ∷ [])
            ("Pd" ∷ "baseKV" ∷ []))
          _ h in
      let (lat, _, h₂) = >>=-eq-ok (as_number (lookup "lat" entry)) _ h₁ in
      let (lon, _, h₃) = >>=-eq-ok (as_number (lookup "lon" entry)) _ h₂ in
      let (_, lat_ok, h₄) = >>=-eq-ok (require (not (beyond 90 lat)) value_error) _ h₃ in
      let (_, lon_ok, h₅) = >>=-eq-ok (require (not (beyond 180 lon)) value_error) _ h₄ in
      let (zone, in_grid, h₆) = >>=-eq-ok (zone_of g entry) _ h₅ in
      let (pd, _, h₇) = >>=-eq-ok (number_or (of_ℕ 0) (lookup "Pd" entry)) _ h₆ in
      let (kv, _, h₈) = >>=-eq-ok (number_or (of_ℕ 230) (lookup "baseKV" entry)) _ h₇ in
      let (_, above, h₉) = >>=-eq-ok (require (not (le kv (of_ℕ 0))) value_error) _ h₈ in
      let is_b = sym (ok-injective h₉) in
      record {
        near =
            ap (λ c. beyond 90 c.lat) is_b
            ∙ not-eq (require-ok (not (beyond 90 lat)) value_error lat_ok);
        far =
            ap (λ c. beyond 180 c.lon) is_b
            ∙ not-eq (require-ok (not (beyond 180 lon)) value_error lon_ok);
        in_grid =
            ap (λ c. contains (keys g.id2zone ++ values g.zone2id) c.zone_id) is_b
            ∙ zone_of-in_grid g entry zone in_grid;
        base_kv_above =
            ap (λ c. le c.base_kv (of_ℕ 0)) is_b
            ∙ not-eq (require-ok (not (le kv (of_ℕ 0))) value_error above);
      }

  bus_of-there :
      (buses : List (Bus V)) (i : Option (Value V)) (b : Bus V)
      → bus_of buses i ≡ ok b
      → contains (ids (λ b. b.bus_id) buses) b.bus_id ≡ true
  unfolding bus_of
  bus_of-there buses none b h = ground arith
  bus_of-there buses (some (index n)) b h = elim (Result-cases (row_at (λ b. b.bus_id) n buses)) [
    | inl (c, k) ↦ row_at-contains (λ b. b.bus_id) n buses b (ground (arith, k))
    | inr (e, k) ↦ ground (arith, k)
  ]
  bus_of-there buses (some (number x)) b h = ground arith
  bus_of-there buses (some (text s)) b h = ground arith

  -- The limits of a line that is accepted.
  abbrev pub Limits : LineKind → V × V → Type 0
  Limits kind l =
      ((l.0 ≡ neg l.1) × (lt l.1 (of_ℕ 0) ≡ false))
      ⊎ ((is_branch kind ≡ false) × (lt l.1 l.0 ≡ false))

  capacity-Limits :
      (kind : LineKind) (entry : Entry V) (l : V × V)
      → limits_of_capacity entry ≡ ok l
      → Limits kind l
  unfolding limits_of_capacity
  capacity-Limits kind entry l h =
      let (c, _, h₁) = >>=-eq-ok (as_number (lookup "capacity" entry)) _ h in
      let (_, above, h₂) = >>=-eq-ok (require (not (lt c (of_ℕ 0))) value_error) _ h₁ in
      let is_l = sym (ok-injective h₂) in
      inl (
        ap (λ l. l.0) is_l ∙ ap (λ l. neg l.1) (sym is_l),
        ap (λ l. lt l.1 (of_ℕ 0)) is_l
            ∙ not-eq (require-ok (not (lt c (of_ℕ 0))) value_error above),
      )

  range-Limits :
      (kind : LineKind) (entry : Entry V) (l : V × V)
      → limits_of_range kind entry ≡ ok l
      → Limits kind l
  unfolding limits_of_range
  range-Limits kind entry l h =
      let (_, line, h₁) = >>=-eq-ok (require (not (is_branch kind)) value_error) _ h in
      let (low, _, h₂) = >>=-eq-ok (as_number (lookup "Pmin" entry)) _ h₁ in
      let (high, _, h₃) = >>=-eq-ok (as_number (lookup "Pmax" entry)) _ h₂ in
      let (_, above, h₄) = >>=-eq-ok (require (not (lt high low)) value_error) _ h₃ in
      inr (
        not-eq (require-ok (not (is_branch kind)) value_error line),
        ap (λ l. lt l.1 l.0) (sym (ok-injective h₄))
            ∙ not-eq (require-ok (not (lt high low)) value_error above),
      )

  line_limits-Limits :
      (kind : LineKind) (entry : Entry V) (l : V × V)
      → line_limits kind entry ≡ ok l
      → Limits kind l
  unfolding line_limits
  line_limits-Limits kind entry l h = elim (Bool-cases (has "capacity" entry)) [
    | inl k ↦ capacity-Limits kind entry l (then-eq (has "capacity" entry) _ _ k h)
    | inr k ↦
        let h₁ = else-eq (has "capacity" entry) _ _ k h in
        elim (Bool-cases (has "Pmin" entry && has "Pmax" entry)) [
          | inl j ↦
              range-Limits kind entry l (then-eq (has "Pmin" entry && has "Pmax" entry) _ _ j h₁)
          | inr j ↦ elim (raise-ok (else-eq (has "Pmin" entry && has "Pmax" entry) _ _ j h₁)) [ ]
        ]
  ]

  -- A line that `_add_line` may add, given the buses of the transformed grid.
  pub record ValidLine (kind : LineKind) (buses : List (Bus V)) (l : NewLine V) : Type 0 where
    pub from_there : contains (ids (λ b. b.bus_id) buses) l.from_bus_id ≡ true
    pub to_there : contains (ids (λ b. b.bus_id) buses) l.to_bus_id ≡ true
    pub distinct : (l.from_bus_id == l.to_bus_id) ≡ false
    pub limits : Limits kind (l.pmin, l.pmax)

  pub check_line-ValidLine :
      (kind : LineKind) (buses : List (Bus V)) (entry : Entry V) (l : NewLine V)
      → check_line kind buses entry ≡ ok l
      → ValidLine kind buses l
  unfolding check_line
  check_line-ValidLine kind buses entry l h =
      let (u, keys_ok, h₁) =
        >>=-eq-ok
          (check_entry_keys (keys entry) ("from_bus_id" ∷ "to_bus_id" ∷ [])
            (("capacity" ∷ "Pmax" ∷ []) ∷ ("capacity" ∷ "Pmin" ∷ []) ∷ []) ("Pmin" ∷ []))
          _ h in
      let (from, starts, h₂) = >>=-eq-ok (bus_of buses (lookup "from_bus_id" entry)) _ h₁ in
      let (to, ends, h₃) = >>=-eq-ok (bus_of buses (lookup "to_bus_id" entry)) _ h₂ in
      let (_, apart, h₄) = >>=-eq-ok (require (not (from.bus_id == to.bus_id)) value_error) _ h₃ in
      let (limits, within, h₅) = >>=-eq-ok (line_limits kind entry) _ h₄ in
      let (_, together, h₆) =
        >>=-eq-ok
          (require (not (is_branch kind) || from.interconnect == to.interconnect) value_error) _
          h₅ in
      let (_, distance, h₇) =
        >>=-eq-ok (require (not (equal from.lat to.lat && equal from.lon to.lon)) value_error) _
          h₆ in
      let is_l = sym (ok-injective h₇) in
      record {
        from_there =
            ap (λ l. contains (ids (λ b. b.bus_id) buses) l.from_bus_id) is_l
            ∙ bus_of-there buses (lookup "from_bus_id" entry) from starts;
        to_there =
            ap (λ l. contains (ids (λ b. b.bus_id) buses) l.to_bus_id) is_l
            ∙ bus_of-there buses (lookup "to_bus_id" entry) to ends;
        distinct =
            ap (λ l. l.from_bus_id == l.to_bus_id) is_l
            ∙ not-eq (require-ok (not (from.bus_id == to.bus_id)) value_error apart);
        limits =
            subst (λ l. Limits kind (l.pmin, l.pmax)) (sym is_l)
              (line_limits-Limits kind entry limits within);
      }
