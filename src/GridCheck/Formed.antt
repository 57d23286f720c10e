-- ===== src/GridCheck/Formed.antt =====
-- What it is for a grid to be internally consistent, without a word about messages.
use power_sim_data.Prelude.{
  ℕ, ◌+◌, Bool, true, ◌≡◌, ◌≢◌, ◌↔◌, ◌⊎◌, sym, ◌∙◌, inl, inr, List, [], ◌∷◌, ◌++◌, map, nat_eq,
  string_eq, ◌==◌, ==_iff, length, All, subset, contains, arith,
}
use power_sim_data.Prelude.Result.{ok, Result-cases}
use power_sim_data.Number.{Number}
use power_sim_data.Grid.{Grid}
use power_sim_data.Grid.Rows.{ids, row_at}
use power_sim_data.GridCheck.Cost.{Polynomial, all-All}
use power_sim_data.GridCheck.Tables.{
  Message, unless, same_set, minus, same_at, line_ends, transformers, lines, gencost_after,
  num_interconnects, cost_frame,
}

-- Both ids are in a table, and their values there are the same.
pub record Agree {A B : Type 0} (index : A → ℕ) (value : A → B) (same : B → B → Bool)
    (rows : List A) (i j : ℕ) : Type 0 where
  pub from : A
  pub to : A
  pub from_row : row_at index i rows ≡ ok from
  pub to_row : row_at index j rows ≡ ok to
  pub equal : same (value from) (value to) ≡ true

pub record WellFormed {V : Type 0} ⦃num : Number V⦄ (components : List (ℕ × ℕ) → ℕ) (g : Grid V)
    : Type 0 where
  pub connected :
      (length g.branch + length g.dcline ≡ 0)
      ⊎ All (λ i. contains (line_ends g) i ≡ true) (ids (λ b. b.bus_id) g.bus)
  pub described : All (λ i. contains (ids (λ b. b.bus_id) g.bus) i ≡ true) (line_ends g)
  pub substations :
      (i : ℕ) → contains (ids (λ b. b.bus_id) g.bus) i ≡ contains (ids (λ b. b.bus_id) g.bus2sub) i
  pub interconnects :
      All
        (λ l.
          Agree
            (λ b. b.bus_id)
            (λ b. b.interconnect)
            (λ s t. s == t)
            g.bus
            l.from_bus_id
            l.to_bus_id)
        g.branch
  pub within_substation :
      All
        (λ l.
          Agree (λ b. b.bus_id) (λ b. b.sub_id) (λ s t. s == t) g.bus2sub l.from_bus_id l.to_bus_id)
        (transformers g)
  pub voltages :
      All
        (λ l. Agree (λ b. b.bus_id) (λ b. b.base_kv) num.equal g.bus l.from_bus_id l.to_bus_id)
        (lines g)
  pub costs :
      (i : ℕ)
      → (contains (ids (λ r. r.plant_id) g.plant) i
          ≡ contains (ids (λ r. r.plant_id) g.gencost_before) i)
        × (contains (ids (λ r. r.plant_id) g.gencost_before) i
            ≡ contains (ids (λ r. r.plant_id) (gencost_after g)) i)
  pub one_component_each :
      num_interconnects g ≡ components (map (λ l. (l.from_bus_id, l.to_bus_id)) g.branch)
  pub no_loop : All (λ l. l.from_bus_id ≢ l.to_bus_id) g.branch
  pub before : Polynomial (cost_frame g.gencost_before)
  pub after : Polynomial (cost_frame (gencost_after g))

pub unless-[] : (b : Bool) (m : Message) → (unless b m ≡ []) ↔ (b ≡ true)
unless-[] b m = ground arith

pub append-[] : (a b : List Message) → (a ++ b ≡ []) ↔ ((a ≡ []) × (b ≡ []))
append-[] [] b = ground arith
append-[] (m ∷ a) b = ground arith

pub minus-[] : (a b : List ℕ) → (minus a b ≡ []) ↔ All (λ i. contains b i ≡ true) a
minus-[] [] b = ground arith
minus-[] (x ∷ a) b = ground (arith, minus-[] a b)

contains-All :
    (a b : List ℕ) (i : ℕ)
    → All (λ i. contains b i ≡ true) a
    → contains a i ≡ true
    → contains b i ≡ true
contains-All [] b i h k = ground arith
contains-All (x ∷ a) b i h k = ground (arith, contains-All a b i, ==_iff x i)

subset-All : (a b : List ℕ) → (subset a b ≡ true) ↔ All (λ i. contains b i ≡ true) a
subset-All a b = all-All _ (contains b) (λ i. ((λ h. h), (λ h. h))) a

All-contains :
    (b a : List ℕ)
    → ((i : ℕ) → contains a i ≡ true → contains b i ≡ true)
    → All (λ i. contains b i ≡ true) a
All-contains b [] h = tt
All-contains b (x ∷ a) h =
    (h x (ground (arith, ==_iff x x)), All-contains b a (λ i k. h i (ground (arith, k))))

pub same_set_iff : (a b : List ℕ) → (same_set a b ≡ true) ↔ ((i : ℕ) → contains a i ≡ contains b i)
same_set_iff a b = (to, from)
  where
    to : same_set a b ≡ true → (i : ℕ) → contains a i ≡ contains b i
    to h i = ground (
      arith,
      contains-All a b i ((subset-All a b).0 (ground (arith, h))),
      contains-All b a i ((subset-All b a).0 (ground (arith, h))),
    )

    from : ((i : ℕ) → contains a i ≡ contains b i) → same_set a b ≡ true
    from h = ground (
      arith,
      (subset-All a b).1 (All-contains b a (λ i k. sym (h i) ∙ k)),
      (subset-All b a).1 (All-contains a b (λ i k. h i ∙ k)),
    )

module _ {A B : Type 0} (index : A → ℕ) (value : A → B) (same : B → B → Bool) (rows : List A) where
  pub same_at-Agree :
      (i j : ℕ) → (same_at index value same rows i j ≡ true) ↔ Agree index value same rows i j
  unfolding same_at
  same_at-Agree i j = (to, λ k. ground (arith, k.from_row, k.to_row, k.equal))
    where
      to : same_at index value same rows i j ≡ true → Agree index value same rows i j
      to h = elim (Result-cases (row_at index i rows)) [
        | inr (e, k) ↦ ground (arith, k)
        | inl (a, k) ↦ elim (Result-cases (row_at index j rows)) [
          | inr (e, l) ↦ ground (arith, k, l)
          | inl (b, l) ↦ record {
            from = a;
            to = b;
            from_row = k;
            to_row = l;
            equal = ground (arith, k, l);
          }
        ]
      ]
