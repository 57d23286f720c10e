-- ===== src/GridCheck/Sound.antt =====
-- `check_grid` accepts the internally consistent grids, and no others.
use power_sim_data.Prelude.{
  ℕ, ◌+◌, Bool, true, not, ◌≡◌, ◌≢◌, ◌↔◌, ◌⊎◌, refl, ap, inl, inr, List, [], ◌∷◌, map, nat_eq,
  string_eq, ◌==◌, ==_iff, length, all, All, select, contains, ltb, Bool-cases, arith,
}
use power_sim_data.Prelude.Result.{Result, ok, raise, Result-cases, value_error}
use power_sim_data.Number.{Number}
use power_sim_data.Grid.{Branch, Gencost, Grid}
use power_sim_data.Grid.Rows.{ids}
use power_sim_data.GridCheck.{concat, checks, error_messages, check_grid}
use power_sim_data.GridCheck.Cost.{
  Polynomial, all-All, check_gencost, check_gencost-Polynomial, Polynomial-check_gencost,
}
use power_sim_data.GridCheck.Tables.{
  Message, loop_lines, across_interconnects, across_substations, across_voltages, unless_all,
  same_interconnect, same_substation, same_voltage, line_ends, islanded, undescribed,
  bus2sub_messages, ac_interconnects, transformers, transformer_substations, lines, line_voltages,
  gencost_after, plant_gencost, num_interconnects, connected_components, loop_branches, cost_frame,
  gencost_messages,
}
use power_sim_data.GridCheck.Formed.{
  Agree, WellFormed, unless-[], append-[], minus-[], same_set_iff, same_at-Agree,
}

module _ {V : Type 0} (P : Branch V → Type 0) (same : Branch V → Bool)
    (message : List ℕ → Message) where
  unless_all-All :
      ((l : Branch V) → (same l ≡ true) ↔ P l)
      → (rows : List (Branch V)) → (unless_all same message rows ≡ []) ↔ All P rows
  unless_all-All one rows = ground (
    arith,
    unless-[] (all same rows) (message (ids (λ l. l.branch_id) (select (λ l. not (same l)) rows))),
    all-All P same one rows,
  )

concat-[] : (checks : List (List Message)) → (concat checks ≡ []) ↔ All (λ l. l ≡ []) checks
concat-[] [] = ground arith
concat-[] (l ∷ checks) = ground (arith, append-[] l (concat checks), concat-[] checks)

module _ {V : Type 0} (g : Grid V) where
  islanded-[] : (islanded g ≡ []) ↔ (
      (length g.branch + length g.dcline ≡ 0)
      ⊎ All (λ i. contains (line_ends g) i ≡ true) (ids (λ b. b.bus_id) g.bus))
  unfolding islanded
  islanded-[] =
      let missing = minus-[] (ids (λ b. b.bus_id) g.bus) (line_ends g) in
      (
        (λ h. elim (Bool-cases (ltb 0 (length g.branch + length g.dcline))) [
          | inr a ↦ inl (ground (arith, a))
          | inl a ↦ inr (missing.0 (ground (arith, a, h)))
        ]),
        (λ h. elim h [ inl a ↦ ground (arith, a) | inr a ↦ ground (arith, missing.1 a) ]),
      )

  undescribed-[] :
      (undescribed g ≡ []) ↔ All (λ i. contains (ids (λ b. b.bus_id) g.bus) i ≡ true) (line_ends g)
  unfolding undescribed
  undescribed-[] = ground (arith, minus-[] (line_ends g) (ids (λ b. b.bus_id) g.bus))

  plant_gencost-[] : (plant_gencost g ≡ []) ↔ (
      (i : ℕ)
      → (contains (ids (λ r. r.plant_id) g.plant) i
          ≡ contains (ids (λ r. r.plant_id) g.gencost_before) i)
        × (contains (ids (λ r. r.plant_id) g.gencost_before) i
            ≡ contains (ids (λ r. r.plant_id) (gencost_after g)) i))
  unfolding plant_gencost
  plant_gencost-[] =
      let plants = ids (λ r. r.plant_id) g.plant in
      let before = ids (λ r. r.plant_id) g.gencost_before in
      let after = ids (λ r. r.plant_id) (gencost_after g) in
      (
        (λ h i. (
          (same_set_iff plants before).0 (ground (arith, h)) i,
          (same_set_iff before after).0 (ground (arith, h)) i,
        )),
        (λ h. ground (
          arith,
          (same_set_iff plants before).1 (λ i. (h i).0),
          (same_set_iff before after).1 (λ i. (h i).1),
        )),
      )

gencost_messages-[] :
    {V : Type 0} (rows : List (Gencost V))
    → (gencost_messages rows ≡ []) ↔ Polynomial (cost_frame rows)
unfolding gencost_messages
gencost_messages-[] rows = (to, λ p. ground (arith, Polynomial-check_gencost (cost_frame rows) p))
  where
    to : gencost_messages rows ≡ [] → Polynomial (cost_frame rows)
    to h = elim (Result-cases (check_gencost (cost_frame rows))) [
      | inl (u, k) ↦ check_gencost-Polynomial (cost_frame rows) k
      | inr (e, k) ↦ ground (arith, k)
    ]

module _ {V : Type 0} ⦃num : Number V⦄ (components : List (ℕ × ℕ) → ℕ) (g : Grid V) where
  at_bus :
      (l : Branch V)
      → (same_interconnect g l ≡ true)
        ↔ Agree
            (λ b. b.bus_id)
            (λ b. b.interconnect)
            (λ s t. s == t)
            g.bus
            l.from_bus_id
            l.to_bus_id
  at_bus l =
      same_at-Agree (λ b. b.bus_id) (λ b. b.interconnect) (λ s t. s == t) g.bus l.from_bus_id
        l.to_bus_id

  at_bus2sub :
      (l : Branch V)
      → (same_substation g l ≡ true)
        ↔ Agree (λ b. b.bus_id) (λ b. b.sub_id) (λ s t. s == t) g.bus2sub l.from_bus_id l.to_bus_id
  at_bus2sub l =
      same_at-Agree (λ b. b.bus_id) (λ b. b.sub_id) (λ s t. s == t) g.bus2sub l.from_bus_id
        l.to_bus_id

  at_voltage :
      (l : Branch V)
      → (same_voltage g l ≡ true)
        ↔ Agree (λ b. b.bus_id) (λ b. b.base_kv) num.equal g.bus l.from_bus_id l.to_bus_id
  at_voltage l =
      same_at-Agree (λ b. b.bus_id) (λ b. b.base_kv) num.equal g.bus l.from_bus_id l.to_bus_id

  no_loop :
      (l : Branch V) → (not (l.from_bus_id == l.to_bus_id) ≡ true) ↔ (l.from_bus_id ≢ l.to_bus_id)
  no_loop l = ground (arith, ==_iff l.from_bus_id l.to_bus_id)

  check_grid-ok : check_grid components g ≡ ok tt → error_messages components g ≡ []
  unfolding check_grid
  check_grid-ok h = go (error_messages components g) h
    where
      go :
          (l : List Message)
          → elim l as (λ l. Result {0} (Unit {0})) [ [] ↦ ok tt | m ∷ k ↦ raise value_error ]
            ≡ ok tt
          → l ≡ []
      go [] h = refl
      go (m ∷ k) h = ground arith

  check_grid-[] : error_messages components g ≡ [] → check_grid components g ≡ ok tt
  unfolding check_grid
  check_grid-[] h =
      ap (λ l. elim l as (λ l. Result {0} (Unit {0})) [ [] ↦ ok tt | m ∷ k ↦ raise value_error ]) h

  -- `check_grid` accepts a grid if and only if it is well-formed: every bus is an end of a line, if there
  -- are lines, and every end is a bus; the tables of buses and of their substations have the same ids, as
  -- have those of plants and of their costs; branches stay within an interconnect, transformers within
  -- a substation, lines at one voltage; no branch is a loop; there is one component for each
  -- interconnect; and the costs are polynomials of one order.
  pub check_grid-WellFormed : (check_grid components g ≡ ok tt) ↔ WellFormed components g
  unfolding checks error_messages bus2sub_messages ac_interconnects transformer_substations
      line_voltages connected_components loop_branches
  check_grid-WellFormed = (to, from)
    where
      from : WellFormed components g → check_grid components g ≡ ok tt
      from w = check_grid-[] (
          (concat-[] (checks components g)).1 (
            (islanded-[] g).1 w.connected,
            (
              (undescribed-[] g).1 w.described,
              (
                (unless-[] _ _).1 ((same_set_iff _ _).1 w.substations),
                (
                  (unless_all-All _ (same_interconnect g) across_interconnects at_bus g.branch).1
                      w.interconnects,
                  (
                    (unless_all-All _ (same_substation g) across_substations at_bus2sub
                          (transformers g)).1
                        w.within_substation,
                    (
                      (unless_all-All _ (same_voltage g) across_voltages at_voltage (lines g)).1
                          w.voltages,
                      (
                        (plant_gencost-[] g).1 w.costs,
                        (
                          (unless-[] _ _).1 (
                              (==_iff (num_interconnects g)
                                  (components (map (λ l. (l.from_bus_id, l.to_bus_id)) g.branch))).1
                                w.one_component_each),
                          (
                            (unless_all-All _ (λ l. not (l.from_bus_id == l.to_bus_id)) loop_lines
                                  no_loop g.branch).1
                                w.no_loop,
                            (
                              (gencost_messages-[] g.gencost_before).1 w.before,
                              ((gencost_messages-[] (gencost_after g)).1 w.after, tt),
                            ),
                          ),
                        ),
                      ),
                    ),
                  ),
                ),
              ),
            ),
          ))

      to : check_grid components g ≡ ok tt → WellFormed components g
      to h =
          let (a, (b, (c, (d, (e, (f, (p, (q, (l, (x, (y, u))))))))))) =
            (concat-[] (checks components g)).0 (check_grid-ok h) in
          record {
            connected = (islanded-[] g).0 a;
            described = (undescribed-[] g).0 b;
            substations = (same_set_iff _ _).0 ((unless-[] _ _).0 c);
            interconnects =
                (unless_all-All _ (same_interconnect g) across_interconnects at_bus g.branch).0 d;
            within_substation =
                (unless_all-All _ (same_substation g) across_substations at_bus2sub
                    (transformers g)).0
                  e;
            voltages = (unless_all-All _ (same_voltage g) across_voltages at_voltage (lines g)).0 f;
            costs = (plant_gencost-[] g).0 p;
            one_component_each =
                (==_iff (num_interconnects g)
                    (components (map (λ l. (l.from_bus_id, l.to_bus_id)) g.branch))).0
                  ((unless-[] _ _).0 q);
            no_loop =
                (unless_all-All _ (λ l. not (l.from_bus_id == l.to_bus_id)) loop_lines no_loop
                    g.branch).0
                  l;
            before = (gencost_messages-[] g.gencost_before).0 x;
            after = (gencost_messages-[] (gencost_after g)).0 y;
          }
