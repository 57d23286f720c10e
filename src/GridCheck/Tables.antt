-- ===== src/GridCheck/Tables.antt =====
-- The checks of powersimdata/input/check.py that read the tables of a grid. Each returns what it appends
-- to the error messages.
use power_sim_data.Prelude.{
  ℕ, ◌+◌, Bool, true, false, not, ◌&&◌, ◌||◌, none, some, List, [], ◌∷◌, ◌++◌, map, nat_eq,
  string_eq, ◌==◌, length, all, select, subset, contains, ltb, if◌then◌else◌,
}
use power_sim_data.Prelude.Dict.{lookup}
use power_sim_data.Prelude.Result.{Error, ok, raise}
use power_sim_data.Number.{Number}
use power_sim_data.Grid.{Gencost, Branch, Grid}
use power_sim_data.Grid.Rows.{ids, row_at}
use power_sim_data.GridCheck.Cost.{type_column, n_column, c, other, CostFrame, check_gencost}

-- An error message with what it reports: the ids of buses or branches, or the counts.
pub data Message : Type 0 where
  islanded_buses undescribed_buses : List ℕ → Message
  bus2sub_mismatch gencost_mismatch : Message
  across_interconnects across_substations across_voltages loop_lines : List ℕ → Message
  contains_components : ℕ → ℕ → Message
  gencost_error : Error → Message

-- `if not …: error_messages.append(…)`
abbrev pub unless : Bool → Message → List Message
unless true m = []
unless false m = m ∷ []

-- Equality of two sets.
abbrev pub same_set : List ℕ → List ℕ → Bool
same_set a b = subset a b && subset b a

abbrev pub minus : List ℕ → List ℕ → List ℕ
minus a b = select (λ i. not (contains b i)) a

-- An entry of `from_bus_id.map(…)` against one of `to_bus_id.map(…)`: an id that the table lacks is mapped
-- to NaN, which equals nothing. The ids of a table are without repetition; with one, `map` would raise.
unfoldable pub same_at : {A B : Type 0} → (A → ℕ) → (A → B) → (B → B → Bool) → List A → ℕ → ℕ → Bool
unfolding row_at
same_at index value same rows i j = elim (row_at index i rows) [
  | raise e ↦ false
  | ok a ↦ elim (row_at index j rows) [ raise e ↦ false | ok b ↦ same (value a) (value b) ]
]

module _ {V : Type 0} where
  -- The buses at either end of a branch or a DC line.
  unfoldable pub line_ends : Grid V → List ℕ
  line_ends g =
      map (λ l. l.from_bus_id) g.branch
      ++ map (λ l. l.to_bus_id) g.branch
      ++ map (λ l. l.from_bus_id) g.dcline
      ++ map (λ l. l.to_bus_id) g.dcline

  unfoldable pub islanded : Grid V → List Message
  unfolding line_ends
  islanded g =
      if ltb 0 (length g.branch + length g.dcline)
      then (elim (minus (ids (λ b. b.bus_id) g.bus) (line_ends g)) [
        | [] ↦ []
        | i ∷ l ↦ islanded_buses (i ∷ l) ∷ []
      ])
      else []

  unfoldable pub undescribed : Grid V → List Message
  unfolding line_ends
  undescribed g = elim (minus (line_ends g) (ids (λ b. b.bus_id) g.bus)) [
    | [] ↦ []
    | i ∷ l ↦ undescribed_buses (i ∷ l) ∷ []
  ]

  unfoldable pub bus2sub_messages : Grid V → List Message
  bus2sub_messages g =
      unless (same_set (ids (λ b. b.bus_id) g.bus) (ids (λ b. b.bus_id) g.bus2sub)) bus2sub_mismatch

  -- The rows that fail a test, in a message if there are any.
  abbrev pub unless_all : (Branch V → Bool) → (List ℕ → Message) → List (Branch V) → List Message
  unless_all same message lines =
      unless (all same lines) (message (ids (λ l. l.branch_id) (select (λ l. not (same l)) lines)))

  abbrev pub same_interconnect : Grid V → Branch V → Bool
  same_interconnect g l =
      same_at (λ b. b.bus_id) (λ b. b.interconnect) (λ s t. s == t) g.bus l.from_bus_id l.to_bus_id

  unfoldable pub ac_interconnects : Grid V → List Message
  unfolding same_at
  ac_interconnects g = unless_all (same_interconnect g) across_interconnects g.branch

  abbrev pub transformers : Grid V → List (Branch V)
  transformers g =
      select
        (λ l. l.branch_device_type == "Transformer" || l.branch_device_type == "TransformerWinding")
        g.branch

  abbrev pub same_substation : Grid V → Branch V → Bool
  same_substation g l =
      same_at (λ b. b.bus_id) (λ b. b.sub_id) (λ s t. s == t) g.bus2sub l.from_bus_id l.to_bus_id

  unfoldable pub transformer_substations : Grid V → List Message
  unfolding same_at
  transformer_substations g = unless_all (same_substation g) across_substations (transformers g)

  abbrev pub gencost_after : Grid V → List (Gencost V)
  gencost_after g = elim g.gencost_after [ none ↦ g.gencost_before | some rows ↦ rows ]

  unfoldable pub plant_gencost : Grid V → List Message
  plant_gencost g =
      let before = ids (λ r. r.plant_id) g.gencost_before in
      unless
        (same_set (ids (λ r. r.plant_id) g.plant) before
          && same_set before (ids (λ r. r.plant_id) (gencost_after g)))
        gencost_mismatch

  -- What an alias stands for, such as "USA", is counted.
  unfoldable pub num_interconnects : Grid V → ℕ
  unfolding lookup
  num_interconnects g = elim g.interconnect [
    | [] ↦ 0
    | s ∷ l ↦ elim l [
      | [] ↦ elim (lookup s g.immutables.name2interconnect) [ none ↦ 1 | some names ↦ length names ]
      | t ∷ k ↦ length (s ∷ t ∷ k)
    ]
  ]

  -- `components` is the number of connected components of the graph with the given edges.
  unfoldable pub connected_components : (List (ℕ × ℕ) → ℕ) → Grid V → List Message
  unfolding num_interconnects
  connected_components components g =
      let count = components (map (λ l. (l.from_bus_id, l.to_bus_id)) g.branch) in
      unless (num_interconnects g == count) (contains_components count (num_interconnects g))

  unfoldable pub loop_branches : Grid V → List Message
  loop_branches g = unless_all (λ l. not (l.from_bus_id == l.to_bus_id)) loop_lines g.branch

  -- The columns of a table of cost curves are always there, and the coefficients go up to "c2".
  abbrev pub cost_frame : List (Gencost V) → CostFrame
  cost_frame rows = record {
    columns = type_column ∷ n_column ∷ c 2 ∷ c 1 ∷ c 0 ∷ other "interconnect" ∷ [];
    types = map (λ r. r.type) rows;
    orders = map (λ r. r.n) rows;
  }

  unfoldable pub gencost_messages : List (Gencost V) → List Message
  unfolding check_gencost
  gencost_messages rows = elim (check_gencost (cost_frame rows)) [
    | ok u ↦ []
    | raise e ↦ gencost_error e ∷ []
  ]

  module _ ⦃num : Number V⦄ where
    abbrev pub same_voltage : Grid V → Branch V → Bool
    same_voltage g l =
        same_at (λ b. b.bus_id) (λ b. b.base_kv) num.equal g.bus l.from_bus_id l.to_bus_id

    abbrev pub lines : Grid V → List (Branch V)
    lines g = select (λ l. l.branch_device_type == "Line") g.branch

    unfoldable pub line_voltages : Grid V → List Message
    unfolding same_at
    line_voltages g = unless_all (same_voltage g) across_voltages (lines g)
