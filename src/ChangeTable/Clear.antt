-- ===== src/ChangeTable/Clear.antt =====
-- `clear` of powersimdata/input/change_table.py.
use power_sim_data.Prelude.{
  String, Option, none, some, List, [], ◌∷◌, string_eq, contains, subset, if◌then◌else◌,
}
use power_sim_data.Prelude.Dict.{Dict, remove}
use power_sim_data.Prelude.Result.{Result, ok, raise, value_error, key_error}
use power_sim_data.Ct.{capacity, cost, pmin, PlantKey, key_eq, Scaling, Ct, empty_ct}
use power_sim_data.TransformGrid.Scale.{key}
use power_sim_data.ChangeTable.Frames.{Method, ◌>>=◌, return, modify}
use power_sim_data.ChangeTable.PlantTable.{is_some}

-- The keys that are deleted whether or not they are there.
pub data SingleKey : Type 0 where
  demand_key storage_key flexibility_key : SingleKey

abbrev pub name_of : SingleKey → String
name_of demand_key = "demand"
name_of storage_key = "storage"
name_of flexibility_key = "demand_flexibility"

abbrev pub clearable : List String
clearable = "branch" ∷ "bus" ∷ "dcline" ∷ "demand" ∷ "plant" ∷ "storage" ∷ "demand_flexibility" ∷ []

module _ {V : Type 0} where
  -- `del self.ct[key]`
  unfoldable pub delete_key : SingleKey → Ct V → Result (Ct V)
  delete_key demand_key ct =
      if is_some ct.demand then ok (record ct { demand = none }) else raise key_error
  delete_key storage_key ct =
      if is_some ct.storage then ok (record ct { storage = none }) else raise key_error
  delete_key flexibility_key ct =
      if is_some ct.demand_flexibility
      then ok (record ct { demand_flexibility = none })
      else raise key_error

  -- The loop over a set of keys, whose order Python leaves open.
  unfoldable pub delete_keys : List SingleKey → List String → Method V Unit
  unfolding delete_key
  delete_keys [] which s = return tt s
  delete_keys (k ∷ order) which s =
      if contains which (name_of k)
      then (elim (delete_key k s.ct) [
        | raise e ↦ (raise e, s)
        | ok ct ↦ delete_keys order which (record s { ct = ct })
      ])
      else delete_keys order which s

  unfoldable pub clear_lines : List String → Ct V → Ct V
  clear_lines which ct =
      let c =
        (if contains which "branch"
          then record ct { branch = none; new_branch = none; remove_branch = none }
          else ct) in
      if contains which "dcline"
      then record c { dcline = none; new_dcline = none; remove_dcline = none }
      else c

  unfoldable pub clear_bus : List String → Ct V → Ct V
  clear_bus which ct =
      if contains which "bus" then record ct { new_bus = none; remove_bus = none } else ct

  -- The keys of each resource.
  unfoldable pub clear_resources :
      List String → Dict PlantKey (Scaling V) → Dict PlantKey (Scaling V)
  unfolding remove
  clear_resources [] d = d
  clear_resources (t ∷ types) d =
      clear_resources types (remove (key t pmin) (remove (key t cost) (remove (key t capacity) d)))

  unfoldable pub clear_plant : List String → List String → Ct V → Ct V
  unfolding clear_resources
  clear_plant resources which ct =
      if contains which "plant"
      then record ct {
        new_plant = none;
        remove_plant = none;
        plant = clear_resources resources ct.plant;
      }
      else ct

  -- `clear`, with the order of the first loop.
  unfoldable pub clear : List SingleKey → Option (List String) → Method V Unit
  unfolding delete_keys clear_lines clear_bus clear_plant
  clear order none s = modify (λ ct. empty_ct) s
  clear order (some which) s =
      if subset which clearable
      then (delete_keys order which >>= λ _. modify (λ ct.
            clear_plant s.grid.immutables.all_resources which
              (clear_bus which (clear_lines which ct))))
          s
      else (raise value_error, s)
