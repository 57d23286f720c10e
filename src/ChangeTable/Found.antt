-- ===== src/ChangeTable/Found.antt =====
-- The four ways in which `_get_transformed_df` of powersimdata/input/change_table.py ends.
use power_sim_data.Prelude.{
  ◌≡◌, none, some, List, ◌∷◌, ◌&&◌, ◌||◌, arith, Option-cases, Bool-cases, inl, inr,
}
use power_sim_data.Prelude.Result.{Result, ok, raise, Error, Result-cases}
use power_sim_data.Number.{Number}
use power_sim_data.Grid.{Bus, Grid}
use power_sim_data.TransformGrid.Add.{entries}
use power_sim_data.TransformGrid.Apply.{get_grid}
use power_sim_data.ChangeTable.Frames.{
  absent, Cached, CachedPlants, ChangeTable, Frame, find_cached, get_transformed_df,
}
use power_sim_data.ChangeTable.PlantTable.{
  is_some, types_of, plant_factors, any_factor, find_plants, get_plant_df,
}

module _ {V : Type 0} ⦃num : Number V⦄ (reactance : Grid V → Bus V → Bus V → Result V) where
  module _ {E R : Type 0} (f : Frame V E R) (s : ChangeTable V) where
    abbrev key : List R → Cached E R
    key rows = record {
      added = entries (f.news s.ct);
      removed = entries (f.removals s.ct);
      rows = rows;
    }

    -- The grid's own table, an entry of the cache, an error of the transformation, or a table that is
    -- computed and kept.
    pub data Found : Type 0 where
      plain :
          f.news s.ct ≡ none
          → f.removals s.ct ≡ none
          → get_transformed_df reactance f s ≡ (ok (f.rows s.grid), s)
          → Found
      cached :
          (rows : List R)
          → find_cached f.same (entries (f.news s.ct)) (entries (f.removals s.ct)) (f.cache s)
            ≡ some rows
          → get_transformed_df reactance f s ≡ (ok rows, s)
          → Found
      failed :
          (e : Error)
          → get_grid reactance s.ct s.grid ≡ raise e
          → get_transformed_df reactance f s ≡ (raise e, s)
          → Found
      computed :
          (g : Grid V)
          → get_grid reactance s.ct s.grid ≡ ok g
          → get_transformed_df reactance f s
            ≡ (ok (f.rows g), f.keep (key (f.rows g) ∷ f.cache s) s)
          → Found

    pub get_transformed_df-Found : Found
    unfolding get_transformed_df
    get_transformed_df-Found =
        elim (Bool-cases (absent (f.news s.ct) && absent (f.removals s.ct))) [
          | inl a ↦ plain (ground (arith, a)) (ground (arith, a)) (ground (arith, a))
          | inr a ↦
              elim (Option-cases (
                find_cached f.same (entries (f.news s.ct)) (entries (f.removals s.ct))
                  (f.cache s))) [
                    | inr (rows, k) ↦ cached rows k (ground (arith, a, k))
                    | inl k ↦ elim (Result-cases (get_grid reactance s.ct s.grid)) [
                      | inl (g, h) ↦ computed g h (ground (arith, a, k, h))
                      | inr (e, h) ↦ failed e h (ground (arith, a, k, h))
                    ]
                  ]
        ]

  -- Looking up the table of plants changes its own cache at most.
  pub get_plant_df-state :
      (s : ChangeTable V)
      → (c : List (CachedPlants V)) × ((get_plant_df reactance s).1 ≡ record s { plant_cache = c })
  unfolding get_plant_df
  get_plant_df-state s = elim (Option-cases s.ct.remove_plant) [
    | inr (l, a) ↦ (s.plant_cache, ground (arith, a))
    | inl a ↦ elim (Bool-cases (is_some s.ct.new_plant || any_factor (types_of s.grid) s.ct)) [
      | inr b ↦ (s.plant_cache, ground (arith, a, b))
      | inl b ↦
          elim (Option-cases (
            find_plants (entries s.ct.new_plant) (plant_factors (types_of s.grid) s.ct)
              s.plant_cache)) [
                | inr (rows, k) ↦ (s.plant_cache, ground (arith, a, b, k))
                | inl k ↦ elim (Result-cases (get_grid reactance s.ct s.grid)) [
                  | inl (g, h) ↦
                      ((get_plant_df reactance s).1.plant_cache, ground (arith, a, b, k, h))
                  | inr (e, h) ↦ (s.plant_cache, ground (arith, a, b, k, h))
                ]
              ]
    ]
  ]
