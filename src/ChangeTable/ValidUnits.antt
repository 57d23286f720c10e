-- ===== src/ChangeTable/ValidUnits.antt =====
-- What the change table holds after plants or storage units are added, and after buses are removed.
use power_sim_data.Prelude.{◌≡◌, inl, inr, List, nat_eq, string_eq, arith}
use power_sim_data.Prelude.Result.{Result, ok, Result-cases}
use power_sim_data.Number.{Number}
use power_sim_data.Grid.{Bus, Grid}
use power_sim_data.ChangeTable.Entries.{Entry, check_all}
use power_sim_data.ChangeTable.Frames.{◌>>=◌, ChangeTable, bus_frame, get_transformed_df}
use power_sim_data.ChangeTable.Checks.{check_plant, check_storage}
use power_sim_data.ChangeTable.Checked.{check_all-All}
use power_sim_data.ChangeTable.Units.{
  ValidPlant, check_plant-ValidPlant, ValidStorage, check_storage-ValidStorage,
}
use power_sim_data.ChangeTable.Valid.{Added}
use power_sim_data.ChangeTable.Plants.{append_plants, add_plant}
use power_sim_data.ChangeTable.Storages.{append_storages, add_storage_capacity}

module _ {V : Type 0} ⦃num : Number V⦄ (reactance : Grid V → Bus V → Bus V → Result V) where
  module _ (s t s' : ChangeTable V) (buses : List (Bus V)) where
    -- If `add_plant` succeeds, it has put one plant for each given entry behind the new plants that the
    -- change table had, each of a known resource at a bus of the transformed bus table, with Pmin between
    -- 0 and Pmax, with a neighbor exactly if its resource has profiles, and with all three cost
    -- coefficients if it has none.
    pub add_plant-ok :
        (angle : V × V → V × V → V) (info : List (Entry V))
        → get_transformed_df reactance bus_frame s ≡ (ok buses, t)
        → add_plant reactance angle info s ≡ (ok tt, s')
        → Added (ValidPlant t.grid buses) info append_plants t s'
    unfolding add_plant ◌>>=◌
    add_plant-ok angle info found h =
        elim (Result-cases (check_all (check_plant angle t.grid buses) info)) [
          | inl (l, k) ↦
              let (valid, one_each) =
                check_all-All (ValidPlant t.grid buses) (check_plant angle t.grid buses)
                  (check_plant-ValidPlant angle t.grid buses) info l k in
              record {
                added = l;
                one_each = one_each;
                valid = valid;
                stored = ground (arith, k, found);
              }
          | inr (e, k) ↦ ground (arith, k, found)
        ]

    -- If `add_storage_capacity` succeeds, it has put one storage unit for each given entry behind those
    -- that the change table had, each at a bus of the transformed bus table, with no negative quantity
    -- and no storage level, efficiency or loss factor above 1.
    pub add_storage_capacity-ok :
        (info : List (Entry V))
        → get_transformed_df reactance bus_frame s ≡ (ok buses, t)
        → add_storage_capacity reactance info s ≡ (ok tt, s')
        → Added (ValidStorage buses) info append_storages t s'
    unfolding add_storage_capacity ◌>>=◌
    add_storage_capacity-ok info found h =
        elim (Result-cases (check_all (check_storage t.grid buses) info)) [
          | inl (l, k) ↦
              let (valid, one_each) =
                check_all-All (ValidStorage buses) (check_storage t.grid buses)
                  (check_storage-ValidStorage t.grid buses) info l k in
              record {
                added = l;
                one_each = one_each;
                valid = valid;
                stored = ground (arith, k, found);
              }
          | inr (e, k) ↦ ground (arith, k, found)
        ]
