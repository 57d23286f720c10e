-- ===== src/ChangeTable/Valid.antt =====
-- What the change table holds after an accepted change.
use power_sim_data.Prelude.{◌≡◌, inl, inr, List, nat_eq, string_eq, length, All, arith}
use power_sim_data.Prelude.Result.{Result, ok, Result-cases}
use power_sim_data.Number.{Number}
use power_sim_data.Grid.{Bus, Grid}
use power_sim_data.Ct.{Ct}
use power_sim_data.ChangeTable.Entries.{Entry, LineKind, check_line, check_bus, check_all}
use power_sim_data.ChangeTable.Frames.{◌>>=◌, ChangeTable, bus_frame, get_transformed_df}
use power_sim_data.ChangeTable.Lines.{append_lines, append_buses, add_bus, add_line}
use power_sim_data.ChangeTable.Checked.{
  check_all-All, ValidBus, check_bus-ValidBus, ValidLine, check_line-ValidLine,
}

module _ {V : Type 0} ⦃num : Number V⦄ where
  -- What a successful call adds: one checked entry for each given one.
  pub record Added {E R : Type 0} (P : R → Type 0) (info : List E) (put : List R → Ct V → Ct V)
      (s s' : ChangeTable V) : Type 0 where
    pub added : List R
    pub one_each : length added ≡ length info
    pub valid : All P added
    pub stored : s'.ct ≡ put added s.ct

  -- If `add_bus` succeeds, it has put one bus for each given entry behind the new buses that the change
  -- table had, all of them valid in the grid: with no latitude and no longitude out of range, a zone of the
  -- grid and a base voltage that is not at or below 0.
  pub add_bus-ok :
      (info : List (Entry V)) (s s' : ChangeTable V)
      → add_bus info s ≡ (ok tt, s')
      → Added (ValidBus s.grid) info append_buses s s'
  unfolding add_bus ◌>>=◌
  add_bus-ok info s s' h = elim (Result-cases (check_all (check_bus s.grid) info)) [
    | inl (buses, k) ↦
        let (valid, one_each) =
          check_all-All (ValidBus s.grid) (check_bus s.grid) (check_bus-ValidBus s.grid) info buses
            k in
        record { added = buses; one_each = one_each; valid = valid; stored = ground (arith, k) }
    | inr (e, k) ↦ ground (arith, k)
  ]

  module _ (reactance : Grid V → Bus V → Bus V → Result V) where
    -- If `add_branch` or `add_dcline` succeeds, it has put one line for each given entry behind those that
    -- the change table had. Each joins two distinct buses of the transformed bus table; its limits are
    -- opposite, and the upper one is not negative, or it is a DC line and the lower limit is not above
    -- the upper one.
    pub add_line-ok :
        (kind : LineKind) (info : List (Entry V)) (s t s' : ChangeTable V) (buses : List (Bus V))
        → get_transformed_df reactance bus_frame s ≡ (ok buses, t)
        → add_line reactance kind info s ≡ (ok tt, s')
        → Added (ValidLine kind buses) info (append_lines kind) t s'
    unfolding add_line ◌>>=◌
    add_line-ok kind info s t s' buses found h =
        elim (Result-cases (check_all (check_line kind buses) info)) [
          | inl (lines, k) ↦
              let (valid, one_each) =
                check_all-All (ValidLine kind buses) (check_line kind buses)
                  (check_line-ValidLine kind buses) info lines k in
              record {
                added = lines;
                one_each = one_each;
                valid = valid;
                stored = ground (arith, k, found);
              }
          | inr (e, k) ↦ ground (arith, k, found)
        ]
