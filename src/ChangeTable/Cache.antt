-- ===== src/ChangeTable/Cache.antt =====
-- The cache of the bus table answers what a computation would.
use power_sim_data.Prelude.{
  ℕ, ◌≡◌, refl, sym, ap, subst, ◌∙◌, Bool, true, ◌&&◌, some, List, [], ◌∷◌, nat_eq, ==_iff, subset,
  contains, All, arith, Bool-cases, inl, inr,
}
use power_sim_data.Prelude.Result.{Result, ok, raise, ◌>>=◌}
use power_sim_data.Number.{Number}
use power_sim_data.Grid.{Bus, Grid}
use power_sim_data.Grid.Rows.{without}
use power_sim_data.Ct.{NewBus}
use power_sim_data.TransformGrid.Add.{entries}
use power_sim_data.TransformGrid.BusTable.{bus_rows, bus_table, get_grid-bus_table, without-[]}
use power_sim_data.ChangeTable.Frames.{
  Cached, ChangeTable, Frame, same_entries, same_bus, find_cached, branch_frame, dcline_frame,
  storage_frame, bus_frame, get_transformed_df,
}
use power_sim_data.ChangeTable.PlantTable.{get_plant_df}
use power_sim_data.ChangeTable.Keeps.{Keeps}
use power_sim_data.ChangeTable.Calls.{Call, new_table, after}
use power_sim_data.ChangeTable.Steps.Tables.{after-Keeps}
use power_sim_data.ChangeTable.Found.{
  plain, cached, failed, computed, get_transformed_df-Found, get_plant_df-state,
}

contains-subset :
    (xs ys : List ℕ) (i : ℕ) → subset xs ys ≡ true → contains xs i ≡ true → contains ys i ≡ true
contains-subset [] ys i h k = ground arith
contains-subset (x ∷ xs) ys i h k = ground (arith, contains-subset xs ys i, ==_iff x i)

module _ {A : Type 0} (index : A → ℕ) where
  -- Only which ids are removed matters, not their order.
  without-same_ids :
      (a b : List ℕ) (rows : List A)
      → subset a b ≡ true
      → subset b a ≡ true
      → without index a rows ≡ without index b rows
  unfolding without
  without-same_ids a b [] h k = refl
  without-same_ids a b (r ∷ rows) h k = ground (
    arith,
    without-same_ids a b rows h k,
    contains-subset a b (index r) h,
    contains-subset b a (index r) k,
  )

same_entries-exact :
    {E : Type 0} (same : E → E → Bool)
    → ((a b : E) → same a b ≡ true → a ≡ b)
    → (l k : List E) → same_entries same l k ≡ true
    → l ≡ k
unfolding same_entries
same_entries-exact same exact [] [] h = refl
same_entries-exact same exact [] (b ∷ k) h = ground arith
same_entries-exact same exact (a ∷ l) [] h = ground arith
same_entries-exact same exact (a ∷ l) (b ∷ k) h =
    ground (arith, exact a b, same_entries-exact same exact l k)

module _ {V : Type 0} ⦃num : Number V⦄ where
  bus_table-same_ids :
      (new : List (NewBus V)) (a b : List ℕ) (buses : List (Bus V))
      → subset a b ≡ true
      → subset b a ≡ true
      → bus_table new a buses ≡ bus_table new b buses
  unfolding bus_table
  bus_table-same_ids new a b buses h k = go (bus_rows buses new buses)
    where
      go :
          (r : Result (List (Bus V)))
          → (r >>= λ rows. ok (without (λ l. l.bus_id) a rows))
            ≡ (r >>= λ rows. ok (without (λ l. l.bus_id) b rows))
      go (ok rows) = ap ok (without-same_ids (λ l. l.bus_id) a b rows h k)
      go (raise e) = refl

  bus_table-[] : (buses : List (Bus V)) → bus_table [] [] buses ≡ ok buses
  unfolding bus_table bus_rows
  bus_table-[] buses = ap ok (without-[] (λ b. b.bus_id) buses)

  -- Every entry of the cache of buses holds the table that its key determines.
  abbrev pub IsSound : ChangeTable V → Type 0
  IsSound s = All (λ c. bus_table c.added c.removed s.grid.bus ≡ ok c.rows) s.bus_cache

  module _ (exact : (x y : V) → num.equal x y ≡ true → x ≡ y) where
    same_bus-exact : (a b : NewBus V) → same_bus a b ≡ true → a ≡ b
    unfolding same_bus
    same_bus-exact a b h = ground (
      arith,
      exact a.lat b.lat,
      exact a.lon b.lon,
      exact a.pd b.pd,
      exact a.base_kv b.base_kv,
      ==_iff a.zone_id b.zone_id,
    )

    find_cached-bus_table :
        (added : List (NewBus V)) (removed : List ℕ) (buses rows : List (Bus V))
        (cache : List (Cached (NewBus V) (Bus V)))
        → All (λ c. bus_table c.added c.removed buses ≡ ok c.rows) cache
        → find_cached same_bus added removed cache ≡ some rows
        → bus_table added removed buses ≡ ok rows
    unfolding find_cached
    find_cached-bus_table added removed buses rows [] h k = ground arith
    find_cached-bus_table added removed buses rows (c ∷ cache) h k =
        elim (Bool-cases (same_entries same_bus c.added added)) [
          | inr j ↦ find_cached-bus_table added removed buses rows cache h.1 (ground (arith, j))
          | inl j ↦ elim (Bool-cases (subset c.removed removed && subset removed c.removed)) [
            | inr i ↦
                find_cached-bus_table added removed buses rows cache h.1 (ground (arith, j, i))
            | inl i ↦
                hit (same_entries-exact same_bus same_bus-exact c.added added j) i
                  (ground (arith, j, i))
          ]
        ]
      where
        hit :
            c.added ≡ added
            → (subset c.removed removed && subset removed c.removed) ≡ true
            → c.rows ≡ rows
            → bus_table added removed buses ≡ ok rows
        hit same ids this =
            ap (λ a. bus_table a removed buses) (sym same)
            ∙ bus_table-same_ids c.added removed c.removed buses (ground (arith, ids))
                (ground (arith, ids))
            ∙ h.0
            ∙ ap ok this

    module _ (reactance : Grid V → Bus V → Bus V → Result V) where
      -- In whatever way the table of buses is found, it is the one that the key determines.
      get_transformed_df-bus_table :
          (s : ChangeTable V)
          → IsSound s
          → (rows : List (Bus V)) → (get_transformed_df reactance bus_frame s).0 ≡ ok rows
          → bus_table (entries s.ct.new_bus) (entries s.ct.remove_bus) s.grid.bus ≡ ok rows
      unfolding bus_frame
      get_transformed_df-bus_table s sound rows h =
          elim (get_transformed_df-Found reactance bus_frame s) [
            | plain a b e ↦
                ap (λ n. bus_table (entries n) (entries s.ct.remove_bus) s.grid.bus) a
                ∙ ap (λ n. bus_table [] (entries n) s.grid.bus) b
                ∙ bus_table-[] s.grid.bus
                ∙ sym (ap (λ r. r.0) e)
                ∙ h
            | cached old f e ↦
                find_cached-bus_table _ _ s.grid.bus old s.bus_cache sound f
                ∙ sym (ap (λ r. r.0) e)
                ∙ h
            | failed r f e ↦ ground (arith, sym (ap (λ r. r.0) e) ∙ h)
            | computed g f e ↦
                get_grid-bus_table reactance s.ct s.grid g f ∙ sym (ap (λ r. r.0) e) ∙ h
          ]

      -- The grid stays the same, and the cache of buses sound.
      abbrev SoundOn : Grid V → ChangeTable V → Type 0
      SoundOn g s = IsSound s × (s.grid ≡ g)

      bus-Keeps : (g : Grid V) → Keeps (SoundOn g) (get_transformed_df reactance bus_frame)
      unfolding bus_frame
      bus-Keeps g = record {
        keep = λ s h. elim (get_transformed_df-Found reactance bus_frame s) [
          | plain a b e ↦ subst (λ r. SoundOn g r.1) (sym e) h
          | cached old f e ↦ subst (λ r. SoundOn g r.1) (sym e) h
          | failed r f e ↦ subst (λ r. SoundOn g r.1) (sym e) h
          | computed u f e ↦
              subst (λ r. SoundOn g r.1) (sym e)
                ((get_grid-bus_table reactance s.ct s.grid u f, h.0), h.1)
        ];
      }

      module _ {E R : Type 0} (f : Frame V E R)
          (apart : (g : Grid V) (c : List (Cached E R)) (s : ChangeTable V)
            → SoundOn g s
            → SoundOn g (f.keep c s)) where
        other-Keeps : (g : Grid V) → Keeps (SoundOn g) (get_transformed_df reactance f)
        other-Keeps g = record {
          keep = λ s h. elim (get_transformed_df-Found reactance f s) [
            | plain a b e ↦ subst (λ r. SoundOn g r.1) (sym e) h
            | cached old k e ↦ subst (λ r. SoundOn g r.1) (sym e) h
            | failed r k e ↦ subst (λ r. SoundOn g r.1) (sym e) h
            | computed u k e ↦ subst (λ r. SoundOn g r.1) (sym e) (apart g _ s h)
          ];
        }

      plant-Keeps : (g : Grid V) → Keeps (SoundOn g) (get_plant_df reactance)
      plant-Keeps g = record {
        keep = λ s h. subst (SoundOn g) (sym (get_plant_df-state reactance s).1) h;
      }

      after-SoundOn :
          (angle : V × V → V × V → V) (calls : List (Call V)) (g : Grid V)
          → SoundOn g (after reactance angle calls (new_table g))
      unfolding branch_frame dcline_frame storage_frame
      after-SoundOn angle calls g =
          after-Keeps (SoundOn g) (λ ct s h. h) reactance
            (other-Keeps branch_frame (λ g c s h. h) g) (other-Keeps dcline_frame (λ g c s h. h) g)
            (bus-Keeps g) (other-Keeps storage_frame (λ g c s h. h) g) (plant-Keeps g) angle calls
            (new_table g) (tt, refl)

      -- If equality of numbers is exact, then whatever methods a client calls on a fresh change table, in
      -- whatever order and with whatever outcome: the bus table that `_get_transformed_df` returns after
      -- them, from a cache or not, is the one that the grid's buses and the present "new_bus" and
      -- "remove_bus" determine.
      pub after-bus_table :
          (angle : V × V → V × V → V) (calls : List (Call V)) (g : Grid V) (rows : List (Bus V))
          → (get_transformed_df reactance bus_frame (after reactance angle calls (new_table g))).0
            ≡ ok rows
          → bus_table
              (entries (after reactance angle calls (new_table g)).ct.new_bus)
              (entries (after reactance angle calls (new_table g)).ct.remove_bus)
              g.bus
            ≡ ok rows
      after-bus_table angle calls g rows h =
          let s = after reactance angle calls (new_table g) in
          let (sound, same) = after-SoundOn angle calls g in
          ap (λ k. bus_table (entries s.ct.new_bus) (entries s.ct.remove_bus) k.bus) (sym same)
          ∙ get_transformed_df-bus_table s sound rows h
