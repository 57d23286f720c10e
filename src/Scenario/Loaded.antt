-- ===== src/Scenario/Loaded.antt =====
-- What the loading at the end of `create_scenario` in powersimdata/scenario/create.py leaves alone.
use power_sim_data.Prelude.{
  ℕ, String, ◌≡◌, refl, sym, subst, Option, string_eq, inl, inr, arith, Option-cases, Bool-cases,
  ◌==◌,
}
use power_sim_data.Prelude.Dict.{lookup}
use power_sim_data.Prelude.Result.{Result, raise, key_error, Result-cases}
use power_sim_data.Number.{Number}
use power_sim_data.Grid.{Bus, Grid}
use power_sim_data.Ct.{Ct}
use power_sim_data.DataAccess.{FileSystem}
use power_sim_data.DataAccess.Copies.{get_lem}
use power_sim_data.InputData.{Process, data_path, read_file, get_data_internal, get_data}
use power_sim_data.Scenario.Creation.{Session, decimal}
use power_sim_data.Scenario.Loading.{
  field, load_base_grid, with_ct, load_ct, ct_of_info, set_ct_and_grid,
}

module _ {C D : Type 0} (fs : FileSystem C) (blob : String → Option C)
    (read_data : String → C → Result D) where
  open fs use {State}

  -- Reading data changes nothing on the server.
  pub server-get_data :
      (i field_name : String) (p : Process State D)
      → (get_data fs blob read_data i field_name p).1.world.server ≡ p.world.server
  unfolding get_data get_data_internal read_file
  server-get_data i field_name p = elim (Result-cases (data_path i field_name)) [
    | inr (x, bad) ↦ ground arith
    | inl (path, good) ↦
        let (_, same, _) = get_lem fs blob path p.world path in
        elim (Option-cases (lookup path p.cache)) [
          | inr (d, hit) ↦ ground arith
          | inl miss ↦ ground (arith, same)
        ]
  ]

module _ {V S : Type 0} where
  -- The loading changes the grid and the change table of the object, the local disk and the memory.
  pub record Loads (s s' : Session V S) : Type 0 where
    pub info : s'.info ≡ s.info
    pub scenario : s'.scenario ≡ s.scenario
    pub server : s'.world.server ≡ s.world.server

  pub Loads-refl : (s : Session V S) → Loads s s
  Loads-refl s = record { info = refl; scenario = refl; server = refl }

module _ {V C : Type 0} ⦃num : Number V⦄ (reactance : Grid V → Bus V → Bus V → Result V)
    (fs : FileSystem C) (blob : String → Option C)
    (load : String → String → Option String → Result (Grid V × Option String))
    (unpickle : C → Result (Ct V)) where
  open fs use {State}

  load_ct-Loads :
      (base : Grid V) (i : ℕ) (s : Session V State)
      → Loads s (load_ct reactance fs blob load unpickle base i s).1
  unfolding load_ct with_ct
  load_ct-Loads base i s =
      let same =
        server-get_data fs blob (λ path. unpickle) (decimal i) "ct"
          (record { cache = s.memory; world = s.world }) in
      record { info = ground arith; scenario = ground arith; server = ground (arith, same) }

  ct_of_info-Loads :
      (base : Grid V) (s : Session V State)
      → Loads s (ct_of_info reactance fs blob load unpickle base s).1
  unfolding ct_of_info
  ct_of_info-Loads base s = elim (Result-cases (field "change_table" s.info.fields)) [
    | inr (x, missing) ↦ rw (missing, ct_of_info) (Loads-refl s)
    | inl (answer, there) ↦ elim (Bool-cases (answer == "Yes")) [
      | inr unchanged ↦
          rw (there, unchanged, ct_of_info) (record { info = refl; scenario = refl; server = refl })
      | inl with_changes ↦ elim (Option-cases s.info.id) [
        | inl no_id ↦
            let stops : ct_of_info reactance fs blob load unpickle base s ≡ (raise key_error, s) =
              ground (arith, there, with_changes, no_id) in
            subst (λ r. Loads s r.1) (sym stops) (Loads-refl s)
        | inr (i, named) ↦
            let goes : ct_of_info reactance fs blob load unpickle base s
                ≡ load_ct reactance fs blob load unpickle base i s =
              ground (arith, there, with_changes, named) in
            subst (λ r. Loads s r.1) (sym goes) (load_ct-Loads base i s)
      ]
    ]
  ]

  pub set_ct_and_grid-Loads :
      (s : Session V State) → Loads s (set_ct_and_grid reactance fs blob load unpickle s).1
  unfolding set_ct_and_grid
  set_ct_and_grid-Loads s =
      elim (Result-cases (load_base_grid reactance fs blob load unpickle s.info.fields)) [
        | inr (x, raised) ↦ rw (raised, set_ct_and_grid) (Loads-refl s)
        | inl (base, there) ↦ rw (there, set_ct_and_grid) (ct_of_info-Loads base s)
      ]
