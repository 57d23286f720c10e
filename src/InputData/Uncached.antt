-- ===== src/InputData/Uncached.antt =====
-- The cache of powersimdata/input/input_base.py compared with a process that has none.
use power_sim_data.Prelude.{
  String, ◌≡◌, refl, sym, subst, Option, some, List, [], ◌∷◌, string_eq, ◌==◌, ==_iff, ==_refl,
  arith, Option-cases, Bool-cases, inl, inr,
}
use power_sim_data.Prelude.Dict.{lookup, insert, lookup-insert}
use power_sim_data.Prelude.Result.{Result, ok, raise, Result-cases}
use power_sim_data.DataAccess.{FileSystem, World, or_else, multi_read, get}
use power_sim_data.DataAccess.Copies.{get_lem}
use power_sim_data.InputData.{Process, data_path, read_file, get_data_internal, get_data}

-- A client asks for data, or somebody else leaves the server in a state.
pub data Event (S : Type 0) : Type 0 where
  load : String → String → Event S
  elsewhere : S → Event S

abbrev pub server_is : {S : Type 0} → S → World S → World S
server_is s w = record w { server = s }

module _ {C D : Type 0} (fs : FileSystem C) (blob : String → Option C)
    (read_data : String → C → Result D) where
  open fs use {State, read}

  -- What is asked for, each from its file.
  unfoldable pub uncached : String → String → World State → Result D × World State
  uncached scenario_id field_name w = elim (data_path scenario_id field_name) [
    | raise x ↦ (raise x, w)
    | ok path ↦ read_file fs blob read_data path w
  ]

  unfoldable pub answers : List (Event State) → Process State D → List (Result D)
  answers [] p = []
  answers (load i field ∷ events) p =
      let (r, p') = get_data fs blob read_data i field p in r ∷ answers events p'
  answers (elsewhere s ∷ events) p = answers events (record p { world = server_is s p.world })

  unfoldable pub uncached_answers : List (Event State) → World State → List (Result D)
  uncached_answers [] w = []
  uncached_answers (load i field ∷ events) w =
      let (r, w') = uncached i field w in r ∷ uncached_answers events w'
  uncached_answers (elsewhere s ∷ events) w = uncached_answers events (server_is s w)

  -- Whatever is in the cache is what the local copy of the file says.
  IsCopied : Process State D → Type 0
  IsCopied p =
      (path : String) (d : D)
      → lookup path p.cache ≡ some d
      → (c : C) × (read p.world.local path ≡ some c) × (read_data path c ≡ ok d)

  -- A file with a local copy is read from it, and nothing changes.
  read_file-local :
      (path : String) (w : World State) (c : C)
      → read w.local path ≡ some c
      → read_file fs blob read_data path w ≡ (read_data path c, w)
  unfolding read_file get
  read_file-local path w c h = ground (arith, h)

  -- A file that was read has a local copy then, and other local files stay.
  read_file-copies :
      (path : String) (w : World State) (d : D)
      → (read_file fs blob read_data path w).0 ≡ ok d
      → (c : C) × (read (read_file fs blob read_data path w).1.local path ≡ some c)
        × (read_data path c ≡ ok d)
  unfolding read_file
  read_file-copies path w d h =
      let (result, _, here) = get_lem fs blob path w path in
      elim (Option-cases (or_else (read w.local path) (multi_read fs blob w.server path))) [
        | inl missing ↦ ground (arith, result)
        | inr (c, there) ↦ (c, ground (arith, here, ==_refl path), ground (arith, result))
      ]

  read_file-keeps :
      (path q : String) (w : World State) (c : C)
      → read w.local q ≡ some c
      → read (read_file fs blob read_data path w).1.local q ≡ some c
  unfolding read_file
  read_file-keeps path q w c h =
      let (_, _, there) = get_lem fs blob path w q in ground (arith, there, h, ==_iff path q)

  -- The answer and the data store are those of reading the file, and the cache goes on as it should.
  Same : String → Process State D → Result D × Process State D → Type 0
  Same path p (r, p') =
      (r ≡ (read_file fs blob read_data path p.world).0)
      × (p'.world ≡ (read_file fs blob read_data path p.world).1)
      × IsCopied p'

  IsCopied-insert :
      (path : String) (p : Process State D) (d : D)
      → IsCopied p
      → (read_file fs blob read_data path p.world).0 ≡ ok d
      → IsCopied (record {
        cache = insert path d p.cache;
        world = (read_file fs blob read_data path p.world).1;
      })
  unfolding IsCopied
  IsCopied-insert path p d copied reads q d' e = elim (Bool-cases (path == q)) [
    | inl same ↦
        let (c, here, says) = read_file-copies path p.world d reads in
        let same_path : path ≡ q = ground (arith, ==_iff path q) in
        let same_data : d ≡ d' = ground (arith, lookup-insert path q d p.cache, e) in
        (c, ground (arith, here, same_path), ground (arith, says, same_path, same_data))
    | inr other ↦
        let old : lookup q p.cache ≡ some d' = ground (arith, lookup-insert path q d p.cache, e) in
        let (c, here, says) = copied q d' old in (c, read_file-keeps path q p.world c here, says)
  ]

  get_data_internal-Same :
      (path : String) (p : Process State D)
      → IsCopied p
      → Same path p (get_data_internal fs blob read_data path p)
  unfolding get_data_internal Same IsCopied
  get_data_internal-Same path p copied = elim (Option-cases (lookup path p.cache)) [
    | inr (d, hit) ↦
        let (c, here, says) = copied path d hit in
        let same = read_file-local path p.world c here in
        let result : get_data_internal fs blob read_data path p ≡ (ok d, p) = ground (arith, hit) in
        subst (Same path p) (sym result) (ground (arith, same, says), ground (arith, same), copied)
    | inl miss ↦ elim (Result-cases (read_file fs blob read_data path p.world).0) [
      | inr (x, fails) ↦
          let w = (read_file fs blob read_data path p.world).1 in
          let result : get_data_internal fs blob read_data path p
              ≡ (raise x, record p { world = w }) =
            ground (arith, miss, fails) in
          subst (Same path p) (sym result) (
            sym fails,
            refl,
            λ q d e.
                let (c, here, says) = copied q d e in
                (c, read_file-keeps path q p.world c here, says),
          )
      | inl (d, reads) ↦
          let w = (read_file fs blob read_data path p.world).1 in
          let result : get_data_internal fs blob read_data path p
              ≡ (ok d, record { cache = insert path d p.cache; world = w }) =
            ground (arith, miss, reads) in
          subst (Same path p) (sym result) (sym reads, refl, IsCopied-insert path p d copied reads)
    ]
  ]

  get_data-uncached :
      (i field : String) (p : Process State D)
      → IsCopied p
      → ((get_data fs blob read_data i field p).0 ≡ (uncached i field p.world).0)
        × ((get_data fs blob read_data i field p).1.world ≡ (uncached i field p.world).1)
        × IsCopied (get_data fs blob read_data i field p).1
  unfolding get_data uncached Same
  get_data-uncached i field p copied = elim (Result-cases (data_path i field)) [
    | inr (x, bad) ↦
        let result : get_data fs blob read_data i field p ≡ (raise x, p) = ground (arith, bad) in
        (
          ground (arith, bad),
          ground (arith, bad),
          subst (λ res. IsCopied res.1) (sym result) copied,
        )
    | inl (path, good) ↦
        let result : get_data fs blob read_data i field p
            ≡ get_data_internal fs blob read_data path p =
          ground (arith, good) in
        let (same, world, copied') = get_data_internal-Same path p copied in
        (
          ground (arith, good, same),
          ground (arith, good, world),
          subst (λ res. IsCopied res.1) (sym result) copied',
        )
  ]

  answers-IsCopied :
      (events : List (Event State)) (p : Process State D)
      → IsCopied p
      → answers events p ≡ uncached_answers events p.world
  unfolding answers uncached_answers IsCopied
  answers-IsCopied [] p copied = refl
  answers-IsCopied (load i field ∷ events) p copied =
      let (same, world, copied') = get_data-uncached i field p copied in
      let rest = answers-IsCopied events (get_data fs blob read_data i field p).1 copied' in
      rw (same, rest, world) refl
  answers-IsCopied (elsewhere s ∷ events) p copied =
      answers-IsCopied events (record p { world = server_is s p.world }) copied

  -- However often and in whatever order a process asks for data, and whatever happens to the server
  -- in between: with a cache that is empty at the start, `get_data` answers what it would answer if
  -- it read the file each time.
  pub answers-uncached :
      (events : List (Event State)) (w : World State)
      → answers events (record { cache = []; world = w }) ≡ uncached_answers events w
  unfolding IsCopied lookup
  answers-uncached events w =
      answers-IsCopied events (record { cache = []; world = w }) (λ path d h. ground arith)
