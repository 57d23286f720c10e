-- ===== src/CsvStore/Laws.antt =====
-- Tables have one row for each id, and a commit happens in full or not at all.
use Prim.Native.String.{◌++◌ as append}
use power_sim_data.Prelude.{
  ℕ, String, ◌≡◌, refl, ◌∙◌, Option, none, some, List, [], ◌∷◌, ◌++◌, Eq, nat_eq, string_eq, ==_iff,
  ==_refl, contains, if◌then◌else◌, arith, Bool-cases, inl, inr,
}
use power_sim_data.Prelude.Dict.{lookup}
use power_sim_data.Prelude.Result.{Result, Error, ok, raise, Result-cases}
use power_sim_data.DataAccess.{
  FileSystem, World, or_else, multi_read, checksum, copy_from, get, push,
}
use power_sim_data.DataAccess.Push.{push-Replaced, push-raise, temp-ne}
use power_sim_data.DataAccess.Copies.{get_lem}
use power_sim_data.CsvStore.{Table, first_rows, read_table, get_table, verify_hash}

-- No id has two rows.
abbrev pub IsIndexed : {R : Type 0} → Table R → Type 0
IsIndexed [] = Unit
IsIndexed ((i, r) ∷ t) = (lookup i t ≡ none) × IsIndexed t

module _ {R : Type 0} where
  pub lookup-first_rows :
      (seen : List ℕ) (t : Table R) (j : ℕ)
      → lookup j (first_rows seen t) ≡ (if contains seen j then none else lookup j t)
  unfolding first_rows lookup
  lookup-first_rows seen [] j = ground arith
  lookup-first_rows seen ((i, r) ∷ t) j =
      ground (arith, lookup-first_rows seen t j, lookup-first_rows (i ∷ seen) t j, ==_iff i j)

  pub first_rows-IsIndexed : (seen : List ℕ) (t : Table R) → IsIndexed (first_rows seen t)
  unfolding first_rows
  first_rows-IsIndexed seen [] = tt
  first_rows-IsIndexed seen ((i, r) ∷ t) = elim (Bool-cases (contains seen i)) [
    | inl old ↦ rw old (first_rows-IsIndexed seen t)
    | inr new ↦ rw new (
      ground (arith, lookup-first_rows (i ∷ seen) t i, ==_refl i),
      first_rows-IsIndexed (i ∷ seen) t,
    )
  ]

  pub lookup-append :
      (s t : Table R) (j : ℕ) → lookup j (s ++ t) ≡ or_else (lookup j s) (lookup j t)
  unfolding lookup
  lookup-append [] t j = refl
  lookup-append ((i, r) ∷ s) t j = ground (arith, lookup-append s t j)

module _ {C R : Type 0} (fs : FileSystem C) (blob : String → Option C)
    (parse : C → Option (Table R)) where
  open fs use {State, read}

  pub server-copy_from :
      (path : String) (w : World State) → (copy_from fs blob path w).1.server ≡ w.server
  unfolding copy_from
  server-copy_from path w = ground arith

  pub server-read_table :
      (file : String) (w : World State) → (read_table fs blob parse file w).1.server ≡ w.server
  unfolding read_table
  server-read_table file w =
      let w₁ = (copy_from fs blob file w).1 in
      ground (arith, (get_lem fs blob file w₁ file).1, server-copy_from file w)

  -- Reading a table changes nothing on the server.
  pub server-get_table :
      (file : String) (w : World State) → (get_table fs blob parse file w).1.server ≡ w.server
  unfolding get_table
  server-get_table file w =
      server-read_table _ (read_table fs blob parse file w).1 ∙ server-read_table file w

  -- No id has two rows in a table that `get_table` returns.
  pub get_table-IsIndexed :
      (file : String) (w : World State) → IsIndexed (get_table fs blob parse file w).0
  unfolding get_table
  get_table-IsIndexed file w = first_rows-IsIndexed [] _

  module _ {H : Type 0} ⦃e : Eq H⦄ (hash : C → H) (file : String) (prev : H) (c : C)
      (w : World State) where
    now-push :
        (push fs blob hash file prev c w).0 ≡ ok tt
        → read (push fs blob hash file prev c w).1.server file ≡ some c
    now-push h =
        let (r, w') = push fs blob hash file prev c w in
        let replaced = push-Replaced fs blob hash file prev c w w' (ground arith) in
        ground (arith, replaced.now)

    kept-push :
        (x : Error)
        → (push fs blob hash file prev c w).0 ≡ raise x
        → read (push fs blob hash file prev c w).1.server file ≡ read w.server file
    kept-push x h =
        let (r, w') = push fs blob hash file prev c w in
        push-raise fs blob hash file prev c w w' x file (ground arith) (temp-ne file)

  module _ {H : Type 0} ⦃e : Eq H⦄ (hash : C → H) (to_csv : Table R → C) (file : String)
      (func : World State → Result (Table R) × World State)
      (quiet : (w : World State) → (func w).1.server ≡ w.server) where
    -- The table that is returned is the one that the method made, and the one on the server.
    pub verify_hash-ok :
        (w w' : World State) (t : Table R)
        → verify_hash fs blob parse hash to_csv file func w ≡ (ok t, w')
        → ((func w).0 ≡ ok t) × (read w'.server file ≡ some (to_csv t))
    unfolding verify_hash
    verify_hash-ok w w' t h = elim (Result-cases (checksum fs blob hash file w)) [
      | inr (x, e₁) ↦ ground arith
      | inl (prev, e₁) ↦ elim (Result-cases (func w).0) [
        | inr (x, e₂) ↦ ground arith
        | inl (u, e₂) ↦ ground (arith, now-push hash file prev (to_csv u) (func w).1)
      ]
    ]

    pub verify_hash-checksum :
        (w w' : World State) (t : Table R)
        → verify_hash fs blob parse hash to_csv file func w ≡ (ok t, w')
        → (prev : H) × (checksum fs blob hash file w ≡ ok prev)
    unfolding verify_hash
    verify_hash-checksum w w' t h = elim (Result-cases (checksum fs blob hash file w)) [
      | inr (x, e₁) ↦ ground arith
      | inl given ↦ given
    ]

    -- After an exception the file on the server is as it was.
    pub verify_hash-raise :
        (w w' : World State) (x : Error)
        → verify_hash fs blob parse hash to_csv file func w ≡ (raise x, w')
        → read w'.server file ≡ read w.server file
    unfolding verify_hash
    verify_hash-raise w w' x h = elim (Result-cases (checksum fs blob hash file w)) [
      | inr (y, e₁) ↦ ground arith
      | inl (prev, e₁) ↦ elim (Result-cases (func w).0) [
        | inr (y, e₂) ↦ ground (arith, quiet w)
        | inl (u, e₂) ↦ ground (arith, quiet w, kept-push hash file prev (to_csv u) (func w).1 x)
      ]
    ]

module _ {C R : Type 0} (fs : FileSystem C) (blob : String → Option C)
    (parse : C → Option (Table R)) (file : String) (w : World fs.State) (c : C) (t : Table R)
    (there : multi_read fs blob w.server file ≡ some c) (read_back : parse c ≡ some t) where
  open fs use {read, read-write}

  read_table-found : (read_table fs blob parse file w).0 ≡ t
  unfolding read_table copy_from get
  read_table-found = ground (arith, read-write w.local file file c, ==_refl file)

  -- What `get_table` reads from `<file>.2`.
  abbrev pub archive : Table R
  archive = (read_table fs blob parse (append file ".2") (read_table fs blob parse file w).1).0

  -- If the server or a blob container has the file, and it parses, the table has for each id the row of
  -- that file, whatever the local copy was, or else the row of the archive `<file>.2`.
  pub lookup-get_table :
      (j : ℕ)
      → lookup j (get_table fs blob parse file w).0 ≡ or_else (lookup j t) (lookup j archive)
  unfolding get_table
  lookup-get_table j = ground (
    arith,
    read_table-found,
    lookup-first_rows [] ((read_table fs blob parse file w).0 ++ archive) j,
    lookup-append (read_table fs blob parse file w).0 archive j,
  )
