-- ===== src/DataAccess.antt =====
-- powersimdata/data_access/data_access.py: `SSHDataAccess`, the data store that is shared by every
-- client, and fs_helper.py: the file systems behind it. The file systems themselves are the package
-- `fs`, so they are an interface; a directory is not modelled.
pub mod Push
pub mod Copies
pub mod Memory
mod Tests
use Prim.Native.String.{◌++◌ as append}
use power_sim_data.Prelude.{
  String, ◌≡◌, Bool, true, false, not, ◌&&◌, ◌||◌, Option, none, some, Eq, string_eq, ◌==◌,
  if◌then◌else◌,
}
use power_sim_data.Prelude.Result.{Result, ok, raise, os_error, index_error, io_error, ◌>>=◌}

-- What the code relies on of a file system: a write is read back and touches no other path.
pub record FileSystem (C : Type 0) : Type 1 where
  pub State : Type 0
  pub read : State → String → Option C
  pub write : State → String → C → State
  pub delete : State → String → State
  pub read-write :
      (s : State) (p q : String) (c : C)
      → read (write s p c) q ≡ (if p == q then some c else read s q)
  pub read-delete :
      (s : State) (p q : String) → read (delete s p) q ≡ (if p == q then none else read s q)

-- `server` is the writable `ssh_fs`, `local` the client's own disk. What the blob containers hold is
-- read only, and is a parameter below.
pub record World (S : Type 0) : Type 0 where
  pub server : S
  pub local : S

abbrev pub or_else : {A : Type 0} → Option A → Option A → Option A
or_else (some a) b = some a
or_else none b = b

abbrev pub found : {A : Type 0} → Option A → Bool
found (some a) = true
found none = false

-- `backup = f"{file_name}.temp"`
unfoldable pub temp : String → String
temp file = append file ".temp"

-- `mv -b` keeps what it overwrites, in a file with this name unless there are numbered backups, which nobody
-- makes here.
unfoldable pub backup : String → String
backup file = append file "~"

-- Empty, and used by the command of `push` alone, so that no state here says what it holds.
abbrev pub lock_file : String
lock_file = "scenario.lockfile"

-- The files that a push has beside its own: the upload, the backup and the lock file.
unfoldable pub beside : String → String → Bool
unfolding temp backup
beside file p = temp file == p || (backup file == p || lock_file == p)

module _ {C : Type 0} (fs : FileSystem C) (blob : String → Option C) where
  open fs use {State, read, write, delete}

  -- `get_multi_fs`: the server has the highest priority, then the blob containers.
  unfoldable pub multi_read : State → String → Option C
  multi_read server path = or_else (read server path) (blob path)

  -- `_check_file_exists`
  unfoldable pub check_file_exists : World State → String → Bool → Result (Unit {0})
  unfolding multi_read
  check_file_exists w path should_exist =
      let exists = found (multi_read w.server path) in
      if should_exist && not exists
      then raise os_error
      else if not should_exist && exists
      then raise os_error
      else ok tt

  -- `copy_from`, through a temporary file system that is gone at the end.
  copy_found : World State → String → Option C → Result (Unit {0}) × World State
  copy_found w path none = (raise os_error, w)
  copy_found w path (some c) = (ok tt, record w { local = write w.local path c })

  unfoldable pub copy_from : String → World State → Result (Unit {0}) × World State
  unfolding multi_read copy_found
  copy_from path w = copy_found w path (multi_read w.server path)

  read_local : String → World State → Result C × World State
  read_local path w = (elim (read w.local path) [ none ↦ raise os_error | some c ↦ ok c ], w)

  -- `get`: the local copy, or else one that is fetched first.
  unfoldable pub get : String → World State → Result C × World State
  unfolding copy_from read_local
  get path w =
      if found (read w.local path)
      then read_local path w
      else let (r, w') = copy_from path w in
        elim r [ ok _ ↦ read_local path w' | raise e ↦ (raise e, w') ]

  -- `write`: never over a file that is there.
  unfoldable pub write_new : String → C → Bool → World State → Result (Unit {0}) × World State
  unfolding check_file_exists
  write_new path c save_local w = elim (check_file_exists w path false) [
    | raise e ↦ (raise e, w)
    | ok _ ↦ (
      ok tt,
      record {
        server = write w.server path c;
        local = if save_local then write w.local path c else w.local;
      },
    )
  ]

  module _ {H : Type 0} ⦃e : Eq H⦄ (hash : C → H) where
    -- `checksum`: sha1sum on the server. A file that only a blob container holds has none there, and
    -- the read of the first line of nothing fails.
    unfoldable pub hash_of : Option C → Result H
    hash_of none = raise index_error
    hash_of (some c) = ok (hash c)

    unfoldable pub checksum : String → World State → Result H
    unfolding check_file_exists hash_of
    checksum path w = check_file_exists w path true >>= λ _. hash_of (read w.server path)

    -- The shell command of `push`, which holds the lock `scenario.lockfile`: move the upload over the
    -- original, which is kept as a backup, if the original still has the given checksum, or else
    -- complain.
    unfoldable pub move_if_same : String → H → C → State → Result (Unit {0}) × State
    unfolding backup
    move_if_same file prev c server = elim (read server file) [
      | none ↦ (raise io_error, server)
      | some old ↦
          if prev == hash old
          then (ok tt, delete (write (write server (backup file) old) file c) (temp file))
          else (raise io_error, server)
    ]

    -- `push`: the new content goes to the local disk, to `<file>.temp` on the server, and from there
    -- over the original.
    unfoldable pub push : String → H → C → World State → Result (Unit {0}) × World State
    unfolding check_file_exists move_if_same
    push file prev c w = elim (check_file_exists w (temp file) false) [
      | raise e ↦ (raise e, w)
      | ok _ ↦
          let (r, server) = move_if_same file prev c (write w.server (temp file) c) in
          (r, record { server = server; local = write w.local file c })
    ]
