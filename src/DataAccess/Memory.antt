-- ===== src/DataAccess/Memory.antt =====
-- A file system as a dictionary of paths: the interface can be met, and the tests run on it.
use power_sim_data.Prelude.{string_eq, String}
use power_sim_data.Prelude.Dict.{Dict, lookup, insert, remove, lookup-insert, lookup-remove}
use power_sim_data.DataAccess.{FileSystem}

abbrev pub memory : (C : Type 0) → FileSystem C
memory C = record {
  State = Dict String C;
  read = λ s p. lookup p s;
  write = λ s p c. insert p c s;
  delete = λ s p. remove p s;
  read-write = λ s p q c. lookup-insert p q c s;
  read-delete = λ s p q. lookup-remove p q s;
}
