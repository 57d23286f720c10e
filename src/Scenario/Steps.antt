-- ===== src/Scenario/Steps.antt =====
-- How the steps of `create_scenario` in powersimdata/scenario/create.py follow each other, and what
-- each of them leaves alone.
use Prim.Native.Char.{code}
use Prim.Native.String.{◌++◌ as append, [] as empty_text, ◌∷◌ as char}
use Prim.Native.String.append
use power_sim_data.Prelude.{
  ℕ, String, ◌≡◌, refl, inl, inr, false, true, Option, ==_iff, string_eq, nat_eq, ◌==◌, arith,
  Option-cases, Bool-cases, ap,
}
use power_sim_data.Ct.{Ct}
use power_sim_data.TransformGrid.Apply.{is_empty}
use power_sim_data.DataAccess.{FileSystem, temp, backup, lock_file, beside}
use power_sim_data.DataAccess.Copies.{write_new_lem}
use power_sim_data.Scenario.Builder.{Builder}
use power_sim_data.Scenario.Creation.{Session, decimal, ct_path, upload_change_table}

-- The number of the first character.
unfoldable pub first_code : String → ℕ
first_code empty_text = 0
first_code (char c s) = code c

first_code-ct_path : (i : ℕ) → first_code (ct_path i) ≡ 100
unfolding ct_path first_code
first_code-ct_path i = ap first_code (append.cons _ "ata/input/" (append (decimal i) "_ct.pkl"))

-- The path of a change table starts with a small d.
pub ct_path-ne : (i : ℕ) (p : String) → (first_code p == 100) ≡ false → (ct_path i == p) ≡ false
ct_path-ne i p starts = elim (Bool-cases (ct_path i == p)) [
  | inr other ↦ other
  | inl is_path ↦
      let same = ap first_code ((==_iff (ct_path i) p).0 is_path) in
      ground (arith, first_code-ct_path i, same, starts)
]

pub ne-ct_path : (i : ℕ) (p : String) → (first_code p == 100) ≡ false → (p == ct_path i) ≡ false
ne-ct_path i p starts = elim (Bool-cases (p == ct_path i)) [
  | inr other ↦ other
  | inl is_path ↦
      let same = ap first_code ((==_iff p (ct_path i)).0 is_path) in
      ground (arith, first_code-ct_path i, same, starts)
]

pub beside-ct_path :
    (i : ℕ) (file : String)
    → (first_code (temp file) == 100) ≡ false
    → (first_code (backup file) == 100) ≡ false
    → beside file (ct_path i) ≡ false
unfolding beside first_code
beside-ct_path i file upload kept = ground (
  arith,
  ne-ct_path i (temp file) upload,
  ne-ct_path i (backup file) kept,
  ne-ct_path i lock_file refl,
)

module _ {V C : Type 0} (fs : FileSystem C) (blob : String → Option C) (pickle : Ct V → C)
    (b : Builder V) where
  open fs use {State, read}

  -- The change table goes to its own path.
  pub upload_change_table-elsewhere :
      (s : Session V State) (p : String)
      → (first_code p == 100) ≡ false
      → read (upload_change_table fs blob pickle b s).1.world.server p ≡ read s.world.server p
  unfolding upload_change_table
  upload_change_table-elsewhere s p starts = elim (Bool-cases (is_empty b.change_table.ct)) [
    | inl nothing ↦ rw nothing (ground arith)
    | inr e ↦ elim (Option-cases s.info.id) [
      | inl no_id ↦ ground arith
      | inr (i, named) ↦ ground (
        arith,
        ct_path-ne i p starts,
        (write_new_lem fs blob (ct_path i) (pickle b.change_table.ct) true s.world p).1,
      )
    ]
  ]
