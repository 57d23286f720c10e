-- ===== src/ChangeTable/Keeps.antt =====
-- What every method keeps, from what its parts keep.
use power_sim_data.Prelude.{Bool, true, false, Option, none, some, if◌then◌else◌}
use power_sim_data.Prelude.Result.{Result, ok, raise}
use power_sim_data.Ct.{Ct}
use power_sim_data.ChangeTable.Frames.{ChangeTable, Method, ◌>>=◌, return, lift, modify}

module _ {V : Type 0} (P : ChangeTable V → Type 0) where
  pub record Keeps {A : Type 0} (m : Method V A) : Type 0 where
    pub keep : (s : ChangeTable V) → P s → P (m s).1

  pub Keeps->>= :
      {A B : Type 0} {m : Method V A} {f : A → Method V B}
      → Keeps m
      → ((a : A) → Keeps (f a))
      → Keeps (m >>= f)
  unfolding ◌>>=◌
  Keeps->>= {A} {B} {m} {f} first next = record { keep = λ s h. go (m s) (first.keep s h) }
    where
      go : (r : Result A × ChangeTable V) → P r.1 → P (((λ (t : ChangeTable V). r) >>= f) r.1).1
      go (ok a, s') k = (next a).keep s' k
      go (raise e, s') k = k

module _ {V : Type 0} {P : ChangeTable V → Type 0} where
  infixr 5 ◌then◌
  pub ◌then◌ :
      {A B : Type 0} {m : Method V A} {f : A → Method V B}
      → Keeps P m
      → ((a : A) → Keeps P (f a))
      → Keeps P (m >>= f)
  first then next = Keeps->>= P first next

  pub look : {A : Type 0} {f : ChangeTable V → Result A} → Keeps P (lift f)
  look = record { keep = λ s h. h }

  pub done : {A : Type 0} {a : A} → Keeps P (return a)
  done = record { keep = λ s h. h }

module _ {V : Type 0} (P : ChangeTable V → Type 0) where
  pub set :
      ((ct : Ct V) (s : ChangeTable V) → P s → P (record s { ct = ct }))
      → (f : Ct V → Ct V) → Keeps P (modify f)
  set edit f = record { keep = λ s h. edit (f s.ct) s h }

  pub split :
      {A : Type 0} (b : Bool) (x y : Result A × ChangeTable V)
      → P x.1
      → P y.1
      → P (if b then x else y).1
  split true x y h k = h
  split false x y h k = k

  pub split_option :
      {A B : Type 0} (o : Option B) (x : Result A × ChangeTable V)
      (f : B → Result A × ChangeTable V)
      → P x.1
      → ((b : B) → P (f b).1)
      → let next : Result {0} A × ChangeTable V = elim o [ none ↦ x | some b ↦ f b ] in P next.1
  split_option none x f h k = h
  split_option (some b) x f h k = k b
