-- ===== src/ChangeTable/Flexibility.antt =====
-- `add_demand_flexibility` of powersimdata/input/changes/demand_flex.py. The versions of a profile that
-- the data store lists are a parameter.
use power_sim_data.Prelude.{
  ℕ, String, none, some, List, [], ◌∷◌, string_eq, ◌==◌, ltb, contains, if◌then◌else◌,
}
use power_sim_data.Prelude.Dict.{Dict, keys, lookup, insert}
use power_sim_data.Prelude.Result.{ok, raise, value_error, key_error}
use power_sim_data.Ct.{FlexValue, hours, version, Ct}
use power_sim_data.ChangeTable.Entries.{check_entry_keys}
use power_sim_data.ChangeTable.Frames.{Method, ◌>>=◌, return, lift, modify}

-- What is given under a key: an integer, with its sign, or a string.
pub data FlexEntry : Type 0 where
  whole : ℕ → FlexEntry
  negative : ℕ → FlexEntry
  word : String → FlexEntry

abbrev pub required : List String
required = "demand_flexibility_up" ∷ "demand_flexibility_dn" ∷ []

abbrev pub optional : List String
optional =
    "demand_flexibility_duration" ∷ "demand_flexibility_cost_up" ∷ "demand_flexibility_cost_dn" ∷ []

module _ {V : Type 0} where
  abbrev stored : Ct V → Dict String FlexValue
  stored ct = elim ct.demand_flexibility [ none ↦ [] | some d ↦ d ]

  unfoldable pub put_flexibility : String → FlexValue → Ct V → Ct V
  unfolding insert
  put_flexibility k v ct = record ct { demand_flexibility = some (insert k v (stored ct)) }

  -- `del obj.ct["demand_flexibility"]`, and then the exception.
  abbrev drop_flexibility : Method V Unit
  drop_flexibility s =
      (raise value_error, record s { ct = record s.ct { demand_flexibility = none } })

  -- The duration must be a positive integer; otherwise what was set before stays.
  unfoldable pub set_duration : String → FlexEntry → Method V Unit
  unfolding put_flexibility
  set_duration k (whole n) s =
      if ltb 0 n then modify (put_flexibility k (hours n)) s else (raise value_error, s)
  set_duration k (negative n) s = (raise value_error, s)
  set_duration k (word w) s = (raise value_error, s)

  unfoldable pub set_profile : List String → String → FlexEntry → Method V Unit
  unfolding put_flexibility
  set_profile possible k (word w) s =
      if contains possible w then modify (put_flexibility k (version w)) s else drop_flexibility s
  set_profile possible k _ s = drop_flexibility s

  module _ (versions : String → List String) where
    -- The loop over `required | (optional & info.keys())`, a set whose order Python leaves open.
    unfoldable pub set_all : List String → Dict String FlexEntry → Method V Unit
    unfolding set_duration set_profile lookup
    set_all [] info = return tt
    set_all (k ∷ order) info = do
      v ← lift (λ s. elim (lookup k info) [ none ↦ raise key_error | some v ↦ ok v ])
      _ ←
          (if k == "demand_flexibility_duration"
            then set_duration k v
            else set_profile (versions k) k v)
      set_all order info

    -- `order` has the keys of `info` in some order.
    unfoldable pub add_demand_flexibility : List String → Dict String FlexEntry → Method V Unit
    unfolding check_entry_keys set_all
    add_demand_flexibility order info = do
      _ ← lift (λ s. check_entry_keys (keys info) required [] optional)
      _ ← modify (λ ct. record ct { demand_flexibility = some (stored ct) })
      set_all order info
