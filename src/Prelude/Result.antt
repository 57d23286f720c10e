-- ===== src/Prelude/Result.antt =====
-- Python's exceptions as values, and methods that change an object and may raise.
use mathlib.Core.Path.{◌≡◌, refl, subst}
use mathlib.Core.List.{List, [], ◌∷◌}
use mathlib.Core.Logic.{◌⊎◌, inl, inr}
use mathlib.Core.Bool.{Bool, true, false}

-- The classes of exception that the modelled code raises; messages are left out.
pub data Error : Type 0 where
  value_error type_error key_error index_error attribute_error os_error io_error exception
        zero_division_error :
      Error

pub data Result {ℓ} (A : Type ℓ) : Type ℓ where
  ok : A → Result A
  raise : Error → Result A

-- Either way out of a call.
pub Result-cases {ℓ} :
    {A : Type ℓ} (r : Result A) → ((a : A) × (r ≡ ok a)) ⊎ ((x : Error) × (r ≡ raise x))
Result-cases (ok a) = inl (a, refl)
Result-cases (raise x) = inr (x, refl)

-- An exception skips what follows.
infixl 5 ◌>>=◌
abbrev pub ◌>>=◌ {ℓ κ} : {A : Type ℓ} {T : Type κ} → Result A → (A → Result T) → Result T
raise x >>= next = raise x
ok a >>= next = next a

-- `if not test: raise x`
abbrev pub require : Bool → Error → Result (Unit {0})
require false x = raise x
require true x = ok tt

infixl 5 ◌>>◌
abbrev pub ◌>>◌ {κ} : {T : Type κ} → Result (Unit {0}) → Result T → Result T
check >> rest = check >>= λ done. rest

-- What came out of a chain came out of its last step, on what its first step gave.
pub >>=-eq-ok {ℓ κ} :
    {A : Type ℓ} {T : Type κ} (first : Result A) (next : A → Result T) {t : T}
    → (first >>= next) ≡ ok t
    → (a : A) × (first ≡ ok a) × (next a ≡ ok t)
>>=-eq-ok (raise x) next e = cc
>>=-eq-ok (ok a) next e = (a, refl, e)

pub ok-injective {ℓ} : {A : Type ℓ} {a b : A} → ok a ≡ ok b → a ≡ b
ok-injective h = cc

-- `for a in items: s = step(a, s)`, until one raises.
unfoldable pub each {ℓ κ} : {A : Type ℓ} {S : Type κ} → (A → S → Result S) → List A → S → Result S
each step [] s = ok s
each step (a ∷ items) s = step a s >>= λ s'. each step items s'

-- A relation that every step keeps holds between the start and the end.
pub each-keeps {ℓ κ μ} :
    {A : Type ℓ} {S : Type κ} (R : S → S → Type μ) (step : A → S → Result S)
    → ((s : S) → R s s)
    → ((s t u : S) → R s t → R t u → R s u)
    → ((a : A) (s t : S) → step a s ≡ ok t → R s t)
    → (items : List A) (s t : S) → each step items s ≡ ok t
    → R s t
unfolding each
each-keeps R step same chain one [] s t h = subst (R s) (ok-injective h) (same s)
each-keeps R step same chain one (a ∷ items) s t h =
    let (u, first, rest) = >>=-eq-ok (step a s) (each step items) h in
    chain s u t (one a s u first) (each-keeps R step same chain one items u t rest)
