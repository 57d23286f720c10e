-- ===== src/GridCheck/Cost.antt =====
-- `_check_gencost` of powersimdata/input/check.py, without a list for the error messages.
use power_sim_data.Prelude.{
  ℕ, zero, suc, String, Bool, true, false, List, [], ◌∷◌, Eq, nat_eq, string_eq, ◌==◌, ◌≡◌, ◌↔◌,
  ==_iff, refl, ◌∙◌, sym, ap, subst, inl, inr, ◌<◌, length, all, All, contains, ltb, if◌then◌else◌,
  arith,
}
use power_sim_data.Prelude.Result.{
  Result, ok, raise, require, value_error, index_error, Result-cases, ◌>>=◌,
}

-- The names of columns: `c i` is "c" followed by the digits of i.
pub data Column : Type 0 where
  type_column n_column : Column
  c : ℕ → Column
  other : String → Column

abbrev column_beq : Column → Column → Bool
column_beq type_column type_column = true
column_beq n_column n_column = true
column_beq (c i) (c j) = i == j
column_beq (other s) (other t) = s == t
column_beq _ _ = false

pub column_beq_iff : (a b : Column) → (column_beq a b ≡ true) ↔ (a ≡ b)
column_beq_iff (other s) (other t) = ground (arith, ==_iff s t)
column_beq_iff (other s) type_column = ground arith
column_beq_iff (other s) n_column = ground arith
column_beq_iff (other s) (c j) = ground arith
column_beq_iff type_column b = ground arith
column_beq_iff n_column b = ground arith
column_beq_iff (c i) (c j) = ground (arith, ==_iff i j)
column_beq_iff (c i) type_column = ground arith
column_beq_iff (c i) n_column = ground arith
column_beq_iff (c i) (other s) = ground arith

instance abbrev pub column_eq : Eq Column
column_eq = record { beq = column_beq; beq_iff = column_beq_iff }

-- A data frame of cost curves: its columns, and of each row what the columns "type" and "n" hold.
pub record CostFrame : Type 0 where
  pub columns : List Column
  pub types : List ℕ
  pub orders : List ℕ

-- The distinct entries: `nunique` is how many there are.
unfoldable pub unique : List ℕ → List ℕ
unique [] = []
unique (x ∷ l) = let rest = unique l in if contains l x then rest else x ∷ rest

abbrev first : List ℕ → Result ℕ
first [] = raise index_error
first (n ∷ l) = ok n

-- `range(n)`, from the last one on.
unfoldable pub range : ℕ → List ℕ
range zero = []
range (suc n) = n ∷ range n

unfoldable pub check_gencost : CostFrame → Result (Unit {0})
unfolding unique range
check_gencost f = do
  _ ← require (ltb 0 (length f.types)) value_error
  _ ← require (ltb 0 (length f.columns)) value_error
  _ ← require (contains f.columns type_column) value_error
  _ ← require (contains f.columns n_column) value_error
  _ ← require (all (λ t. t == 2) f.types) value_error
  _ ← require (length (unique f.orders) == 1) value_error
  n ← first f.orders
  _ ← require (ltb 0 n) value_error
  require (all (λ i. contains f.columns (c i)) (range n)) value_error

-- Every curve is a polynomial, all are of the same order, and the columns are there for it.
pub record Polynomial (f : CostFrame) : Type 0 where
  pub order : ℕ
  pub any_row : 0 < length f.types
  pub type_there : contains f.columns type_column ≡ true
  pub n_there : contains f.columns n_column ≡ true
  pub polynomials : All (λ t. t ≡ 2) f.types
  pub any_order : 0 < length f.orders
  pub orders : All (λ m. m ≡ order) f.orders
  pub positive : 0 < order
  pub coefficients : All (λ i. contains f.columns (c i) ≡ true) (range order)

module _ {A : Type 0} (P : A → Type 0) (p : A → Bool) where
  pub all-All : ((a : A) → (p a ≡ true) ↔ P a) → (l : List A) → (all p l ≡ true) ↔ All P l
  all-All one [] = ground arith
  all-All one (x ∷ l) = ground (arith, all-All one l, one x)

contains-unique : (l : List ℕ) (m : ℕ) → contains (unique l) m ≡ contains l m
unfolding unique
contains-unique [] m = refl
contains-unique (x ∷ l) m = ground (arith, contains-unique l m, ==_iff x m)

contains-All : (P : ℕ → Type 0) (l : List ℕ) → ((m : ℕ) → contains l m ≡ true → P m) → All P l
contains-All P [] h = tt
contains-All P (x ∷ l) h =
    (h x (ground (arith, ==_iff x x)), contains-All P l (λ m k. h m (ground (arith, k))))

contains-one :
    (l : List ℕ) (m k : ℕ) → length l ≡ 1 → contains l m ≡ true → contains l k ≡ true → m ≡ k
contains-one [] m k e h i = ground arith
contains-one (x ∷ []) m k e h i = ground (arith, ==_iff x m, ==_iff x k)
contains-one (x ∷ y ∷ l) m k e h i = omega arith

unique-same : (x : ℕ) (l : List ℕ) → All (λ m. m ≡ x) l → unique (x ∷ l) ≡ x ∷ []
unfolding unique
unique-same x [] h = refl
unique-same x (y ∷ l) h =
    subst (λ y. unique (x ∷ y ∷ l) ≡ x ∷ []) (sym h.0)
      (ground (arith, unique-same x l h.1, ==_iff x x))

orders-same :
    (l : List ℕ) (n : ℕ)
    → 0 < length l
    → All (λ m. m ≡ n) l
    → (length (unique l) ≡ 1) × (first l ≡ ok n)
orders-same [] n k h = ground arith
orders-same (x ∷ l) n k h =
    (ap length (unique-same x l (subst (λ k. All (λ m. m ≡ k) l) (sym h.0) h.1)), ap ok h.0)

contains-any : {A : Type 0} ⦃e : Eq A⦄ (l : List A) (a : A) → contains l a ≡ true → 0 < length l
contains-any [] a h = ground arith
contains-any (x ∷ l) a h = omega arith

first-contains : (l : List ℕ) (n : ℕ) → first l ≡ ok n → contains l n ≡ true
first-contains [] n h = ground arith
first-contains (x ∷ l) n h = ground (arith, ==_iff x n)

pub check_gencost-Polynomial : (f : CostFrame) → check_gencost f ≡ ok tt → Polynomial f
unfolding check_gencost
check_gencost-Polynomial f h = elim (Result-cases (first f.orders)) [
  | inr (e, k) ↦ ground (arith, k)
  | inl (n, k) ↦
      let one : length (unique f.orders) ≡ 1 =
        ground (arith, k, ==_iff (length (unique f.orders)) 1) in
      let head = first-contains f.orders n k in
      record {
        order = n;
        any_row = ground (arith, k);
        type_there = ground (arith, k);
        n_there = ground (arith, k);
        polynomials =
            (all-All (λ t. t ≡ 2) (λ t. t == 2) (λ t. ==_iff t 2) f.types).0 (ground (arith, k));
        any_order = ground (arith, head);
        orders = contains-All _ f.orders (λ m i.
            contains-one (unique f.orders) m n one (contains-unique f.orders m ∙ i)
              (contains-unique f.orders n ∙ head));
        positive = ground (arith, k);
        coefficients =
            (all-All _ (λ i. contains f.columns (c i)) (λ i. ((λ h. h), (λ h. h))) (range n)).0
              (ground (arith, k));
      }
]

pub Polynomial-check_gencost : (f : CostFrame) → Polynomial f → check_gencost f ≡ ok tt
unfolding check_gencost
Polynomial-check_gencost f p =
    let (one, head) = orders-same f.orders p.order p.any_order p.orders in
    ground (
      arith,
      p.any_row,
      p.positive,
      p.type_there,
      p.n_there,
      contains-any f.columns n_column p.n_there,
      ==_iff (length (unique f.orders)) 1,
      one,
      head,
      (all-All (λ t. t ≡ 2) (λ t. t == 2) (λ t. ==_iff t 2) f.types).1 p.polynomials,
      (all-All _ (λ i. contains f.columns (c i)) (λ i. ((λ h. h), (λ h. h))) (range p.order)).1
          p.coefficients,
    )
