-- ===== src/TransformProfile/Lists.antt =====
-- Lists, and the types of plants that powersimdata/input/transform_profile.py goes by.
use power_sim_data.Prelude.{
  ℕ, zero, suc, ◌+◌, String, ◌≡◌, refl, ap, inl, inr, Bool, true, List, [], ◌∷◌, ◌++◌, map, nat_eq,
  string_eq, ◌==◌, select, contains, contains-append, length, arith, Bool-cases,
}
use power_sim_data.Prelude.Dict.{Dict, values, lookup}
use power_sim_data.TransformProfile.{take, drop, concat, scale_keys, types_of}

module _ {A : Type 0} where
  pub take-drop : (n : ℕ) (xs : List A) → take n xs ++ drop n xs ≡ xs
  unfolding take drop
  take-drop zero xs = refl
  take-drop (suc n) [] = refl
  take-drop (suc n) (x ∷ xs) = ap (λ l. x ∷ l) (take-drop n xs)

  pub select-append :
      (p : A → Bool) (xs ys : List A) → select p (xs ++ ys) ≡ select p xs ++ select p ys
  select-append p [] ys = refl
  select-append p (x ∷ xs) ys = ground (arith, select-append p xs ys)

  pub drop-append : (xs ys : List A) → drop (length xs) (xs ++ ys) ≡ ys
  unfolding drop
  drop-append [] ys = refl
  drop-append (x ∷ xs) ys = drop-append xs ys

  pub length-append : (xs ys : List A) → length (xs ++ ys) ≡ length xs + length ys
  length-append [] ys = ground arith
  length-append (x ∷ xs) ys = ground (arith, length-append xs ys)

module _ {A B : Type 0} (f : A → B) where
  pub map-drop : (n : ℕ) (xs : List A) → map f (drop n xs) ≡ drop n (map f xs)
  unfolding drop
  map-drop zero xs = refl
  map-drop (suc n) [] = refl
  map-drop (suc n) (x ∷ xs) = map-drop n xs

  pub length-map : (xs : List A) → length (map f xs) ≡ length xs
  length-map [] = refl
  length-map (x ∷ xs) = ap suc (length-map xs)

pub map-map :
    {A B D : Type 0} (f : A → B) (k : B → D) (xs : List A)
    → map k (map f xs) ≡ map (λ x. k (f x)) xs
map-map f k [] = refl
map-map f k (x ∷ xs) = ap (λ l. k (f x) ∷ l) (map-map f k xs)

types-concat :
    (groups : Dict String (List String)) (resource t : String)
    → contains (types_of groups resource) t ≡ true
    → contains (concat (values groups)) t ≡ true
unfolding concat lookup
types-concat [] resource t h = ground arith
types-concat ((name, types) ∷ groups) resource t h =
    let joined = contains-append types (concat (values groups)) t in
    elim (Bool-cases (name == resource)) [
      | inl same ↦ ground (arith, joined, same)
      | inr other ↦
          let rest = types-concat groups resource t (ground (arith, h, other)) in
          ground (arith, joined, rest)
    ]

pub known_types :
    (groups : Dict String (List String)) (resource t : String)
    → contains (types_of groups resource) t ≡ true
    → contains (concat (values (scale_keys groups))) t ≡ true
unfolding concat
known_types groups resource t h = ground (arith, types-concat groups resource t h)
