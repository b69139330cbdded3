-- ===== src/Prelude/Lists.antt =====
-- Lists counted by native numbers, and the first entries of an array as a list.
use Prim.Native.Nat.{ℕ, zero, suc, ◌+◌, ◌≤◌}
use mathlib.Core.Path.{◌≡◌, refl}
use mathlib.Core.List.{List, [], ◌∷◌, ◌++◌, map}
use native.Mathlib.Omega.{arith}
use escort.Prelude.Tests.{◌==◌, if◌then◌else◌, update}

-- How often a number stands in a list.
abbrev pub count : ℕ → List ℕ → ℕ
count a [] = 0
count a (x ∷ xs) = if x == a then suc (count a xs) else count a xs

-- `std::list::remove`: every occurrence goes.
abbrev pub remove : ℕ → List ℕ → List ℕ
remove a [] = []
remove a (x ∷ xs) = if x == a then remove a xs else x ∷ remove a xs

pub count-remove :
    (b a : ℕ) (xs : List ℕ) → count b (remove a xs) ≡ (if a == b then 0 else count b xs)
count-remove b a [] = ground arith
count-remove b a (x ∷ xs) = ground (arith, count-remove b a xs)

module _ {ℓ} {A : Type ℓ} where
  abbrev pub length : List A → ℕ
  length [] = 0
  length (x ∷ xs) = suc (length xs)

  pub length-append : (xs ys : List A) → length (xs ++ ys) ≡ length xs + length ys
  length-append [] ys = omega arith
  length-append (x ∷ xs) ys = omega (arith, length-append xs ys)

  -- The first `n` cells of an array, in order.
  abbrev pub prefix : ℕ → (ℕ → A) → List A
  prefix zero f = []
  prefix (suc n) f = prefix n f ++ f n ∷ []

  pub prefix-update : (n i : ℕ) (f : ℕ → A) (v : A) → n ≤ i → prefix n (update f i v) ≡ prefix n f
  prefix-update zero i f v h = refl
  prefix-update (suc n) i f v h = ground (arith, prefix-update n i f v)

  pub length-prefix : (n : ℕ) (f : ℕ → A) → length (prefix n f) ≡ n
  length-prefix zero f = refl
  length-prefix (suc n) f = omega (arith, length-append (prefix n f) (f n ∷ []), length-prefix n f)

-- A predicate of every element, as a tuple.
abbrev pub All {ℓ κ} : {A : Type ℓ} → (A → Type κ) → List A → Type κ
All P [] = Unit
All P (x ∷ xs) = P x × All P xs

pub All-append {ℓ κ} :
    {A : Type ℓ} (P : A → Type κ) (xs ys : List A) → All P xs → All P ys → All P (xs ++ ys)
All-append P [] ys hx hy = hy
All-append P (x ∷ xs) ys hx hy = (hx.0, All-append P xs ys hx.1 hy)

pub count-append : (a : ℕ) (xs ys : List ℕ) → count a (xs ++ ys) ≡ count a xs + count a ys
count-append a [] ys = omega arith
count-append a (x ∷ xs) ys = ground (arith, count-append a xs ys)

pub count-map-suc : (a : ℕ) (xs : List ℕ) → count (suc a) (map suc xs) ≡ count a xs
count-map-suc a [] = refl
count-map-suc a (x ∷ xs) = ground (arith, count-map-suc a xs)
