-- ===== src/Base/Lists.antt =====
-- Lists measured and indexed by native numbers, under the library's names, and the array methods
-- that the source calls with a Boolean test.
use Prim.Native.Nat.{ℕ, zero, suc, ◌+◌, ◌≤◌}
use mathlib.Core.Path.{◌≡◌, refl, ap}
use mathlib.Core.Logic.{◌⊎◌, inl, inr}
use mathlib.Core.Bool.{Bool, true, false, ◌&&◌, ◌||◌}
use mathlib.Core.Option.{Option, none, some}
use mathlib.Core.List.{List, [], ◌∷◌, ◌++◌, map}
use native.Mathlib.Omega.{arith}
use metaclaw.Base.Tests.{Bool-cases, if◌then◌else◌}

module _ {ℓ} {A : Type ℓ} where
  abbrev pub length : List A → ℕ
  length [] = 0
  length (x ∷ xs) = suc (length xs)

  abbrev pub head? : List A → Option A
  head? [] = none
  head? (x ∷ xs) = some x

  abbrev pub take : ℕ → List A → List A
  take zero xs = []
  take (suc n) [] = []
  take (suc n) (x ∷ xs) = x ∷ take n xs

  -- `every`
  abbrev pub all : (A → Bool) → List A → Bool
  all p [] = true
  all p (x ∷ xs) = p x && all p xs

  -- `some`
  abbrev pub any : (A → Bool) → List A → Bool
  any p [] = false
  any p (x ∷ xs) = p x || any p xs

  abbrev pub filter : (A → Bool) → List A → List A
  filter p [] = []
  filter p (x ∷ xs) = if p x then x ∷ filter p xs else filter p xs

  abbrev pub find : (A → Bool) → List A → Option A
  find p [] = none
  find p (x ∷ xs) = if p x then some x else find p xs

  -- A predicate by recursion computes to tuples, which the tactics read and build.
  abbrev pub All {κ} : (A → Type κ) → List A → Type κ
  All P [] = Unit
  All P (x ∷ xs) = P x × All P xs

  pub length-take-le : (n : ℕ) (xs : List A) → length (take n xs) ≤ n
  length-take-le zero xs = omega arith
  length-take-le (suc n) [] = omega arith
  length-take-le (suc n) (x ∷ xs) = omega (arith, length-take-le n xs)

  pub length-append : (xs ys : List A) → length (xs ++ ys) ≡ length xs + length ys
  length-append [] ys = omega arith
  length-append (x ∷ xs) ys = omega (arith, length-append xs ys)

-- Lists that are pushed one behind the other.
unfoldable pub concat {ℓ} : {A : Type ℓ} → List (List A) → List A
concat [] = []
concat (xs ∷ xss) = xs ++ concat xss

pub append-nil {ℓ} : {A : Type ℓ} (xs ys : List A) → (xs ++ ys) ≡ [] → (xs ≡ []) × (ys ≡ [])
append-nil [] ys h = (refl, h)
append-nil (x ∷ xs) ys h = cc

pub concat-nil {ℓ} : {A : Type ℓ} (xss : List (List A)) → concat xss ≡ [] → All (λ xs. xs ≡ []) xss
unfolding concat
concat-nil [] h = tt
concat-nil (xs ∷ xss) h = let (e, k) = append-nil xs (concat xss) h in (e, concat-nil xss k)

pub List-cases {ℓ} :
    {A : Type ℓ} (xs : List A) → (xs ≡ []) ⊎ ((x : A) × (rest : List A) × (xs ≡ x ∷ rest))
List-cases [] = inl refl
List-cases (x ∷ xs) = inr (x, xs, refl)

-- Membership by recursion, with the position kept.
abbrev pub In : {A : Type 0} → A → List A → Type 0
In x [] = ⊥
In x (y ∷ ys) = (x ≡ y) ⊎ In x ys

module _ {A : Type 0} (p : A → Bool) where
  pub mem-filter : (x : A) (xs : List A) → In x (filter p xs) → In x xs × (p x ≡ true)
  mem-filter x [] m = absurd m
  mem-filter x (y ∷ ys) m = ground (arith, mem-filter x ys)

  pub mem-filter_of_mem : (x : A) (xs : List A) → In x xs → p x ≡ true → In x (filter p xs)
  mem-filter_of_mem x [] m h = m
  mem-filter_of_mem x (y ∷ ys) m h = ground (arith, mem-filter_of_mem x ys)

  pub mem-find : (x : A) (xs : List A) → find p xs ≡ some x → In x xs × (p x ≡ true)
  mem-find x [] h = cc
  mem-find x (y ∷ ys) h = ground (arith, mem-find x ys)

  pub find-none : (x : A) (xs : List A) → find p xs ≡ none → In x xs → p x ≡ false
  find-none x [] h m = absurd m
  find-none x (y ∷ ys) h m = ground (arith, find-none x ys)

  pub all-mem : (x : A) (xs : List A) → all p xs ≡ true → In x xs → p x ≡ true
  all-mem x [] h m = absurd m
  all-mem x (y ∷ ys) h m = ground (arith, all-mem x ys)

  pub all_of_mem : (xs : List A) → ((x : A) → In x xs → p x ≡ true) → all p xs ≡ true
  all_of_mem [] h = refl
  all_of_mem (y ∷ ys) h = rw (h y (inl refl)) (all_of_mem ys (λ x m. h x (inr m)))

  pub any-mem : (xs : List A) → any p xs ≡ true → (x : A) × In x xs × (p x ≡ true)
  any-mem [] h = cc
  any-mem (y ∷ ys) h = elim (Bool-cases (p y)) [
    | inl k ↦ (y, inl refl, k)
    | inr k ↦ let (x, m, q) = any-mem ys (rw k at h) in (x, inr m, q)
  ]

  pub any-false : (x : A) (xs : List A) → any p xs ≡ false → In x xs → p x ≡ false
  any-false x [] h m = absurd m
  any-false x (y ∷ ys) h m = ground (arith, any-false x ys)

  pub any_of_mem : (x : A) (xs : List A) → In x xs → p x ≡ true → any p xs ≡ true
  any_of_mem x [] m h = absurd m
  any_of_mem x (y ∷ ys) m h = ground (arith, any_of_mem x ys)

module _ {A : Type 0} where
  pub mem-take : (x : A) (n : ℕ) (xs : List A) → In x (take n xs) → In x xs
  mem-take x zero xs m = absurd m
  mem-take x (suc n) [] m = m
  mem-take x (suc n) (y ∷ ys) (inl e) = inl e
  mem-take x (suc n) (y ∷ ys) (inr m) = inr (mem-take x n ys m)

  pub mem-append : (x : A) (xs ys : List A) → In x (xs ++ ys) → In x xs ⊎ In x ys
  mem-append x [] ys m = inr m
  mem-append x (y ∷ xs) ys (inl e) = inl (inl e)
  mem-append x (y ∷ xs) ys (inr m) = elim (mem-append x xs ys m) [
    | inl k ↦ inl (inr k)
    | inr k ↦ inr k
  ]

  pub mem-append_left : (x : A) (xs ys : List A) → In x xs → In x (xs ++ ys)
  mem-append_left x [] ys m = absurd m
  mem-append_left x (y ∷ xs) ys (inl e) = inl e
  mem-append_left x (y ∷ xs) ys (inr m) = inr (mem-append_left x xs ys m)

  pub mem-append_right : (x : A) (xs ys : List A) → In x ys → In x (xs ++ ys)
  mem-append_right x [] ys m = m
  mem-append_right x (y ∷ xs) ys m = inr (mem-append_right x xs ys m)

  pub All-mem : (P : A → Type 0) (x : A) (xs : List A) → All P xs → In x xs → P x
  All-mem P x [] ps m = absurd m
  All-mem P x (y ∷ ys) ps (inl e) = rw e ps.0
  All-mem P x (y ∷ ys) ps (inr m) = All-mem P x ys ps.1 m

  pub All-of_mem : (P : A → Type 0) (xs : List A) → ((x : A) → In x xs → P x) → All P xs
  All-of_mem P [] h = tt
  All-of_mem P (y ∷ ys) h = (h y (inl refl), All-of_mem P ys (λ x m. h x (inr m)))

  -- No two positions hold the same item.
  abbrev pub Distinct : List A → Type 0
  Distinct [] = Unit
  Distinct (x ∷ xs) = (¬ In x xs) × Distinct xs

module _ {A B : Type 0} where
  pub length-map : (f : A → B) (xs : List A) → length (map f xs) ≡ length xs
  length-map f [] = refl
  length-map f (x ∷ xs) = ap suc (length-map f xs)

  -- `flatMap` of an optional result.
  abbrev pub filter_map : (A → Option B) → List A → List B
  filter_map f [] = []
  filter_map f (x ∷ xs) = elim (f x) [ none ↦ filter_map f xs | some y ↦ y ∷ filter_map f xs ]

  pub mem-map : (f : A → B) (y : B) (xs : List A) → In y (map f xs) → (x : A) × In x xs × (y ≡ f x)
  mem-map f y [] m = absurd m
  mem-map f y (x ∷ xs) (inl e) = (x, inl refl, e)
  mem-map f y (x ∷ xs) (inr m) = let (a, n, e) = mem-map f y xs m in (a, inr n, e)

  pub mem-map_of_mem : (f : A → B) (x : A) (xs : List A) → In x xs → In (f x) (map f xs)
  mem-map_of_mem f x [] m = absurd m
  mem-map_of_mem f x (y ∷ ys) (inl e) = inl (ap f e)
  mem-map_of_mem f x (y ∷ ys) (inr m) = inr (mem-map_of_mem f x ys m)

  mem-filter_map_step :
      (f : A → Option B) (y : B) (x : A) (xs : List A) (o : Option B)
      → f x ≡ o
      → (In y (filter_map f xs) → (a : A) × In a xs × (f a ≡ some y))
      → In y (elim o [ none ↦ filter_map f xs | some z ↦ z ∷ filter_map f xs ])
      → (a : A) × In a (x ∷ xs) × (f a ≡ some y)
  mem-filter_map_step f y x xs none e ih n = let (a, k, h) = ih n in (a, inr k, h)
  mem-filter_map_step f y x xs (some z) e ih (inl p) = (x, inl refl, rw p e)
  mem-filter_map_step f y x xs (some z) e ih (inr n) = let (a, k, h) = ih n in (a, inr k, h)

  pub mem-filter_map :
      (f : A → Option B) (y : B) (xs : List A)
      → In y (filter_map f xs)
      → (x : A) × In x xs × (f x ≡ some y)
  mem-filter_map f y [] m = absurd m
  mem-filter_map f y (x ∷ xs) m = mem-filter_map_step f y x xs (f x) refl (mem-filter_map f y xs) m
