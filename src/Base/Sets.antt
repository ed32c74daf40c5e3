-- ===== src/Base/Sets.antt =====
-- Sets of texts, given by their elements: `includes`, `has`, and `new Set`.
use Prim.Native.String.{String}
use mathlib.Core.Path.{◌≡◌, refl}
use mathlib.Core.Logic.{◌↔◌, inl, inr}
use mathlib.Core.Bool.{Bool, true, false, ◌||◌}
use mathlib.Core.List.{List, [], ◌∷◌}
use native.Mathlib.Omega.{arith}
use text.Mathlib.TextEquality.{eq_iff}
use text.Mathlib.TextPositions.{eq_refl}
use metaclaw.Base.Tests.{Bool-cases, if◌then◌else◌, ◌==◌}
use metaclaw.Base.Lists.{In, Distinct}

-- `includes`, and `has` of a set given by its elements.
abbrev pub contains : List String → String → Bool
contains [] a = false
contains (x ∷ xs) a = (x == a) || contains xs a

pub contains-mem : (xs : List String) (a : String) → contains xs a ≡ true → In a xs
contains-mem [] a h = cc
contains-mem (x ∷ xs) a h = ground (arith, eq_iff x a, contains-mem xs a)

pub contains_of_mem : (xs : List String) (a : String) → In a xs → contains xs a ≡ true
contains_of_mem [] a m = absurd m
contains_of_mem (x ∷ xs) a m = ground (arith, eq_iff x a, contains_of_mem xs a)

-- `[...new Set(xs)]`: the first occurrence of each text.
unique_from : List String → List String → List String
unique_from seen [] = []
unique_from seen (x ∷ xs) =
    let old = unique_from seen xs in
    let fresh = x ∷ unique_from (x ∷ seen) xs in if contains seen x then old else fresh

unfoldable pub unique : List String → List String
unfolding unique_from
unique xs = unique_from [] xs

mem-unique_from : (a : String) (seen xs : List String) → In a (unique_from seen xs) → In a xs
unfolding unique_from
mem-unique_from a seen [] m = m
mem-unique_from a seen (x ∷ xs) m =
    ground (arith, mem-unique_from a seen xs, mem-unique_from a (x ∷ seen) xs)

mem-unique_from_of_mem :
    (a : String) (seen xs : List String)
    → In a xs
    → contains seen a ≡ false
    → In a (unique_from seen xs)
unfolding unique_from
mem-unique_from_of_mem a seen [] m h = m
mem-unique_from_of_mem a seen (x ∷ xs) m h =
    ground
      (arith, eq_iff x a, mem-unique_from_of_mem a seen xs, mem-unique_from_of_mem a (x ∷ seen) xs)

-- The set holds what the list holds.
pub mem-unique : (a : String) (xs : List String) → In a (unique xs) ↔ In a xs
unfolding unique
mem-unique a xs = (mem-unique_from a [] xs, λ m. mem-unique_from_of_mem a [] xs m refl)

not-mem-unique_from :
    (a : String) (seen xs : List String) → contains seen a ≡ true → ¬ In a (unique_from seen xs)
unfolding unique_from
not-mem-unique_from a seen [] h m = m
not-mem-unique_from a seen (x ∷ xs) h m =
    ground (arith, eq_iff x a, not-mem-unique_from a seen xs, not-mem-unique_from a (x ∷ seen) xs)

unique_from-Distinct : (seen xs : List String) → Distinct (unique_from seen xs)
unfolding unique_from
unique_from-Distinct seen [] = tt
unique_from-Distinct seen (x ∷ xs) = elim (Bool-cases (contains seen x)) [
  | inl k ↦ rw k (unique_from-Distinct seen xs)
  | inr k ↦ rw k (
    not-mem-unique_from x (x ∷ seen) xs (rw (eq_refl x) refl),
    unique_from-Distinct (x ∷ seen) xs,
  )
]

pub unique-Distinct : (xs : List String) → Distinct (unique xs)
unfolding unique
unique-Distinct xs = unique_from-Distinct [] xs
