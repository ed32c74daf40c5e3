-- ===== src/Base/Sort.antt =====
-- `Array.prototype.sort`: stable, so with a consistent comparator its result is that of a stable
-- insertion. `le x y` is `comparator(x, y) <= 0`.
use mathlib.Core.Path.{◌≡◌, sym, ap, ◌∙◌}
use mathlib.Core.Logic.{◌≢◌, ◌↔◌, ◌⊎◌, inl, inr}
use mathlib.Core.Bool.{Bool, true, false}
use mathlib.Core.List.{List, [], ◌∷◌, map, Perm}
use mathlib.Core.List.Perm
use native.Mathlib.Omega.{arith}
use metaclaw.Base.Tests.{Bool-cases, if◌then◌else◌}
use metaclaw.Base.Lists.{In, All, All-mem, All-of_mem, Distinct, mem-map, mem-map_of_mem}

module _ {A : Type 0} (le : A → A → Bool) where
  insert : A → List A → List A
  insert x [] = x ∷ []
  insert x (y ∷ ys) = if le x y then x ∷ y ∷ ys else y ∷ insert x ys

  unfoldable pub sort_by : List A → List A
  unfolding insert
  sort_by [] = []
  sort_by (x ∷ xs) = insert x (sort_by xs)

  mem-insert : (a x : A) (xs : List A) → In a (insert x xs) → In a (x ∷ xs)
  unfolding insert
  mem-insert a x [] m = m
  mem-insert a x (y ∷ ys) m = ground (arith, mem-insert a x ys)

  mem-insert_of_mem : (a x : A) (xs : List A) → In a (x ∷ xs) → In a (insert x xs)
  unfolding insert
  mem-insert_of_mem a x [] m = m
  mem-insert_of_mem a x (y ∷ ys) m = ground (arith, mem-insert_of_mem a x ys)

  mem-sort_by_left : (a : A) (xs : List A) → In a (sort_by xs) → In a xs
  unfolding sort_by
  mem-sort_by_left a [] m = m
  mem-sort_by_left a (x ∷ xs) m = elim (mem-insert a x (sort_by xs) m) [
    | inl e ↦ inl e
    | inr n ↦ inr (mem-sort_by_left a xs n)
  ]

  mem-sort_by_right : (a : A) (xs : List A) → In a xs → In a (sort_by xs)
  unfolding sort_by
  mem-sort_by_right a [] m = m
  mem-sort_by_right a (x ∷ xs) (inl e) = mem-insert_of_mem a x (sort_by xs) (inl e)
  mem-sort_by_right a (x ∷ xs) (inr m) =
      mem-insert_of_mem a x (sort_by xs) (inr (mem-sort_by_right a xs m))

  -- Sorting keeps the items.
  pub mem-sort_by : (a : A) (xs : List A) → In a (sort_by xs) ↔ In a xs
  mem-sort_by a xs = (mem-sort_by_left a xs, mem-sort_by_right a xs)

  insert-Perm : (x : A) (xs : List A) → Perm (insert x xs) (x ∷ xs)
  unfolding insert
  insert-Perm x [] = Perm.rfl
  insert-Perm x (y ∷ ys) = elim (Bool-cases (le x y)) [
    | inl k ↦ rw k Perm.rfl
    | inr k ↦ rw k (Perm.trans (Perm.cons y (insert-Perm x ys)) (Perm.swap x y ys))
  ]

  -- Sorting keeps every item as often as it was.
  pub sort_by-Perm : (xs : List A) → Perm (sort_by xs) xs
  unfolding sort_by
  sort_by-Perm [] = Perm.rfl
  sort_by-Perm (x ∷ xs) = Perm.trans (insert-Perm x (sort_by xs)) (Perm.cons x (sort_by-Perm xs))

  insert-Distinct : (x : A) (xs : List A) → ¬ In x xs → Distinct xs → Distinct (insert x xs)
  unfolding insert
  insert-Distinct x [] h d = (h, tt)
  insert-Distinct x (y ∷ ys) h d = elim (Bool-cases (le x y)) [
    | inl k ↦ rw k (h, d)
    | inr k ↦ rw k (λ m. apart (mem-insert y x ys m), insert-Distinct x ys (λ m. h (inr m)) d.1)
  ]
    where
      apart : In y (x ∷ ys) → ⊥
      apart (inl e) = h (inl (sym e))
      apart (inr m) = d.0 m

  pub sort_by-Distinct : (xs : List A) → Distinct xs → Distinct (sort_by xs)
  unfolding sort_by
  sort_by-Distinct [] d = d
  sort_by-Distinct (x ∷ xs) d =
      insert-Distinct x (sort_by xs) (λ m. d.0 ((mem-sort_by x xs).0 m)) (sort_by-Distinct xs d.1)

  module _ {B : Type 0} (f : A → B) where
    mem-map-insert :
        (b : B) (x : A) (xs : List A) → In b (map f (insert x xs)) → (b ≡ f x) ⊎ In b (map f xs)
    unfolding insert
    mem-map-insert b x [] m = m
    mem-map-insert b x (y ∷ ys) m = ground (arith, mem-map-insert b x ys)

    insert-Distinct-map :
        (x : A) (xs : List A)
        → ¬ In (f x) (map f xs)
        → Distinct (map f xs)
        → Distinct (map f (insert x xs))
    unfolding insert
    insert-Distinct-map x [] h d = (h, tt)
    insert-Distinct-map x (y ∷ ys) h d = elim (Bool-cases (le x y)) [
      | inl k ↦ rw k (h, d)
      | inr k ↦
          rw k (
            λ m. apart (mem-map-insert (f y) x ys m),
            insert-Distinct-map x ys (λ m. h (inr m)) d.1,
          )
    ]
      where
        apart : (f y ≡ f x) ⊎ In (f y) (map f ys) → ⊥
        apart (inl e) = h (inl (sym e))
        apart (inr m) = d.0 m

    -- Sorting keeps what the items are told apart by.
    pub sort_by-Distinct-map : (xs : List A) → Distinct (map f xs) → Distinct (map f (sort_by xs))
    unfolding sort_by
    sort_by-Distinct-map [] d = d
    sort_by-Distinct-map (x ∷ xs) d =
        insert-Distinct-map x (sort_by xs) (λ m. d.0 (back m)) (sort_by-Distinct-map xs d.1)
      where
        back : In (f x) (map f (sort_by xs)) → In (f x) (map f xs)
        back m =
            let (a, n, e) = mem-map f (f x) (sort_by xs) m in
            rw e (mem-map_of_mem f a xs ((mem-sort_by a xs).0 n))

  -- Every item stands before those that follow it.
  abbrev pub Sorted : List A → Type 0
  Sorted [] = Unit
  Sorted (x ∷ xs) = All (λ y. le x y ≡ true) xs × Sorted xs

  module _ (total : (x y : A) → (le x y ≡ true) ⊎ (le y x ≡ true))
      (transitive : (x y z : A) → le x y ≡ true → le y z ≡ true → le x z ≡ true) where
    insert-Sorted : (x : A) (xs : List A) → Sorted xs → Sorted (insert x xs)
    unfolding insert
    insert-Sorted x [] s = (tt, tt)
    insert-Sorted x (y ∷ ys) s = elim (Bool-cases (le x y)) [
      | inl k ↦ rw k ((k, after k), s)
      | inr k ↦ rw k (below k, insert-Sorted x ys s.1)
    ]
      where
        after : le x y ≡ true → All (λ z. le x z ≡ true) ys
        after k =
            All-of_mem (λ z. le x z ≡ true) ys
              (λ z m. transitive x y z k (All-mem (λ w. le y w ≡ true) z ys s.0 m))

        back : le x y ≡ false → le y x ≡ true
        back k = elim (total x y) [ inl e ↦ absurd (cc) | inr e ↦ e ]

        one : le x y ≡ false → (z : A) → In z (x ∷ ys) → le y z ≡ true
        one k z (inl e) = rw e (back k)
        one k z (inr m) = All-mem (λ w. le y w ≡ true) z ys s.0 m

        below : le x y ≡ false → All (λ z. le y z ≡ true) (insert x ys)
        below k =
            All-of_mem (λ z. le y z ≡ true) (insert x ys) (λ z m. one k z (mem-insert z x ys m))

    pub sort_by-Sorted : (xs : List A) → Sorted (sort_by xs)
    unfolding sort_by
    sort_by-Sorted [] = tt
    sort_by-Sorted (x ∷ xs) = insert-Sorted x (sort_by xs) (sort_by-Sorted xs)

-- `a` stands somewhere before `b`.
abbrev pub Before : {A : Type 0} → A → A → List A → Type 0
Before a b [] = ⊥
Before a b (x ∷ xs) = ((a ≡ x) × In b xs) ⊎ Before a b xs

-- In a sorted list, of two items that are out of order one way the other stands first.
pub Sorted-Before :
    {A : Type 0} (le : A → A → Bool) (a b : A) (xs : List A)
    → Sorted le xs
    → In a xs
    → In b xs
    → le b a ≡ false
    → a ≢ b
    → Before a b xs
Sorted-Before le a b [] s m n h ne = m
Sorted-Before le a b (x ∷ xs) s (inl e) (inl f) h ne = absurd (ne (e ∙ sym f))
Sorted-Before le a b (x ∷ xs) s (inl e) (inr n) h ne = inl (e, n)
Sorted-Before le a b (x ∷ xs) s (inr m) (inl f) h ne =
    let back : le b a ≡ true = rw f (All-mem (λ y. le x y ≡ true) a xs s.0 m) in cc
Sorted-Before le a b (x ∷ xs) s (inr m) (inr n) h ne = inr (Sorted-Before le a b xs s.1 m n h ne)

pub Before-map :
    {A B : Type 0} (f : A → B) (a b : A) (xs : List A)
    → Before a b xs
    → Before (f a) (f b) (map f xs)
Before-map f a b [] h = h
Before-map f a b (x ∷ xs) (inl (e, n)) = inl (ap f e, mem-map_of_mem f b xs n)
Before-map f a b (x ∷ xs) (inr h) = inr (Before-map f a b xs h)
