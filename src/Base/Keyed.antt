-- ===== src/Base/Keyed.antt =====
-- Lists whose items are told apart by a key.
use mathlib.Core.Path.{◌≡◌, refl, sym, ap}
use mathlib.Core.Logic.{inl, inr}
use mathlib.Core.Bool.{Bool, true, false}
use mathlib.Core.Option.{some}
use mathlib.Core.List.{List, [], ◌∷◌, ◌++◌, map}
use native.Mathlib.Omega.{arith}
use metaclaw.Base.Tests.{Bool-cases, eqb}
use metaclaw.Base.Lists.{
  In, Distinct, length, filter, find, mem-map, mem-map_of_mem, mem-filter, mem-append,
}

module _ {A : Type 0} where
  pub map-agree :
      {B : Type 0} (f g : A → B) (xs : List A)
      → ((x : A) → In x xs → f x ≡ g x)
      → map f xs ≡ map g xs
  map-agree f g [] h = refl
  map-agree f g (x ∷ xs) h = rw (h x (inl refl), map-agree f g xs (λ y m. h y (inr m))) refl

  pub map-same : (f : A → A) (xs : List A) → ((x : A) → In x xs → f x ≡ x) → map f xs ≡ xs
  map-same f [] h = refl
  map-same f (x ∷ xs) h = rw (h x (inl refl), map-same f xs (λ y m. h y (inr m))) refl

  pub find_of_only :
      (p : A → Bool) (x : A) (xs : List A)
      → In x xs
      → p x ≡ true
      → ((y : A) → In y xs → p y ≡ true → y ≡ x)
      → find p xs ≡ some x
  find_of_only p x [] m h u = absurd m
  find_of_only p x (y ∷ ys) m h u = elim (Bool-cases (p y)) [
    | inl e ↦ rw e (ap some (u y (inl refl) e))
    | inr e ↦ elim m [
      | inl same ↦ absurd (ground (arith, rw (same, e) at h))
      | inr n ↦ rw e (find_of_only p x ys n h (λ z k q. u z (inr k) q))
    ]
  ]

  pub filter-one :
      (p : A → Bool) (xs : List A)
      → eqb (length (filter p xs)) 1 ≡ true
      → (x : A) × In x xs × (p x ≡ true)
  filter-one p xs h = go (filter p xs) refl
    where
      go : (ys : List A) → filter p xs ≡ ys → (x : A) × In x xs × (p x ≡ true)
      go [] e = absurd (ground (arith, rw e at h))
      go (y ∷ ys) e = let (m, q) = mem-filter p y xs (rw e (inl refl)) in (y, m, q)

  pub filter-none :
      (p : A → Bool) (xs : List A) → ((x : A) → In x xs → p x ≡ false) → filter p xs ≡ []
  filter-none p [] h = refl
  filter-none p (x ∷ xs) h = rw (h x (inl refl)) (filter-none p xs (λ y m. h y (inr m)))

  -- One item passes the test, and no other.
  pub filter-only :
      (p : A → Bool) {B : Type 0} (key : A → B) (x : A) (xs : List A)
      → In x xs
      → p x ≡ true
      → Distinct (map key xs)
      → ((y : A) → In y xs → p y ≡ true → key y ≡ key x)
      → length (filter p xs) ≡ 1
  filter-only p key x [] m h d u = absurd m
  filter-only p key x (y ∷ ys) m h d u = elim (Bool-cases (p y)) [
    | inl e ↦ rw (e, filter-none p ys (others e)) refl
    | inr e ↦ elim m [
      | inl same ↦ absurd (ground (arith, rw (same, e) at h))
      | inr n ↦ rw e (filter-only p key x ys n h d.1 (λ z k q. u z (inr k) q))
    ]
  ]
    where
      others : p y ≡ true → (z : A) → In z ys → p z ≡ false
      others e z k = elim (Bool-cases (p z)) [
        | inr q ↦ q
        | inl q ↦ absurd (d.0 (rw (u y (inl refl) e, ← u z (inr k) q) (mem-map_of_mem key z ys k)))
      ]

module _ {A B : Type 0} (key : A → B) where
  pub snoc-Distinct :
      (x : A) (xs : List A)
      → ¬ In (key x) (map key xs)
      → Distinct (map key xs)
      → Distinct (map key (xs ++ x ∷ []))
  snoc-Distinct x [] n d = (λ m. absurd m, tt)
  snoc-Distinct x (y ∷ ys) n d = (
    λ m.
        let (z, i, e) = mem-map key (key y) (ys ++ x ∷ []) m in
        elim (mem-append z ys (x ∷ []) i) [
          | inl j ↦ d.0 (rw e (mem-map_of_mem key z ys j))
          | inr j ↦ elim j [ inl same ↦ n (inl (rw (← same) (sym e))) | inr k ↦ absurd k ]
        ],
    snoc-Distinct x ys (λ m. n (inr m)) d.1,
  )

  pub same_by_key :
      (xs : List A) (r s : A) → Distinct (map key xs) → In r xs → In s xs → key r ≡ key s → r ≡ s
  same_by_key [] r s d i j e = absurd i
  same_by_key (x ∷ xs) r s d (inl p) (inl q) e = cc
  same_by_key (x ∷ xs) r s d (inl p) (inr j) e =
      absurd (d.0 (rw (← p, e) (mem-map_of_mem key s xs j)))
  same_by_key (x ∷ xs) r s d (inr i) (inl q) e =
      absurd (d.0 (rw (← q, ← e) (mem-map_of_mem key r xs i)))
  same_by_key (x ∷ xs) r s d (inr i) (inr j) e = same_by_key xs r s d.1 i j e

  pub map-keeps :
      (f : A → A) (xs : List A) → ((x : A) → key (f x) ≡ key x) → map key (map f xs) ≡ map key xs
  map-keeps f [] h = refl
  map-keeps f (x ∷ xs) h = rw (h x, map-keeps f xs h) refl

  pub filter-Distinct :
      (p : A → Bool) (xs : List A) → Distinct (map key xs) → Distinct (map key (filter p xs))
  filter-Distinct p [] d = tt
  filter-Distinct p (x ∷ xs) d = elim (Bool-cases (p x)) [
    | inr skip ↦ rw skip (filter-Distinct p xs d.1)
    | inl keep ↦ rw keep (λ m. d.0 (back m), filter-Distinct p xs d.1)
  ]
    where
      back : In (key x) (map key (filter p xs)) → In (key x) (map key xs)
      back m =
          let (y, n, e) = mem-map key (key x) (filter p xs) m in
          rw e (mem-map_of_mem key y xs (mem-filter p y xs n).0)
