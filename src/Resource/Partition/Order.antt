-- ===== src/Resource/Partition/Order.antt =====
-- `partitionCovers` orders the normalised identities, and conflict is symmetric.
use metaclaw.Base.{
  ◌≡◌, refl, true, ◌||◌, Option, none, some, String, List, [], ◌∷◌, length, split, arith, eq_iff,
  eq_refl,
}
use metaclaw.Host.{Host}
use metaclaw.Resource.{
  PartitionIdentity, repository, worktree, path, logical, external_object, ResourceClaim,
}
use metaclaw.Resource.Partition.{
  leads, matches, wild, segment_pattern_covers, path_covers, covers, normalize_partition_identity,
  partition_covers, resource_claims_conflict, is_write,
}

leads_trans :
    (xs ys zs : List String) → leads xs ys ≡ true → leads ys zs ≡ true → leads xs zs ≡ true
leads_trans [] ys zs h k = refl
leads_trans (x ∷ xs) [] zs h k = cc
leads_trans (x ∷ xs) (y ∷ ys) [] h k = cc
leads_trans (x ∷ xs) (y ∷ ys) (z ∷ zs) h k =
    ground (arith, eq_iff x y, eq_iff y z, eq_iff x z, leads_trans xs ys zs)

matches_trans :
    (xs ys zs : List String)
    → length xs ≡ length ys
    → length ys ≡ length zs
    → matches xs ys ≡ true
    → matches ys zs ≡ true
    → matches xs zs ≡ true
matches_trans [] ys zs l m h k = refl
matches_trans (x ∷ xs) [] zs l m h k = absurd (omega arith)
matches_trans (x ∷ xs) (y ∷ ys) [] l m h k = absurd (omega arith)
matches_trans (x ∷ xs) (y ∷ ys) (z ∷ zs) l m h k =
    ground (
      arith,
      eq_iff x y,
      eq_iff y z,
      eq_iff x z,
      eq_iff x "*",
      eq_iff y "*",
      matches_trans xs ys zs,
    )

path_covers_trans :
    (p q r : String) → path_covers p q ≡ true → path_covers q r ≡ true → path_covers p r ≡ true
unfolding path_covers
path_covers_trans p q r h k =
    ground (arith, leads_trans (split b'/' p) (split b'/' q) (split b'/' r))

segment_pattern_covers_trans :
    (p q r : String)
    → segment_pattern_covers p q ≡ true
    → segment_pattern_covers q r ≡ true
    → segment_pattern_covers p r ≡ true
unfolding segment_pattern_covers
segment_pattern_covers_trans p q r h k =
    ground (arith, matches_trans (split b'/' p) (split b'/' q) (split b'/' r))

wild_trans : (a b c : String) → wild a b ≡ true → wild b c ≡ true → wild a c ≡ true
unfolding wild
wild_trans a b c h k =
    ground (arith, eq_iff a b, eq_iff b c, eq_iff a c, eq_iff a "*", eq_iff b "*")

covers_trans :
    (a b c : PartitionIdentity) → covers a b ≡ true → covers b c ≡ true → covers a c ≡ true
unfolding covers
covers_trans (repository r) (repository r') (repository r'') h k =
    ground (arith, eq_iff r r', eq_iff r' r'', eq_iff r r'')
covers_trans (repository r) (repository r') (worktree r'' w'') h k =
    ground (arith, eq_iff r r', eq_iff r' r'', eq_iff r r'')
covers_trans (repository r) (worktree r' w') (worktree r'' w'') h k =
    ground (arith, eq_iff r r', eq_iff r' r'', eq_iff r r'')
covers_trans (worktree r w) (worktree r' w') (worktree r'' w'') h k =
    ground
      (arith, eq_iff r r', eq_iff r' r'', eq_iff r r'', eq_iff w w', eq_iff w' w'', eq_iff w w'')
covers_trans (path m p) (path m' p') (path m'' p'') h k =
    ground (arith, eq_iff m m', eq_iff m' m'', eq_iff m m'', path_covers_trans p p' p'')
covers_trans (logical n k) (logical n' k') (logical n'' k'') h g =
    ground (arith, wild_trans n n' n'', segment_pattern_covers_trans k k' k'')
covers_trans (external_object p a c o) (external_object p' a' c' o')
      (external_object p'' a'' c'' o'') h k =
    ground (
      arith,
      wild_trans p p' p'',
      wild_trans a a' a'',
      wild_trans c c' c'',
      segment_pattern_covers_trans o o' o'',
    )
covers_trans _ _ _ h k = cc

leads_refl : (xs : List String) → leads xs xs ≡ true
leads_refl [] = refl
leads_refl (x ∷ xs) = rw (eq_refl x) (leads_refl xs)

matches_refl : (xs : List String) → matches xs xs ≡ true
matches_refl [] = refl
matches_refl (x ∷ xs) = ground (arith, eq_iff x x, matches_refl xs)

path_covers_refl : (p : String) → path_covers p p ≡ true
unfolding path_covers
path_covers_refl p = ground (arith, leads_refl (split b'/' p))

segment_pattern_covers_refl : (p : String) → segment_pattern_covers p p ≡ true
unfolding segment_pattern_covers
segment_pattern_covers_refl p = ground (arith, matches_refl (split b'/' p))

wild_refl : (a : String) → wild a a ≡ true
unfolding wild
wild_refl a = ground (arith, eq_iff a a)

covers_refl : (a : PartitionIdentity) → covers a a ≡ true
unfolding covers
covers_refl (repository r) = eq_refl r
covers_refl (worktree r w) = ground (arith, eq_iff r r, eq_iff w w)
covers_refl (path m p) = ground (arith, eq_iff m m, path_covers_refl p)
covers_refl (logical n k) = ground (arith, wild_refl n, segment_pattern_covers_refl k)
covers_refl (external_object p a c o) =
    ground (arith, wild_refl p, wild_refl a, wild_refl c, segment_pattern_covers_refl o)

module _ (host : Host) where
  -- If a partition covers a second and the second a third, the first covers the third, wildcards
  -- included.
  pub partition_covers_trans :
      (a b c : PartitionIdentity)
      → partition_covers host a b ≡ some true
      → partition_covers host b c ≡ some true
      → partition_covers host a c ≡ some true
  unfolding partition_covers
  partition_covers_trans a b c h k =
      through (normalize_partition_identity host a) (normalize_partition_identity host b)
        (normalize_partition_identity host c) refl refl refl
    where
      through :
          (na nb nc : Option PartitionIdentity)
          → normalize_partition_identity host a ≡ na
          → normalize_partition_identity host b ≡ nb
          → normalize_partition_identity host c ≡ nc
          → partition_covers host a c ≡ some true
      through none nb nc e f g = ground arith
      through (some a') none nc e f g = ground arith
      through (some a') (some b') none e f g = ground arith
      through (some a') (some b') (some c') e f g = ground (arith, covers_trans a' b' c')

  -- A partition that can be normalised covers itself.
  pub partition_covers_refl :
      (a a' : PartitionIdentity)
      → normalize_partition_identity host a ≡ some a'
      → partition_covers host a a ≡ some true
  unfolding partition_covers
  partition_covers_refl a a' e = ground (arith, covers_refl a')

  -- Whether two resource claims conflict, or an error is thrown, does not depend on their order.
  pub resource_claims_conflict_comm :
      (left right : ResourceClaim)
      → resource_claims_conflict host left right ≡ resource_claims_conflict host right left
  unfolding resource_claims_conflict partition_covers
  resource_claims_conflict_comm left right = ground arith

  -- Two reads never conflict.
  pub conflict_needs_write :
      (left right : ResourceClaim)
      → resource_claims_conflict host left right ≡ some true
      → (is_write left.access || is_write right.access) ≡ true
  unfolding resource_claims_conflict
  conflict_needs_write left right h = ground arith
