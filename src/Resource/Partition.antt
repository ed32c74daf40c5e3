-- ===== src/Resource/Partition.antt =====
-- src/resource/partition.ts: identities are normalised, then compared. `none` is a thrown error.
pub mod Order
use metaclaw.Base.{
  ◌≡◌, refl, ℕ, Bool, true, false, ◌&&◌, ◌||◌, not, if◌then◌else◌, Option, none, some, leb, eqb,
  ◌==◌, String, ◌⧺◌, List, [], ◌∷◌, map, trim, is_empty, any_char, split, join, length,
}
use Prim.Native.Char.{code}
use metaclaw.Host.{Host}
use metaclaw.Resource.{
  PartitionIdentity, repository, worktree, path, logical, external_object, ResourceClaim,
  AccessMode, read, write,
}

is_control : ℕ → Bool
is_control c = leb c 0x1f || eqb c 0x7f

infixl 5 ◌>>=◌
abbrev pub ◌>>=◌ : {A B : Type 0} → Option A → (A → Option B) → Option B
none >>= f = none
some a >>= f = f a

-- A chain that succeeds does so at each step.
pub >>=-eq-some :
    {A B : Type 0} (m : Option A) (f : A → Option B) {b : B}
    → (m >>= f) ≡ some b
    → (a : A) × (m ≡ some a) × (f a ≡ some b)
>>=-eq-some none f h = cc
>>=-eq-some (some a) f h = (a, refl, h)

-- The loop over the segments: empty ones and `.` are passed over.
unfoldable pub normalize_segments : Bool → List String → Option (List String)
unfolding is_control
normalize_segments allow_wildcard [] = some []
normalize_segments allow_wildcard (s ∷ rest) =
    let later = normalize_segments allow_wildcard rest in
    if is_empty s || s == "."
    then later
    else if s == ".." || any_char is_control s
    then none
    else if any_char (λ c. eqb c b'*') s && (not allow_wildcard || not (s == "*"))
    then none
    else (later >>= λ segments. some (s ∷ segments))

-- `replace(/\\/gu, '/')`: 92 is the backslash.
slashes : String → String
slashes String.[] = ""
slashes (String.◌∷◌ c s) = if eqb (code c) 92 then "/" ⧺ slashes s else String.◌∷◌ c (slashes s)

-- `parentSegments.every((segment, index) => segment === childSegments[index])`
abbrev pub leads : List String → List String → Bool
leads [] ys = true
leads (x ∷ xs) [] = false
leads (x ∷ xs) (y ∷ ys) = x == y && leads xs ys

-- The same for a pattern, where `*` stands for any segment.
abbrev pub matches : List String → List String → Bool
matches [] ys = true
matches (x ∷ xs) [] = x == "*" && matches xs []
matches (x ∷ xs) (y ∷ ys) = (x == "*" || x == y) && matches xs ys

unfoldable pub segment_pattern_covers : String → String → Bool
segment_pattern_covers pattern_text concrete =
    let pattern_segments = split b'/' pattern_text in
    let concrete_segments = split b'/' concrete in
    if not (eqb (length pattern_segments) (length concrete_segments))
    then false
    else matches pattern_segments concrete_segments

unfoldable pub path_covers : String → String → Bool
path_covers parent child =
    let parent_segments = split b'/' parent in
    let child_segments = split b'/' child in
    leb (length parent_segments) (length child_segments) && leads parent_segments child_segments

-- `pattern === '*' || pattern === name`
unfoldable pub wild : String → String → Bool
wild pattern_text name = pattern_text == "*" || pattern_text == name

-- The comparison of `partitionCovers`, after the normalisation.
unfoldable pub covers : PartitionIdentity → PartitionIdentity → Bool
covers (repository r) (repository r') = r == r'
covers (repository r) (worktree r' w') = r == r'
covers (worktree r w) (worktree r' w') = r == r' && w == w'
covers (path m p) (path m' p') = m == m' && path_covers p p'
covers (logical n k) (logical n' k') = wild n n' && segment_pattern_covers k k'
covers (external_object p a c o) (external_object p' a' c' o') =
    wild p p' && wild a a' && wild c c' && segment_pattern_covers o o'
covers _ _ = false

abbrev pub is_write : AccessMode → Bool
is_write write = true
is_write read = false

module _ (host : Host) where
  open host use {nfc, lower}

  unfoldable pub normalize_opaque_segment : Bool → String → Option String
  unfolding is_control
  normalize_opaque_segment allow_wildcard value =
      let normalized = trim (nfc value) in
      if is_empty normalized
        || any_char is_control normalized
        || any_char (λ c. eqb c b'/') normalized
        || any_char (λ c. eqb c 92) normalized
      then none
      else if not allow_wildcard && normalized == "*"
      then none
      else some normalized

  unfoldable pub normalize_segmented_value : Bool → String → Option String
  unfolding normalize_segments slashes
  normalize_segmented_value allow_wildcard value =
      normalize_segments allow_wildcard (split b'/' (slashes (nfc value))) >>= λ segments.
      elim segments [ [] ↦ none | s ∷ rest ↦ some (join "/" (s ∷ rest)) ]

  unfoldable pub normalize_partition_identity : PartitionIdentity → Option PartitionIdentity
  unfolding normalize_opaque_segment normalize_segmented_value
  normalize_partition_identity (repository r) = do
    r' ← normalize_opaque_segment false r
    some (repository r')
  normalize_partition_identity (worktree r w) = do
    r' ← normalize_opaque_segment false r
    w' ← normalize_opaque_segment false w
    some (worktree r' w')
  normalize_partition_identity (path m p) = do
    m' ← normalize_opaque_segment false m
    p' ← normalize_segmented_value false p
    some (path (lower m') p')
  normalize_partition_identity (logical n k) = do
    n' ← normalize_opaque_segment true n
    k' ← normalize_segmented_value true k
    some (logical (lower n') k')
  normalize_partition_identity (external_object p a c o) = do
    p' ← normalize_opaque_segment true p
    a' ← normalize_opaque_segment true a
    c' ← normalize_opaque_segment true c
    o' ← normalize_segmented_value true o
    some (external_object (lower p') a' c' o')

  unfoldable pub partition_covers : PartitionIdentity → PartitionIdentity → Option Bool
  unfolding normalize_partition_identity covers wild path_covers segment_pattern_covers
  partition_covers parent_input child_input = do
    parent ← normalize_partition_identity parent_input
    child ← normalize_partition_identity child_input
    some (covers parent child)

  -- `||` makes the second call only if the first says no.
  unfoldable pub partitions_overlap : PartitionIdentity → PartitionIdentity → Option Bool
  unfolding partition_covers
  partitions_overlap left right = do
    one ← partition_covers left right
    if one then some true else partition_covers right left

  unfoldable pub resource_claims_conflict : ResourceClaim → ResourceClaim → Option Bool
  unfolding partitions_overlap
  resource_claims_conflict left right = do
    overlap ← partitions_overlap left.partition right.partition
    some (overlap && (is_write left.access || is_write right.access))
