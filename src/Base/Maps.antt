-- ===== src/Base/Maps.antt =====
-- `Map<string, V>`: the entries in the order of first insertion; a later `set` of a key keeps its
-- place.
use Prim.Native.String.{String}
use mathlib.Core.Path.{◌≡◌, refl, ◌∙◌}
use mathlib.Core.Logic.{◌⊎◌, inl, inr}
use mathlib.Core.Bool.{Bool, false}
use mathlib.Core.Option.{Option, none, some}
use mathlib.Core.List.{List, [], ◌∷◌, map}
use native.Mathlib.Omega.{arith}
use text.Mathlib.TextEquality.{eq_iff}
use text.Mathlib.TextPositions.{eq_refl}
use metaclaw.Base.Tests.{Bool-cases, if◌then◌else◌, ◌==◌, is_some}
use metaclaw.Base.Lists.{In, Distinct, mem-map_of_mem}

abbrev pub Dict : Type 0 → Type 0
Dict V = List (String × V)

module _ {V : Type 0} where
  unfoldable pub get : String → Dict V → Option V
  get k [] = none
  get k ((j, v) ∷ m) = if j == k then some v else get k m

  unfoldable pub set : String → V → Dict V → Dict V
  set k v [] = (k, v) ∷ []
  set k v ((j, w) ∷ m) = if j == k then (j, v) ∷ m else (j, w) ∷ set k v m

  unfoldable pub has : String → Dict V → Bool
  unfolding get
  has k m = is_some (get k m)

  unfoldable pub keys : Dict V → List String
  keys m = map (λ e. e.0) m

  pub get-set :
      (k j : String) (v : V) (m : Dict V) → get j (set k v m) ≡ (if k == j then some v else get j m)
  unfolding get set
  get-set k j v [] = refl
  get-set k j v ((i, w) ∷ m) = ground (arith, eq_iff k j, eq_iff i k, eq_iff i j, get-set k j v m)

module _ {V : Type 0} where
  pub mem_of_get : (k : String) (v : V) (m : Dict V) → get k m ≡ some v → In (k, v) m
  unfolding get
  mem_of_get k v [] h = cc
  mem_of_get k v ((j, w) ∷ m) h = elim (Bool-cases (j == k)) [
    | inl e ↦ let same_value : v ≡ w = ground arith in inl (cc ((eq_iff j k).0 e))
    | inr e ↦ inr (mem_of_get k v m (ground arith))
  ]

  -- No key stands twice.
  abbrev pub DistinctKeys : Dict V → Type 0
  DistinctKeys m = Distinct (map (λ e. e.0) m)

  pub get_of_mem :
      (k : String) (v : V) (m : Dict V) → DistinctKeys m → In (k, v) m → get k m ≡ some v
  unfolding get
  get_of_mem k v [] d h = absurd h
  get_of_mem k v ((j, w) ∷ m) d (inl e) = ground (arith, eq_iff j k)
  get_of_mem k v ((j, w) ∷ m) d (inr h) = elim (Bool-cases (j == k)) [
    | inl same_key ↦
        absurd (d.0 (rw ((eq_iff j k).0 same_key) (mem-map_of_mem (λ e. e.0) (k, v) m h)))
    | inr other ↦ rw other (get_of_mem k v m d.1 h)
  ]

  mem-keys-set :
      (i k : String) (v : V) (m : Dict V)
      → In i (map (λ e. e.0) (set k v m))
      → (i ≡ k) ⊎ In i (map (λ e. e.0) m)
  unfolding set
  mem-keys-set i k v [] h = h
  mem-keys-set i k v ((j, w) ∷ m) h = ground (arith, mem-keys-set i k v m)

  pub set-DistinctKeys :
      (k : String) (v : V) (m : Dict V) → DistinctKeys m → DistinctKeys (set k v m)
  unfolding set
  set-DistinctKeys k v [] d = (λ h. h, tt)
  set-DistinctKeys k v ((j, w) ∷ m) d = elim (Bool-cases (j == k)) [
    | inl e ↦ rw e d
    | inr e ↦ rw e (λ h. apart e (mem-keys-set j k v m h), set-DistinctKeys k v m d.1)
  ]
    where
      apart : (j == k) ≡ false → (j ≡ k) ⊎ In j (map (λ e. e.0) m) → ⊥
      apart e (inl same_key) = ground (arith, eq_iff j k)
      apart e (inr h) = d.0 h

-- `new Map(items.map(item => [key(item), item]))`: a later item of the same key replaces the value.
module _ {V : Type 0} (key : V → String) where
  index_from : Dict V → List V → Dict V
  index_from m [] = m
  index_from m (x ∷ xs) = index_from (set (key x) x m) xs

  unfoldable pub index_by : List V → Dict V
  unfolding index_from
  index_by xs = index_from [] xs

  get-index_from :
      (k : String) (m : Dict V) (xs : List V) (v : V)
      → get k (index_from m xs) ≡ some v
      → (In v xs × (key v ≡ k)) ⊎ (get k m ≡ some v)
  unfolding index_from
  get-index_from k m [] v h = inr h
  get-index_from k m (x ∷ xs) v h = step (get-index_from k (set (key x) x m) xs v h)
    where
      step :
          (In v xs × (key v ≡ k)) ⊎ (get k (set (key x) x m) ≡ some v)
          → (In v (x ∷ xs) × (key v ≡ k)) ⊎ (get k m ≡ some v)
      step o = ground (arith, get-set (key x) k x m, eq_iff (key x) k)

  -- What the map finds is an item of the list, under its own key.
  pub get-index_by :
      (k : String) (xs : List V) (v : V) → get k (index_by xs) ≡ some v → In v xs × (key v ≡ k)
  unfolding index_by get
  get-index_by k xs v h = elim (get-index_from k [] xs v h) [ inl r ↦ r | inr e ↦ absurd (cc) ]

  index_from-kept :
      (k : String) (m : Dict V) (xs : List V) (v : V)
      → get k m ≡ some v
      → (w : V) × (get k (index_from m xs) ≡ some w)
  unfolding index_from
  index_from-kept k m [] v h = (v, h)
  index_from-kept k m (x ∷ xs) v h = elim (Bool-cases (key x == k)) [
    | inl e ↦ index_from-kept k (set (key x) x m) xs x (ground (arith, get-set (key x) k x m))
    | inr e ↦ index_from-kept k (set (key x) x m) xs v (ground (arith, get-set (key x) k x m))
  ]

  index_from_of_mem :
      (m : Dict V) (xs : List V) (v : V)
      → In v xs
      → (w : V) × (get (key v) (index_from m xs) ≡ some w)
  unfolding index_from
  index_from_of_mem m [] v h = absurd h
  index_from_of_mem m (x ∷ xs) v (inl e) =
      index_from-kept (key v) (set (key x) x m) xs x
        (rw e (get-set (key x) (key x) x m ∙ rw (eq_refl (key x)) refl))
  index_from_of_mem m (x ∷ xs) v (inr h) = index_from_of_mem (set (key x) x m) xs v h

  -- Every item's key is found.
  pub index_by_of_mem :
      (xs : List V) (v : V) → In v xs → (w : V) × (get (key v) (index_by xs) ≡ some w)
  unfolding index_by
  index_by_of_mem xs v h = index_from_of_mem [] xs v h
