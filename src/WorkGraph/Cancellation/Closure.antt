-- ===== src/WorkGraph/Cancellation/Closure.antt =====
-- What `deriveCancellationClosure` returns.
use metaclaw.Base.{
  ℕ, suc, ◌<◌, ◌≡◌, ap, ◌⊎◌, inl, inr, Bool, true, false, Option, some, String, List, [], In,
  Distinct, mem-map, mem-map_of_mem, length, unique, mem-unique, text_le, sort_by, mem-sort_by,
  sort_by-Distinct-map, Dict, get, DistinctKeys, set-DistinctKeys, mem_of_get, get_of_mem, Before,
  Before-map, Sorted-Before, sort_by-Sorted, arith,
}
use metaclaw.WorkGraph.Cancellation.{Node, next_of, depths_of, deeper_first, order_closure}
use metaclaw.WorkGraph.Cancellation.Dependents.{DependsOn, mem-next_of}
use metaclaw.WorkGraph.Cancellation.Visit.{
  visit, AtLeast, Progress, Within, visit-Progress, visit_all-Progress, visit-Within,
  visit_all-Within, visit-keeps, visit_all-keeps,
}

-- The targets and all that depends on them, directly or not.
pub data Downstream (graph : List Node) (targets : List String) : String → Type 0 where
  target : {t : String} → In t targets → Downstream graph targets t
  dependent :
      {j k : String} → Downstream graph targets k → DependsOn graph j k → Downstream graph targets j

pub record IsClosure (graph : List Node) (targets ids : List String) : Type 0 where
  pub has_targets : (t : String) → In t targets → In t ids
  pub has_dependents : (j k : String) → In k ids → DependsOn graph j k → In j ids
  pub only : (id : String) → In id ids → Downstream graph targets id
  pub distinct : Distinct ids

module _ (graph : List Node) (targets : List String) (depths : Dict ℕ)
    (visited : depths_of graph targets ≡ some depths) where
  abbrev next : String → List String
  next = next_of graph

  abbrev step : String → Dict ℕ → Option (Dict ℕ)
  step id d = visit next (suc (suc (length graph))) id 0 d

  depths-Progress :
      Progress next [] depths × ((t : String) → In t targets → AtLeast next depths t 0)
  unfolding depths_of
  depths-Progress =
      visit_all-Progress next step 0 (visit-Progress next (suc (suc (length graph))) 0) targets []
        depths visited

  depths-deeper :
      (j k : String) (n : ℕ)
      → get k depths ≡ some n
      → DependsOn graph j k
      → (m : ℕ) × (get j depths ≡ some m) × (n < m)
  unfolding get
  depths-deeper j k n e d = elim (depths-Progress.0.settled k n e) [
    | inl none_before ↦ absurd (cc)
    | inr below ↦ below j ((mem-next_of graph j k).1 d)
  ]

  depths-Downstream : Within (Downstream graph targets) depths
  unfolding depths_of get
  depths-Downstream =
      visit_all-Within (Downstream graph targets) step
        (λ id old new e p before.
          visit-Within next (Downstream graph targets)
            (λ k j p m. Downstream.dependent p ((mem-next_of graph j k).0 m))
            (suc (suc (length graph))) 0 id old new e p before)
        targets [] depths visited (λ id m. Downstream.target m) (λ k n e. absurd (cc))

  depths-DistinctKeys : DistinctKeys depths
  unfolding depths_of
  depths-DistinctKeys =
      visit_all-keeps (λ d. DistinctKeys d) step
        (visit-keeps next (λ d. DistinctKeys d) set-DistinctKeys (suc (suc (length graph))) 0)
        targets [] depths visited tt

  module _ (locale_le : String → String → Bool) where
    abbrev le : String × ℕ → String × ℕ → Bool
    le = deeper_first locale_le

    mem-order_closure :
        (id : String) → In id (order_closure locale_le depths) → (n : ℕ) × (get id depths ≡ some n)
    unfolding order_closure
    mem-order_closure id m =
        let ((k, n), h, e) = mem-map (λ e. e.0) id (sort_by le depths) m in
        (n, rw e (get_of_mem k n depths depths-DistinctKeys ((mem-sort_by le (k, n) depths).0 h)))

    mem-order_closure_of_get :
        (id : String) (n : ℕ) → get id depths ≡ some n → In id (order_closure locale_le depths)
    unfolding order_closure
    mem-order_closure_of_get id n e =
        mem-map_of_mem (λ e. e.0) (id, n) (sort_by le depths)
          ((mem-sort_by le (id, n) depths).1 (mem_of_get id n depths e))

    order_closure-Distinct : Distinct (order_closure locale_le depths)
    unfolding order_closure
    order_closure-Distinct = sort_by-Distinct-map le (λ e. e.0) depths depths-DistinctKeys

    pub order_closure-IsClosure : IsClosure graph targets (order_closure locale_le depths)
    order_closure-IsClosure = record {
      has_targets = λ t m. let (n, e, _) = depths-Progress.1 t m in mem-order_closure_of_get t n e;
      has_dependents = λ j k m d.
          let (n, e) = mem-order_closure k m in
          let (m', e', _) = depths-deeper j k n e d in mem-order_closure_of_get j m' e';
      only = λ id m. let (n, e) = mem-order_closure id m in depths-Downstream id n e;
      distinct = order_closure-Distinct;
    }

    module _ (total : (x y : String) → (locale_le x y ≡ true) ⊎ (locale_le y x ≡ true))
        (transitive : (x y z : String)
          → locale_le x y ≡ true
          → locale_le y z ≡ true
          → locale_le x z ≡ true) where
      le_total : (x y : String × ℕ) → (le x y ≡ true) ⊎ (le y x ≡ true)
      unfolding deeper_first
      le_total (x, m) (y, n) = ground (arith, total x y)

      le_trans : (x y z : String × ℕ) → le x y ≡ true → le y z ≡ true → le x z ≡ true
      unfolding deeper_first
      le_trans (x, m) (y, n) (z, o) h k = ground (arith, transitive x y z)

      deeper-le : (j k : String) (m n : ℕ) → n < m → le (k, n) (j, m) ≡ false
      unfolding deeper_first
      deeper-le j k m n h = ground arith

      pub order_closure-Before :
          (j k : String)
          → In k (order_closure locale_le depths)
          → DependsOn graph j k
          → Before j k (order_closure locale_le depths)
      unfolding order_closure
      order_closure-Before j k h d =
          let (n, e) = mem-order_closure k h in
          let (m, f, lt) = depths-deeper j k n e d in
          Before-map (λ e. e.0) (j, m) (k, n) (sort_by le depths)
            (Sorted-Before le (j, m) (k, n) (sort_by le depths)
              (sort_by-Sorted le le_total le_trans depths)
              ((mem-sort_by le (j, m) depths).1 (mem_of_get j m depths f))
              ((mem-sort_by le (k, n) depths).1 (mem_of_get k n depths e)) (deeper-le j k m n lt)
              (λ p. absurd (omega (arith, ap (λ q. q.1) p))))

pub IsClosure-targets :
    (graph : List Node) (targets ids : List String)
    → IsClosure graph (sort_by text_le (unique targets)) ids
    → IsClosure graph targets ids
IsClosure-targets graph targets ids c = record {
  has_targets = λ t m.
      c.has_targets t ((mem-sort_by text_le t (unique targets)).1 ((mem-unique t targets).1 m));
  has_dependents = c.has_dependents;
  only = λ id m. again (c.only id m);
  distinct = c.distinct;
}
  where
    again :
        {id : String}
        → Downstream graph (sort_by text_le (unique targets)) id
        → Downstream graph targets id
    again (Downstream.target m) =
        Downstream.target ((mem-unique _ targets).0 ((mem-sort_by text_le _ (unique targets)).0 m))
    again (Downstream.dependent p d) = Downstream.dependent (again p) d
