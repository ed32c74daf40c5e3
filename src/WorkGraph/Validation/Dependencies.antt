-- ===== src/WorkGraph/Validation/Dependencies.antt =====
-- The loop of `validateWorkGraph` over the dependencies, where it finds no violation.
use metaclaw.Base.{
  ℕ, ◌+◌, ap, ◌≡◌, ◌≢◌, refl, sym, ◌∙◌, inl, inr, Bool, true, false, Bool-cases, String, List, [],
  ◌∷◌, map, In, Distinct, contains, Dict, get, set, has, get-set, arith, ◌==◌, eq_iff, eq_refl,
  mem-map, append-nil,
}
use metaclaw.WorkGraph.{Subtask, Dependency}
use metaclaw.WorkGraph.Validation.Report.{at_index}
use metaclaw.WorkGraph.Validation.Cycle.{edges}
use metaclaw.WorkGraph.Validation.{dependency_violations, graph_violations}

get-set-apart :
    {V : Type 0} (k j : String) (v : V) (m : Dict V) → k ≢ j → get j (set k v m) ≡ get j m
get-set-apart k j v m h = ground (arith, get-set k j v m, eq_iff k j)

-- The dependencies of one subtask as the inner loop accepts them.
pub record Sound (is_known : String → Bool) (id : String) (seen : List String)
    (ds : List Dependency) : Type 0 where
  pub new : (d : Dependency) → In d ds → contains seen d.from_subtask_id ≡ false
  pub other : (d : Dependency) → In d ds → d.from_subtask_id ≢ id
  pub known : (d : Dependency) → In d ds → is_known d.from_subtask_id ≡ true
  pub distinct : Distinct (map (λ d. d.from_subtask_id) ds)

Sound-cons :
    (is_known : String → Bool) (id : String) (seen : List String) (d : Dependency)
    (rest : List Dependency)
    → contains seen d.from_subtask_id ≡ false
    → (d.from_subtask_id == id) ≡ false
    → is_known d.from_subtask_id ≡ true
    → Sound is_known id (d.from_subtask_id ∷ seen) rest
    → Sound is_known id seen (d ∷ rest)
Sound-cons is_known id seen d rest fresh other known s = record {
  new = λ e m. elim m [ inl same ↦ rw same fresh | inr n ↦ (later e n).1 ];
  other = λ e m. elim m [
    | inl same ↦ rw same (λ q. ground (arith, eq_iff d.from_subtask_id id))
    | inr n ↦ s.other e n
  ];
  known = λ e m. elim m [ inl same ↦ rw same known | inr n ↦ s.known e n ];
  distinct =
      (λ m. repeated (mem-map (λ e. e.from_subtask_id) d.from_subtask_id rest m), s.distinct);
}
  where
    later :
        (e : Dependency)
        → In e rest
        → (d.from_subtask_id ≢ e.from_subtask_id) × (contains seen e.from_subtask_id ≡ false)
    later e n =
        let q = s.new e n in
        (λ same. ground (arith, eq_iff d.from_subtask_id e.from_subtask_id), ground arith)

    repeated : ((e : Dependency) × In e rest × (d.from_subtask_id ≡ e.from_subtask_id)) → ⊥
    repeated (e, n, same) = (later e n).0 same

dependency_violations-Sound :
    (by_id : Dict Subtask) (base id : String) (seen : List String) (index : ℕ)
    (ds : List Dependency)
    → (dependency_violations by_id base id seen index ds).0 ≡ []
    → Sound (λ k. has k by_id) id seen ds
unfolding dependency_violations
dependency_violations-Sound by_id base id seen index [] h = record {
  new = λ d m. absurd m;
  other = λ d m. absurd m;
  known = λ d m. absurd m;
  distinct = tt;
}
dependency_violations-Sound by_id base id seen index (d ∷ rest) h =
    elim (Bool-cases (contains seen d.from_subtask_id)) [
      | inl repeated ↦ absurd (ground arith)
      | inr fresh ↦ elim (Bool-cases (d.from_subtask_id == id)) [
        | inl self ↦ absurd (ground arith)
        | inr other ↦ elim (Bool-cases (has d.from_subtask_id by_id)) [
          | inr unknown ↦ absurd (ground arith)
          | inl known ↦
              let tail : (dependency_violations by_id base id (d.from_subtask_id ∷ seen) (index + 1)
                    rest).0
                  ≡ [] =
                ground arith in
              Sound-cons (λ k. has k by_id) id seen d rest fresh other known
                (dependency_violations-Sound by_id base id (d.from_subtask_id ∷ seen) (index + 1)
                  rest tail)
        ]
      ]
    ]

pub graph_violations-Sound :
    (by_id : Dict Subtask) (graph : Dict (List String)) (index : ℕ) (ss : List Subtask)
    → (graph_violations by_id graph index ss).0 ≡ []
    → (s : Subtask) → In s ss
    → Sound (λ k. has k by_id) s.id [] s.dependencies
unfolding graph_violations
graph_violations-Sound by_id graph index [] h s m = absurd m
graph_violations-Sound by_id graph index (t ∷ rest) h s m =
    let walk = dependency_violations by_id (at_index "subtasks" index) t.id [] 0 t.dependencies in
    let parts =
      append-nil walk.0 (graph_violations by_id (set t.id walk.1 graph) (index + 1) rest).0 h in
    elim m [
      | inl same ↦ rw same (
          dependency_violations-Sound by_id (at_index "subtasks" index) t.id [] 0 t.dependencies
            parts.0)
      | inr n ↦ graph_violations-Sound by_id (set t.id walk.1 graph) (index + 1) rest parts.1 s n
    ]

-- The inner loop collects every dependency where it finds no violation.
dependency_violations-kept :
    (by_id : Dict Subtask) (base id : String) (seen : List String) (index : ℕ)
    (ds : List Dependency)
    → (dependency_violations by_id base id seen index ds).0 ≡ []
    → (d : Dependency) → In d ds
    → In d.from_subtask_id (dependency_violations by_id base id seen index ds).1
unfolding dependency_violations
dependency_violations-kept by_id base id seen index [] h d m = absurd m
dependency_violations-kept by_id base id seen index (e ∷ rest) h d m =
    elim (Bool-cases (contains seen e.from_subtask_id)) [
      | inl repeated ↦ absurd (ground arith)
      | inr fresh ↦ elim (Bool-cases (e.from_subtask_id == id)) [
        | inl self ↦ absurd (ground arith)
        | inr other ↦ elim (Bool-cases (has e.from_subtask_id by_id)) [
          | inr unknown ↦ absurd (ground arith)
          | inl known ↦
              rw (fresh, other, known)
                (elim m [
                  | inl same ↦ inl (ap (λ x. x.from_subtask_id) same)
                  | inr n ↦ inr (
                      dependency_violations-kept by_id base id (e.from_subtask_id ∷ seen)
                        (index + 1) rest (rw (fresh, other, known) at h) d n)
                ])
        ]
      ]
    ]

-- The second loop keeps the entry of a key that is no id of the rest.
graph_violations-get :
    (by_id : Dict Subtask) (graph : Dict (List String)) (index : ℕ) (ss : List Subtask) (k : String)
    → ¬ In k (map (λ s. s.id) ss)
    → get k (graph_violations by_id graph index ss).1 ≡ get k graph
unfolding graph_violations
graph_violations-get by_id graph index [] k h = refl
graph_violations-get by_id graph index (t ∷ rest) k h =
    let known =
      (dependency_violations by_id (at_index "subtasks" index) t.id [] 0 t.dependencies).1 in
    graph_violations-get by_id (set t.id known graph) (index + 1) rest k (λ m. h (inr m))
    ∙ get-set-apart t.id k known graph (λ e. h (inl (sym e)))

pub graph_violations-edges :
    (by_id : Dict Subtask) (graph : Dict (List String)) (index : ℕ) (ss : List Subtask)
    → Distinct (map (λ s. s.id) ss)
    → (graph_violations by_id graph index ss).0 ≡ []
    → (s : Subtask) (d : Dependency) → In s ss
    → In d s.dependencies
    → In d.from_subtask_id (edges (graph_violations by_id graph index ss).1 s.id)
unfolding graph_violations
graph_violations-edges by_id graph index [] u h s d m n = absurd m
graph_violations-edges by_id graph index (t ∷ rest) u h s d m n =
    let walk = dependency_violations by_id (at_index "subtasks" index) t.id [] 0 t.dependencies in
    let parts =
      append-nil walk.0 (graph_violations by_id (set t.id walk.1 graph) (index + 1) rest).0 h in
    elim m [
      | inl same ↦
          rw
            (
              same,
              graph_violations-get by_id (set t.id walk.1 graph) (index + 1) rest t.id u.0,
              get-set t.id t.id walk.1 graph,
              eq_refl t.id,
            )
            (dependency_violations-kept by_id (at_index "subtasks" index) t.id [] 0 t.dependencies
              parts.0 d (rw same at n))
      | inr k ↦
          graph_violations-edges by_id (set t.id walk.1 graph) (index + 1) rest u.1 parts.1 s d k n
    ]
