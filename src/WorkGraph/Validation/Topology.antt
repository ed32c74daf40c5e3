-- ===== src/WorkGraph/Validation/Topology.antt =====
-- `containsCycle` says exactly whether the dependencies have a cycle.
use metaclaw.Base.{
  ℕ, zero, suc, ◌<◌, ◌≡◌, ◌≢◌, refl, ◌⊎◌, inl, inr, Bool-cases, Option-cases, String, List, [], ◌∷◌,
  map, In, contains, contains-mem, Dict, get, mem_of_get, mem-map_of_mem, unvisited, unvisited-lt,
  arith,
}
use metaclaw.WorkGraph.Validation.Cycle.{Walk, unfinished, cycle, clear, visit_some, edges, visit}

pub Walk-cases : (w : Walk) → (w ≡ unfinished) ⊎ ((w ≡ cycle) ⊎ ((v : List String) × (w ≡ clear v)))
Walk-cases unfinished = inl refl
Walk-cases cycle = inr (inl refl)
Walk-cases (clear v) = inr (inr (v, refl))

pub visit_some-finished :
    (f : String → List String → Walk)
    → ((id : String) (v : List String) → f id v ≢ unfinished)
    → (ids visited : List String) → visit_some f ids visited ≢ unfinished
unfolding visit_some
visit_some-finished f h [] visited = λ e. cc
visit_some-finished f h (id ∷ ids) visited = λ e. elim (Walk-cases (f id visited)) [
  | inl q ↦ h id visited q
  | inr (inl q) ↦ ground arith
  | inr (inr (v, q)) ↦ visit_some-finished f h ids v (ground arith)
]

module _ (graph : Dict (List String)) where
  -- One subtask depends on another, in one step or more.
  pub data Chain (a : String) : String → Type 0 where
    last : {b : String} → In b (edges graph a) → Chain a b
    step : {b c : String} → Chain a b → In c (edges graph b) → Chain a c

  -- Each id stands before all that it depends on.
  abbrev pub Ordered : List String → Type 0
  Ordered [] = Unit
  Ordered (x ∷ xs) = ((d : String) → In d (edges graph x) → In d xs) × Ordered xs

  pub visit-finished :
      (fuel : ℕ) (visiting : List String) (id : String) (visited : List String)
      → unvisited (map (λ e. e.0) graph) visiting < fuel
      → visit graph fuel visiting id visited ≢ unfinished
  unfolding visit visit_some
  visit-finished zero visiting id visited h = λ e. elim h [ ]
  visit-finished (suc fuel) visiting id visited h = λ e. elim (Bool-cases (contains visiting id)) [
    | inl opened ↦ ground arith
    | inr closed ↦ elim (Bool-cases (contains visited id)) [
      | inl seen ↦ ground arith
      | inr fresh ↦ elim (Option-cases (get id graph)) [
        | inl unknown ↦ ground arith
        | inr (ids, known) ↦
            let key = mem-map_of_mem (λ e. e.0) (id, ids) graph (mem_of_get id ids graph known) in
            let lt = unvisited-lt (map (λ e. e.0) graph) visiting id closed key in
            visit_some-finished (visit graph fuel (id ∷ visiting))
              (λ k v. visit-finished fuel (id ∷ visiting) k v (omega arith)) (edges graph id)
              visited (ground arith)
      ]
    ]
  ]

  -- What a walk that meets no cycle adds.
  pub record Sound (ids old new : List String) : Type 0 where
    pub ordered : Ordered new
    pub kept : (k : String) → In k old → In k new
    pub found : (k : String) → In k ids → In k new

  abbrev pub IsSound : (String → List String → Walk) → Type 0
  IsSound f =
      (id : String) (old new : List String)
      → f id old ≡ clear new
      → Ordered old
      → Sound (id ∷ []) old new

  pub visit_some-Sound :
      (f : String → List String → Walk)
      → IsSound f
      → (ids old new : List String) → visit_some f ids old ≡ clear new
      → Ordered old
      → Sound ids old new
  unfolding visit_some
  visit_some-Sound f h [] old new e o =
      let same_list : old ≡ new = ground arith in
      rw (← same_list) (record { ordered = o; kept = λ k m. m; found = λ k m. absurd m })
  visit_some-Sound f h (id ∷ ids) old new e o = elim (Walk-cases (f id old)) [
    | inl q ↦ absurd (ground arith)
    | inr (inl q) ↦ absurd (ground arith)
    | inr (inr (v, q)) ↦
        let first = h id old v q o in
        let rest = visit_some-Sound f h ids v new (ground arith) first.ordered in
        record {
          ordered = rest.ordered;
          kept = λ k m. rest.kept k (first.kept k m);
          found = λ k. elim [
            | inl same_id ↦ rest.kept k (first.found k (inl same_id))
            | inr m ↦ rest.found k m
          ];
        }
  ]

  pub visit-Sound : (fuel : ℕ) (visiting : List String) → IsSound (visit graph fuel visiting)
  unfolding visit
  visit-Sound zero visiting id old new e o = absurd (ground arith)
  visit-Sound (suc fuel) visiting id old new e o = elim (Bool-cases (contains visiting id)) [
    | inl opened ↦ absurd (ground arith)
    | inr closed ↦ elim (Bool-cases (contains old id)) [
      | inl seen ↦
          let same_list : old ≡ new = ground arith in
          rw (← same_list) (record {
            ordered = o;
            kept = λ k m. m;
            found = λ k. elim [
              | inl same_id ↦ rw same_id (contains-mem old id seen)
              | inr m ↦ absurd m
            ];
          })
      | inr fresh ↦
          elim (Walk-cases (visit_some (visit graph fuel (id ∷ visiting)) (edges graph id) old)) [
            | inl q ↦ absurd (ground arith)
            | inr (inl q) ↦ absurd (ground arith)
            | inr (inr (v, q)) ↦
                let deps =
                  visit_some-Sound (visit graph fuel (id ∷ visiting))
                    (visit-Sound fuel (id ∷ visiting)) (edges graph id) old v q o in
                let same_list : id ∷ v ≡ new = ground arith in
                rw (← same_list) (record {
                  ordered = (deps.found, deps.ordered);
                  kept = λ k m. inr (deps.kept k m);
                  found = λ k. elim [ inl same_id ↦ inl same_id | inr m ↦ absurd m ];
                })
          ]
    ]
  ]

  -- What a walk that meets a cycle has found.
  abbrev pub Loop : Type 0
  Loop = (k : String) × Chain k k

  pub visit_some-Loop :
      (f : String → List String → Walk) (ids visited : List String)
      → ((id : String) (v : List String) → In id ids → f id v ≡ cycle → Loop)
      → visit_some f ids visited ≡ cycle
      → Loop
  unfolding visit_some
  visit_some-Loop f [] visited h e = absurd (ground arith)
  visit_some-Loop f (id ∷ ids) visited h e = elim (Walk-cases (f id visited)) [
    | inl q ↦ absurd (ground arith)
    | inr (inl q) ↦ h id visited (inl refl) q
    | inr (inr (v, q)) ↦ visit_some-Loop f ids v (λ k w m. h k w (inr m)) (ground arith)
  ]

  pub visit-Loop :
      (fuel : ℕ) (visiting : List String) (id : String) (visited : List String)
      → ((v : String) → In v visiting → Chain v id)
      → visit graph fuel visiting id visited ≡ cycle
      → Loop
  unfolding visit
  visit-Loop zero visiting id visited h e = absurd (ground arith)
  visit-Loop (suc fuel) visiting id visited h e = elim (Bool-cases (contains visiting id)) [
    | inl opened ↦ (id, h id (contains-mem visiting id opened))
    | inr closed ↦ elim (Bool-cases (contains visited id)) [
      | inl seen ↦ absurd (ground arith)
      | inr fresh ↦
          visit_some-Loop (visit graph fuel (id ∷ visiting)) (edges graph id) visited
            (λ k w m. visit-Loop fuel (id ∷ visiting) k w (λ v. elim [
              | inl same_id ↦ rw same_id (Chain.last m)
              | inr n ↦ Chain.step (h v n) m
            ]))
            (ground arith)
    ]
  ]
