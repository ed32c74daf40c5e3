-- ===== src/WorkGraph/Cancellation/Visit.antt =====
-- The inner `visit` of `deriveCancellationClosure`, over any relation `next` from a subtask to the
-- subtasks that depend on it. Fuel bounds how deep the calls nest; `none` is no result.
use metaclaw.Base.{
  ℕ, zero, suc, ◌≤◌, ◌<◌, ◌≡◌, refl, ◌⊎◌, inl, inr, Bool, true, false, Option, none, some, some_inj,
  leb, Bool-cases, Option-cases, String, List, [], ◌∷◌, In, Dict, get, set, get-set, arith, ◌==◌,
  eq_iff, eq_refl,
}

unfoldable pub visit_all :
    (String → Dict ℕ → Option (Dict ℕ)) → List String → Dict ℕ → Option (Dict ℕ)
visit_all visit [] depths = some depths
visit_all visit (id ∷ ids) depths = elim (visit id depths) [
  | none ↦ none
  | some depths' ↦ visit_all visit ids depths'
]

-- `knownDepth !== undefined && knownDepth >= depth`
abbrev pub reached : Option ℕ → ℕ → Bool
reached none depth = false
reached (some known) depth = leb depth known

pub visit_all-Returns :
    (f : String → Dict ℕ → Option (Dict ℕ)) (ids : List String) (depths : Dict ℕ)
    → ((id : String) (d : Dict ℕ) → In id ids → (new : Dict ℕ) × (f id d ≡ some new))
    → (new : Dict ℕ) × (visit_all f ids depths ≡ some new)
unfolding visit_all
visit_all-Returns f [] depths h = (depths, refl)
visit_all-Returns f (i ∷ ids) depths h =
    let (mid, e) = h i depths (inl refl) in
    let (new, e') = visit_all-Returns f ids mid (λ id d m. h id d (inr m)) in (new, ground arith)

abbrev pub Within : (String → Type 0) → Dict ℕ → Type 0
Within P depths = (k : String) (n : ℕ) → get k depths ≡ some n → P k

pub visit_all-Within :
    (P : String → Type 0) (f : String → Dict ℕ → Option (Dict ℕ))
    → ((id : String) (old new : Dict ℕ) → f id old ≡ some new → P id → Within P old → Within P new)
    → (ids : List String) (old new : Dict ℕ) → visit_all f ids old ≡ some new
    → ((id : String) → In id ids → P id)
    → Within P old
    → Within P new
unfolding visit_all
visit_all-Within P f keeps [] old new h here before = rw (← some_inj h) before
visit_all-Within P f keeps (i ∷ ids) old new h here before = elim (Option-cases (f i old)) [
  | inl e ↦ absurd (ground arith)
  | inr (mid, e) ↦
      visit_all-Within P f keeps ids mid new (ground arith) (λ id m. here id (inr m))
        (keeps i old mid e (here i (inl refl)) before)
]

pub visit_all-keeps :
    (Q : Dict ℕ → Type 0) (f : String → Dict ℕ → Option (Dict ℕ))
    → ((id : String) (old new : Dict ℕ) → f id old ≡ some new → Q old → Q new)
    → (ids : List String) (old new : Dict ℕ) → visit_all f ids old ≡ some new
    → Q old
    → Q new
unfolding visit_all
visit_all-keeps Q f keeps [] old new h q = rw (← some_inj h) q
visit_all-keeps Q f keeps (i ∷ ids) old new h q = elim (Option-cases (f i old)) [
  | inl e ↦ absurd (ground arith)
  | inr (mid, e) ↦ visit_all-keeps Q f keeps ids mid new (ground arith) (keeps i old mid e q)
]

set-Within :
    (P : String → Type 0) (id : String) (depth : ℕ) (old : Dict ℕ)
    → P id
    → Within P old
    → Within P (set id depth old)
set-Within P id depth old here before k n e = elim (Bool-cases (id == k)) [
  | inl same ↦ rw (← (eq_iff id k).0 same) here
  | inr other ↦ before k n (ground (arith, get-set id k depth old))
]

module _ (next : String → List String) where
  unfoldable pub visit : ℕ → String → ℕ → Dict ℕ → Option (Dict ℕ)
  unfolding visit_all
  visit zero id depth depths = none
  visit (suc fuel) id depth depths =
      let deeper = λ (k : String) (d : Dict ℕ). visit fuel k (suc depth) d in
      elim (reached (get id depths) depth) [
        | true ↦ some depths
        | false ↦ visit_all deeper (next id) (set id depth depths)
      ]

  abbrev pub AtLeast : Dict ℕ → String → ℕ → Type 0
  AtLeast depths k n = (m : ℕ) × (get k depths ≡ some m) × (n ≤ m)

  -- Every dependent of `k` stands at least one level deeper than `n`.
  abbrev pub Below : Dict ℕ → String → ℕ → Type 0
  Below depths k n = (j : String) → In j (next k) → AtLeast depths j (suc n)

  -- What a visit does to the depths: none falls, and a depth that is new has its dependents below
  -- it.
  pub record Progress (old new : Dict ℕ) : Type 0 where
    pub grows : (k : String) (n : ℕ) → get k old ≡ some n → AtLeast new k n
    pub settled : (k : String) (n : ℕ) → get k new ≡ some n → (get k old ≡ some n) ⊎ Below new k n

  AtLeast-grows :
      {old new : Dict ℕ}
      → Progress old new
      → (k : String) (n : ℕ) → AtLeast old k n
      → AtLeast new k n
  AtLeast-grows p k n (m, e, h) = let (m', e', h') = p.grows k m e in (m', e', omega arith)

  Progress-refl : (d : Dict ℕ) → Progress d d
  Progress-refl d = record { grows = λ k n e. (n, e, omega arith); settled = λ k n e. inl e }

  Progress-trans : {a b c : Dict ℕ} → Progress a b → Progress b c → Progress a c
  Progress-trans {a} {b} {c} p q = record {
    grows = λ k n e. AtLeast-grows q k n (p.grows k n e);
    settled = λ k n e. elim (q.settled k n e) [
      | inr below ↦ inr below
      | inl same ↦ elim (p.settled k n same) [
        | inl old ↦ inl old
        | inr below ↦ inr (λ j m. AtLeast-grows q j (suc n) (below j m))
      ]
    ];
  }

  -- What a call must do for `visit_all` to go on.
  abbrev Visits : (String → Dict ℕ → Option (Dict ℕ)) → ℕ → Type 0
  Visits f depth =
      (id : String) (old new : Dict ℕ)
      → f id old ≡ some new
      → Progress old new × AtLeast new id depth

  pub visit_all-Progress :
      (f : String → Dict ℕ → Option (Dict ℕ)) (depth : ℕ)
      → Visits f depth
      → (ids : List String) (old new : Dict ℕ) → visit_all f ids old ≡ some new
      → Progress old new × ((id : String) → In id ids → AtLeast new id depth)
  unfolding visit_all
  visit_all-Progress f depth v [] old new h =
      (rw (some_inj h) (Progress-refl new), λ id m. absurd m)
  visit_all-Progress f depth v (i ∷ ids) old new h = elim (Option-cases (f i old)) [
    | inl e ↦ absurd (ground arith)
    | inr (mid, e) ↦
        let (p, here) = v i old mid e in
        let (q, there) = visit_all-Progress f depth v ids mid new (ground arith) in
        (
          Progress-trans p q,
          λ id. elim [ inl same ↦ rw same (AtLeast-grows q i depth here) | inr m ↦ there id m ],
        )
  ]

  reached-AtLeast :
      (id : String) (depth : ℕ) (d : Dict ℕ) → reached (get id d) depth ≡ true → AtLeast d id depth
  reached-AtLeast id depth d h = elim (Option-cases (get id d)) [
    | inl e ↦ absurd (ground arith)
    | inr (m, e) ↦ (m, e, ground arith)
  ]

  -- The branch of `visit` that sets a depth and visits the dependents.
  started :
      (id : String) (depth : ℕ) (old new : Dict ℕ)
      → reached (get id old) depth ≡ false
      → Progress (set id depth old) new
      → Below new id depth
      → Progress old new × AtLeast new id depth
  started id depth old new fresh p deeper = (
    record {
      grows = λ k n e. elim (Bool-cases (id == k)) [
        | inl same ↦
            let here = p.grows id depth (rw (get-set id id depth old, eq_refl id) refl) in
            rw (← (eq_iff id k).0 same) (here.0, here.1, ground (arith, here, eq_iff id k))
        | inr other ↦ p.grows k n (ground (arith, get-set id k depth old))
      ];
      settled = λ k n e. elim (p.settled k n e) [
        | inr below ↦ inr below
        | inl same ↦ elim (Bool-cases (id == k)) [
          | inl self ↦
              let e' : depth ≡ n = ground (arith, get-set id k depth old) in
              inr (rw (← (eq_iff id k).0 self, ← e') deeper)
          | inr other ↦ inl (ground (arith, get-set id k depth old))
        ]
      ];
    },
    p.grows id depth (rw (get-set id id depth old, eq_refl id) refl),
  )

  pub visit-Progress : (fuel depth : ℕ) → Visits (λ id d. visit fuel id depth d) depth
  unfolding visit
  visit-Progress zero depth id old new h = cc
  visit-Progress (suc fuel) depth id old new h = elim (Bool-cases (reached (get id old) depth)) [
    | inl met ↦ still met (ground arith)
    | inr fresh ↦
        let (p, deeper) =
          visit_all-Progress (λ k d. visit fuel k (suc depth) d) (suc depth)
            (visit-Progress fuel (suc depth)) (next id) (set id depth old) new (ground arith) in
        started id depth old new fresh p deeper
  ]
    where
      still :
          reached (get id old) depth ≡ true → old ≡ new → Progress old new × AtLeast new id depth
      still met e = rw (← e) (Progress-refl old, reached-AtLeast id depth old met)

  -- More fuel than any chain of dependents is long: the visit ends.
  pub visit-Returns :
      (height : String → ℕ)
      → ((k j : String) → In j (next k) → height j < height k)
      → (fuel : ℕ) (id : String) (depth : ℕ) (depths : Dict ℕ) → height id < fuel
      → (new : Dict ℕ) × (visit fuel id depth depths ≡ some new)
  unfolding visit
  visit-Returns height falls zero id depth depths h = elim h [ ]
  visit-Returns height falls (suc fuel) id depth depths h =
      elim (Bool-cases (reached (get id depths) depth)) [
        | inl met ↦ (depths, ground arith)
        | inr fresh ↦
            let (new, e) =
              visit_all-Returns (λ k d. visit fuel k (suc depth) d) (next id) (set id depth depths)
                (λ j d m.
                  visit-Returns height falls fuel j (suc depth) d (omega (arith, falls id j m))) in
            (new, ground arith)
      ]

  -- A set that holds the visited subtask, all that has a depth and the dependents of its members
  -- holds all that has a depth afterwards.
  pub visit-Within :
      (P : String → Type 0)
      → ((k j : String) → P k → In j (next k) → P j)
      → (fuel depth : ℕ) (id : String) (old new : Dict ℕ) → visit fuel id depth old ≡ some new
      → P id
      → ((k : String) (n : ℕ) → get k old ≡ some n → P k)
      → (k : String) (n : ℕ) → get k new ≡ some n
      → P k
  unfolding visit
  visit-Within P closed zero depth id old new h here before k n e = absurd (ground arith)
  visit-Within P closed (suc fuel) depth id old new h here before k n e =
      elim (Bool-cases (reached (get id old) depth)) [
        | inl met ↦ before k n (ground arith)
        | inr fresh ↦
            visit_all-Within P (λ k d. visit fuel k (suc depth) d)
              (visit-Within P closed fuel (suc depth)) (next id) (set id depth old) new
              (ground arith) (λ j m. closed id j here m) (set-Within P id depth old here before) k n
              e
      ]

  -- A visit only sets depths, so it keeps what each `set` keeps.
  pub visit-keeps :
      (Q : Dict ℕ → Type 0)
      → ((k : String) (n : ℕ) (d : Dict ℕ) → Q d → Q (set k n d))
      → (fuel depth : ℕ) (id : String) (old new : Dict ℕ) → visit fuel id depth old ≡ some new
      → Q old
      → Q new
  unfolding visit
  visit-keeps Q step zero depth id old new h q = absurd (ground arith)
  visit-keeps Q step (suc fuel) depth id old new h q =
      elim (Bool-cases (reached (get id old) depth)) [
        | inl met ↦ let e : old ≡ new = ground arith in rw (← e) q
        | inr fresh ↦
            visit_all-keeps Q (λ k d. visit fuel k (suc depth) d)
              (visit-keeps Q step fuel (suc depth)) (next id) (set id depth old) new (ground arith)
              (step id depth old q)
      ]
