-- ===== src/Execution/Completion/Contained.antt =====
-- The artifacts of a completion are files in the workspace.
use metaclaw.Base.{
  ℕ, ◌+◌, true, false, Bool-cases, String, List, [], ◌∷◌, In, Distinct, contains, ◌==◌, ◌≢◌, ◌≡◌,
  refl, sym, ◌⊎◌, inl, inr, arith, eq_iff,
}
use metaclaw.Execution.Completion.Model.{ContractViolation, FileSystem}
use metaclaw.Execution.Completion.Files.{is_within, check_files, validate_result_files}

module _ (fs : FileSystem) (root : String) where
  -- A declared path that is relative and names a file in the workspace.
  pub record Contained (declared real : String) : Type 0 where
    pub is_real : real ≡ fs.realpath (fs.resolve root declared)
    pub relative : fs.is_absolute declared ≡ false
    pub present : fs.exists (fs.resolve root declared) ≡ true
    pub inside : is_within (fs.realpath root) real ≡ true
    pub a_file : fs.is_file real ≡ true

  -- What the loop finds, behind the paths seen before.
  record Checked (seen paths artifacts : List String) (violations : List ContractViolation)
      : Type 0 where
    pub contained :
        (real : String)
        → In real artifacts
        → (declared : String) × In declared paths × Contained declared real
    pub fresh : (real : String) → In real artifacts → contains seen real ≡ false
    pub once : Distinct artifacts
    pub complete :
        violations ≡ []
        → (declared : String) → In declared paths
        → In (fs.realpath (fs.resolve root declared)) artifacts
          ⊎ (contains seen (fs.realpath (fs.resolve root declared)) ≡ true)

  Checked-refused :
      (seen paths artifacts : List String) (d : String) (v : ContractViolation)
      (vs : List ContractViolation)
      → Checked seen paths artifacts vs
      → Checked seen (d ∷ paths) artifacts (v ∷ vs)
  Checked-refused seen paths artifacts d v vs c = record {
    contained = λ r m. let (e, n, k) = c.contained r m in (e, inr n, k);
    fresh = c.fresh;
    once = c.once;
    complete = λ e x m. cc;
  }

  Checked-seen :
      (seen paths artifacts : List String) (d : String) (vs : List ContractViolation)
      → contains seen (fs.realpath (fs.resolve root d)) ≡ true
      → Checked seen paths artifacts vs
      → Checked seen (d ∷ paths) artifacts vs
  Checked-seen seen paths artifacts d vs known c = record {
    contained = λ r m. let (e, n, k) = c.contained r m in (e, inr n, k);
    fresh = c.fresh;
    once = c.once;
    complete = λ e x m. elim m [ inl same ↦ inr (rw same known) | inr n ↦ c.complete e x n ];
  }

  Checked-added :
      (seen paths artifacts : List String) (d : String) (vs : List ContractViolation)
      → Contained d (fs.realpath (fs.resolve root d))
      → contains seen (fs.realpath (fs.resolve root d)) ≡ false
      → Checked (fs.realpath (fs.resolve root d) ∷ seen) paths artifacts vs
      → Checked seen (d ∷ paths) (fs.realpath (fs.resolve root d) ∷ artifacts) vs
  Checked-added seen paths artifacts d vs inside new c = record {
    contained = λ r m. elim m [
      | inl same ↦ (d, inl refl, rw same inside)
      | inr n ↦ let (e, k, q) = c.contained r n in (e, inr k, q)
    ];
    fresh = λ r m. elim m [ inl same ↦ rw same new | inr n ↦ (unseen r (c.fresh r n)).1 ];
    once = (λ m. (unseen real (c.fresh real m)).0 refl, c.once);
    complete = λ e x m. elim m [
      | inl same ↦ inl (inl (rw same refl))
      | inr n ↦ placed x (c.complete e x n)
    ];
  }
    where
      real : String
      real = fs.realpath (fs.resolve root d)

      unseen :
          (r : String) → contains (real ∷ seen) r ≡ false → (real ≢ r) × (contains seen r ≡ false)
      unseen r h = (λ q. ground (arith, eq_iff real r), ground arith)

      placed :
          (x : String)
          → In (fs.realpath (fs.resolve root x)) artifacts
            ⊎ (contains (real ∷ seen) (fs.realpath (fs.resolve root x)) ≡ true)
          → In (fs.realpath (fs.resolve root x)) (real ∷ artifacts)
            ⊎ (contains seen (fs.realpath (fs.resolve root x)) ≡ true)
      placed x (inl m) = inl (inr m)
      placed x (inr h) = elim (Bool-cases (real == fs.realpath (fs.resolve root x))) [
        | inl q ↦ inl (inl (sym ((eq_iff real (fs.realpath (fs.resolve root x))).0 q)))
        | inr q ↦ inr (rw q at h)
      ]

  check_files-Checked :
      (index : ℕ) (seen paths : List String)
      → Checked seen paths
          (check_files fs root index seen paths).1
          (check_files fs root index seen paths).0
  unfolding check_files
  check_files-Checked index seen [] = record {
    contained = λ r m. absurd m;
    fresh = λ r m. absurd m;
    once = tt;
    complete = λ e d m. absurd m;
  }
  check_files-Checked index seen (d ∷ rest) =
      let real = fs.realpath (fs.resolve root d) in
      let skipped = check_files fs root (index + 1) seen rest in
      let added = check_files fs root (index + 1) (real ∷ seen) rest in
      let ih = check_files-Checked (index + 1) seen rest in
      elim (Bool-cases (fs.is_absolute d)) [
        | inl e ↦ rw e (Checked-refused seen rest skipped.1 d _ skipped.0 ih)
        | inr relative ↦ elim (Bool-cases (fs.exists (fs.resolve root d))) [
          | inr e ↦ rw (relative, e) (Checked-refused seen rest skipped.1 d _ skipped.0 ih)
          | inl present ↦ elim (Bool-cases (is_within (fs.realpath root) real)) [
            | inr e ↦
                rw (relative, present, e) (Checked-refused seen rest skipped.1 d _ skipped.0 ih)
            | inl inside ↦ elim (Bool-cases (fs.is_file real)) [
              | inr e ↦
                  rw (relative, present, inside, e)
                    (Checked-refused seen rest skipped.1 d _ skipped.0 ih)
              | inl a_file ↦ elim (Bool-cases (contains seen real)) [
                | inl known ↦
                    rw (relative, present, inside, a_file, known)
                      (Checked-seen seen rest skipped.1 d skipped.0 known ih)
                | inr new ↦
                    rw (relative, present, inside, a_file, new)
                      (Checked-added seen rest added.1 d added.0
                        (record {
                          is_real = refl;
                          relative = relative;
                          present = present;
                          inside = inside;
                          a_file = a_file;
                        })
                        new (check_files-Checked (index + 1) (real ∷ seen) rest))
              ]
            ]
          ]
        ]
      ]

  -- All artifacts are declared, contained and different; without a violation none is left out.
  pub record AllContained (paths artifacts : List String) (violations : List ContractViolation)
      : Type 0 where
    pub contained :
        (real : String)
        → In real artifacts
        → (declared : String) × In declared paths × Contained declared real
    pub once : Distinct artifacts
    pub complete :
        violations ≡ []
        → (declared : String) → In declared paths
        → In (fs.realpath (fs.resolve root declared)) artifacts

  pub validate_result_files-AllContained :
      (paths : List String)
      → AllContained paths
          (validate_result_files fs root paths).1
          (validate_result_files fs root paths).0
  unfolding validate_result_files
  validate_result_files-AllContained [] = record {
    contained = λ r m. absurd m;
    once = tt;
    complete = λ e d m. absurd m;
  }
  validate_result_files-AllContained (p ∷ paths) = elim (Bool-cases (fs.exists root)) [
    | inr e ↦ rw e (record { contained = λ r m. absurd m; once = tt; complete = λ e d m. cc })
    | inl e ↦ rw e (all_of (check_files-Checked 0 [] (p ∷ paths)))
  ]
    where
      all_of :
          Checked []
            (p ∷ paths)
            (check_files fs root 0 [] (p ∷ paths)).1
            (check_files fs root 0 [] (p ∷ paths)).0
          → AllContained
              (p ∷ paths)
              (check_files fs root 0 [] (p ∷ paths)).1
              (check_files fs root 0 [] (p ∷ paths)).0
      all_of c = record {
        contained = c.contained;
        once = c.once;
        complete = λ e d m. elim (c.complete e d m) [ inl k ↦ k | inr q ↦ cc ];
      }
