-- ===== src/Planning/Routing/Exact.antt =====
-- What the routing check leaves of a work graph: the preferred AgentClasses of a Subtask are
-- exactly the Executors that can do it.
use metaclaw.Base.{
  ◌≡◌, ◌≢◌, refl, sym, ◌↔◌, inl, inr, Bool, true, false, not, String, List, [], ◌∷◌, In, Distinct,
  map, filter, all-mem, all_of_mem, contains, contains-mem, contains_of_mem, mem-map,
  mem-map_of_mem, mem-filter, mem-filter_of_mem, unique, mem-unique, sort_by, mem-sort_by, text_le,
  ◌==◌, ==→eq, concat, concat-nil, append-nil, eq_refl, Bool-cases, arith, &&-eq-true,
  if◌then◌else◌,
}
use metaclaw.WorkGraph.{Subtask}
use metaclaw.Kernel.Snapshot.{ExecutorCatalog, RoutingExecutor}
use metaclaw.Planning.Routing.{
  duplicate_errors, same_values, is_nil, unknown_capabilities, covers_all, eligible_names,
  set_errors, routing_parts, routing_errors,
}

same_values-eq : (xs ys : List String) → same_values xs ys ≡ true → xs ≡ ys
unfolding same_values
same_values-eq [] [] h = refl
same_values-eq [] (y ∷ ys) h = cc
same_values-eq (x ∷ xs) [] h = cc
same_values-eq (x ∷ xs) (y ∷ ys) h =
    let (e, r) = &&-eq-true (x == y) (same_values xs ys) h in
    rw (==→eq x y e, same_values-eq xs ys r) refl

duplicate_errors-Distinct :
    (id label : String) (seen xs : List String)
    → duplicate_errors id label seen xs ≡ []
    → Distinct xs × ((a : String) → In a xs → contains seen a ≡ false)
unfolding duplicate_errors
duplicate_errors-Distinct id label seen [] h = (tt, λ a m. absurd m)
duplicate_errors-Distinct id label seen (x ∷ xs) h = elim (Bool-cases (contains seen x)) [
  | inl e ↦ absurd (ground arith)
  | inr e ↦
      let (d, n) = duplicate_errors-Distinct id label (x ∷ seen) xs (ground arith) in
      ((λ m. seen-not (n x m), d), later n e)
]
  where
    seen-not : contains (x ∷ seen) x ≡ false → ⊥
    seen-not k = let r = eq_refl x in ground arith

    older : (a : String) → contains (x ∷ seen) a ≡ false → contains seen a ≡ false
    older a k = ground arith

    later :
        ((a : String) → In a xs → contains (x ∷ seen) a ≡ false)
        → contains seen x ≡ false
        → (a : String) → In a (x ∷ xs)
        → contains seen a ≡ false
    later n e a (inl k) = rw k e
    later n e a (inr m) = older a (n a m)

-- The Executor can do all that a Subtask requires.
abbrev pub Capable : RoutingExecutor → Subtask → Type 0
Capable e s = (c : String) → In c s.required_capabilities → In c e.routing_capabilities

eligible_names-mem :
    (catalog : ExecutorCatalog) (s : Subtask) (name : String)
    → In name (eligible_names catalog s)
      ↔ ((e : RoutingExecutor) × In e catalog.executors × (e.name ≡ name) × Capable e s)
unfolding eligible_names covers_all
eligible_names-mem catalog s name =
    let test = covers_all (unique s.required_capabilities) in
    let names = map (λ e. e.name) (filter test catalog.executors) in
    (
      λ m.
          let (e, n, k) =
            mem-map (λ e. e.name) name (filter test catalog.executors)
              ((mem-sort_by text_le name names).0 m) in
          let (x, c) = mem-filter test e catalog.executors n in
          (
            e,
            x,
            sym k,
            λ cap q. contains-mem e.routing_capabilities cap (
                all-mem (contains e.routing_capabilities) cap (unique s.required_capabilities) c
                  ((mem-unique cap s.required_capabilities).1 q)),
          ),
      λ (e, x, k, c). (mem-sort_by text_le name names).1 (
          rw k at (
            mem-map_of_mem (λ e. e.name) e (filter test catalog.executors)
              (mem-filter_of_mem test e catalog.executors x (
                all_of_mem (contains e.routing_capabilities) (unique s.required_capabilities)
                  (λ cap q.
                    contains_of_mem e.routing_capabilities cap
                      (c cap ((mem-unique cap s.required_capabilities).0 q))))))),
    )

-- The routing of a Subtask is exact.
pub record IsExact (catalog : ExecutorCatalog) (s : Subtask) : Type 0 where
  pub exact :
      (name : String)
      → In name s.preferred_agent_class_list
        ↔ ((e : RoutingExecutor) × In e catalog.executors × (e.name ≡ name) × Capable e s)
  pub requires : s.required_capabilities ≢ []
  pub prefers : s.preferred_agent_class_list ≢ []
  pub known : (c : String) → In c s.required_capabilities → In c catalog.capabilities
  pub distinct : Distinct s.required_capabilities × Distinct s.preferred_agent_class_list

nil-prefers : (xs : List String) → is_nil xs ≡ false → xs ≢ []
nil-prefers [] h e = cc
nil-prefers (x ∷ xs) h e = cc

map-nil : (f : String → String) (xs : List String) → map f xs ≡ [] → xs ≡ []
map-nil f [] h = refl
map-nil f (x ∷ xs) h = cc

if-nil : (b : Bool) (e : String) → (if b then e ∷ [] else []) ≡ [] → b ≡ false
if-nil true e h = cc
if-nil false e h = refl

unknown-known :
    (catalog : ExecutorCatalog) (s : Subtask)
    → unknown_capabilities catalog s ≡ []
    → (c : String) → In c s.required_capabilities
    → In c catalog.capabilities
unfolding unknown_capabilities
unknown-known catalog s h c m = elim (Bool-cases (contains catalog.capabilities c)) [
  | inl e ↦ contains-mem catalog.capabilities c e
  | inr e ↦ absurd (
      rw h at (
        mem-filter_of_mem (λ c. not (contains catalog.capabilities c)) c s.required_capabilities m
          (ground arith)))
]

set_errors-exact :
    (catalog : ExecutorCatalog) (s : Subtask)
    → set_errors catalog s ≡ []
    → sort_by text_le (unique s.preferred_agent_class_list) ≡ eligible_names catalog s
unfolding set_errors
set_errors-exact catalog s h =
    same_values-eq (sort_by text_le (unique s.preferred_agent_class_list))
      (eligible_names catalog s) (ground arith)

preferred-exact :
    (catalog : ExecutorCatalog) (s : Subtask) (name : String)
    → set_errors catalog s ≡ []
    → In name s.preferred_agent_class_list
      ↔ ((e : RoutingExecutor) × In e catalog.executors × (e.name ≡ name) × Capable e s)
preferred-exact catalog s name h =
    let preferred = s.preferred_agent_class_list in
    let e = set_errors-exact catalog s h in
    let (to, from) = eligible_names-mem catalog s name in
    (
      λ m. to (
          rw e at
            ((mem-sort_by text_le name (unique preferred)).1 ((mem-unique name preferred).1 m))),
      λ x.
          (mem-unique name preferred).0
            ((mem-sort_by text_le name (unique preferred)).0 (rw (sym e) at (from x))),
    )

-- A Subtask that the check finds no fault with is routed exactly.
routing_parts-IsExact :
    (catalog : ExecutorCatalog) (s : Subtask)
    → concat (routing_parts catalog s) ≡ []
    → IsExact catalog s
unfolding routing_parts
routing_parts-IsExact catalog s h =
    let (a, (b, (c, (d, (e, (f, (g, (k, _)))))))) = concat-nil (routing_parts catalog s) h in
    let is_set : set_errors catalog s ≡ [] = k in
    record {
      exact = λ name. preferred-exact catalog s name is_set;
      requires = nil-prefers s.required_capabilities (if-nil (is_nil s.required_capabilities) _ c);
      prefers =
          nil-prefers s.preferred_agent_class_list
            (if-nil (is_nil s.preferred_agent_class_list) _ d);
      known = unknown-known catalog s (map-nil _ (unknown_capabilities catalog s) e);
      distinct = (
        (duplicate_errors-Distinct s.id _ [] s.required_capabilities a).0,
        (duplicate_errors-Distinct s.id _ [] s.preferred_agent_class_list b).0,
      );
    }

-- In a work graph without routing errors, the preferred AgentClasses of every subtask are exactly
-- the Executors of the catalog with all the capabilities that it requires, each once and at least
-- one; it requires some capability, and the catalog knows all that it requires.
pub routing_errors-IsExact :
    (catalog : ExecutorCatalog) (subtasks : List Subtask) (s : Subtask)
    → routing_errors catalog subtasks ≡ []
    → In s subtasks
    → IsExact catalog s
unfolding routing_errors
routing_errors-IsExact catalog [] s h m = absurd m
routing_errors-IsExact catalog (t ∷ rest) s h (inl e) = rw e (
    routing_parts-IsExact catalog t
      (append-nil (concat (routing_parts catalog t)) (routing_errors catalog rest) h).0)
routing_errors-IsExact catalog (t ∷ rest) s h (inr m) =
    routing_errors-IsExact catalog rest s
      (append-nil (concat (routing_parts catalog t)) (routing_errors catalog rest) h).1 m
