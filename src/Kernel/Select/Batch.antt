-- ===== src/Kernel/Select/Batch.antt =====
-- What `dispatchBatchItems` puts into a batch: which Subtasks, which AgentClasses and which orders.
use metaclaw.Base.{
  ℕ, suc, ◌+◌, ◌≤◌, ◌<◌, ◌≡◌, refl, ap, sym, inl, inr, Bool, true, false, ◌&&◌, not, Option, none,
  some, String, ◌==◌, ==→eq, List, [], ◌∷◌, In, find, mem-find, filter_map, mem-filter_map,
  mem-take, length, min, contains, Option-cases, arith,
}
use metaclaw.Host.{Host}
use metaclaw.Kernel.Model.{Event}
use metaclaw.Kernel.Snapshot.{SubtaskFact, Dispatch, DispatchItemFact, DispatchItem}
use metaclaw.Kernel.Select.{
  present, is_ready, active_subtask_ids, dispatchable, select_dispatchable_subtasks, add_item,
  first_order, unavailable_agent_classes, next_usable_agent_class, batch_from,
}

-- A Subtask that may be dispatched now.
pub record MayDispatch (snapshot : Dispatch) (s : SubtaskFact) : Type 0 where
  pub known : In s snapshot.subtasks
  pub on_frontier : In s.id snapshot.frontier
  pub is_ready_now : is_ready s.status ≡ true
  pub inactive : contains (active_subtask_ids snapshot) s.id ≡ false
  pub no_conflict : contains snapshot.resource_conflict_subtask_ids s.id ≡ false

dispatchable-MayDispatch :
    (snapshot : Dispatch) (id : String) (s : SubtaskFact)
    → In id snapshot.frontier
    → dispatchable snapshot id ≡ some s
    → MayDispatch snapshot s
unfolding dispatchable
dispatchable-MayDispatch snapshot id s m h =
    elim (Option-cases (find (λ t. (t.id == id) && is_ready t.status) snapshot.subtasks)) [
      | inl e ↦ absurd (ground arith)
      | inr (t, e) ↦
          let same_one : t ≡ s = ground arith in
          let (k, p) = mem-find (λ t. (t.id == id) && is_ready t.status) t snapshot.subtasks e in
          rw (sym same_one) record {
            known = k;
            on_frontier = rw (==→eq t.id id (ground arith)) m;
            is_ready_now = ground arith;
            inactive = ground arith;
            no_conflict = ground arith;
          }
    ]

pub select-MayDispatch :
    (snapshot : Dispatch) (s : SubtaskFact)
    → In s (select_dispatchable_subtasks snapshot)
    → MayDispatch snapshot s
unfolding select_dispatchable_subtasks
select-MayDispatch snapshot s m =
    let (id, k, e) = mem-filter_map (dispatchable snapshot) s snapshot.frontier (
      mem-take s (min snapshot.available_slots snapshot.max_concurrent_attempts)
        (filter_map (dispatchable snapshot) snapshot.frontier) m) in
    dispatchable-MayDispatch snapshot id s k e

pub first_order-above :
    (d : DispatchItemFact) (items : List DispatchItemFact)
    → In d items
    → d.order < first_order items
unfolding first_order
first_order-above d [] m = absurd m
first_order-above d (i ∷ is) (inl e) = rw e (omega arith)
first_order-above d (i ∷ is) (inr m) = let h = first_order-above d is m in omega arith

present-some : (o : Option String) (x : String) → present o ≡ some x → o ≡ some x
present-some none x h = cc
present-some (some String.[]) x h = cc
present-some (some (String.◌∷◌ c s)) x h = h

-- The orders rise strictly, from a least one.
abbrev pub Rising : ℕ → List DispatchItem → Type 0
Rising order [] = Unit
Rising order (i ∷ is) = (order ≤ i.order) × Rising (i.order + 1) is

Rising-below : (order : ℕ) (is : List DispatchItem) → Rising (order + 1) is → Rising order is
Rising-below order [] r = r
Rising-below order (i ∷ is) r = (let h = r.0 in omega arith, r.1)

add_item-Rising :
    (event : Event) (snapshot : Dispatch) (order : ℕ) (s : SubtaskFact) (later : List DispatchItem)
    (o : Option String)
    → Rising (order + 1) later
    → Rising order (add_item event snapshot order s later o)
unfolding add_item
add_item-Rising event snapshot order s later none r = Rising-below order later r
add_item-Rising event snapshot order s later (some name) r = (omega arith, r)

module _ (host : Host) where
  -- An AgentClass that a Subtask may be given to.
  pub record IsUsable (s : SubtaskFact) (snapshot : Dispatch) (occurred_at : String)
      (attempted : List String) (name : String) : Type 0 where
    pub preferred : In name s.preferred_agent_class_list
    pub not_attempted : contains attempted name ≡ false
    pub usable :
        contains (unavailable_agent_classes host snapshot.executor_statuses occurred_at) name
        ≡ false

  pub next_class-IsUsable :
      (s : SubtaskFact) (snapshot : Dispatch) (occurred_at : String) (attempted : List String)
      (name : String)
      → next_usable_agent_class host s snapshot occurred_at attempted ≡ some name
      → IsUsable s snapshot occurred_at attempted name
  unfolding next_usable_agent_class
  next_class-IsUsable s snapshot occurred_at attempted name h =
      let test : String → Bool = λ n.
        not (contains attempted n)
        && not
            (contains (unavailable_agent_classes host snapshot.executor_statuses occurred_at) n) in
      let found = present-some (find test s.preferred_agent_class_list) name h in
      let (m, t) = mem-find test name s.preferred_agent_class_list found in
      record { preferred = m; not_attempted = ground arith; usable = ground arith }

  -- What an item of a batch stands for.
  pub record IsItem (event : Event) (snapshot : Dispatch) (order : ℕ) (subtasks : List SubtaskFact)
      (i : DispatchItem) : Type 0 where
    pub subtask : SubtaskFact
    pub member : In subtask subtasks
    pub same_id : i.subtask_id ≡ subtask.id
    pub class_usable : IsUsable subtask snapshot event.occurred_at [] i.agent_class_name
    pub at_least : order ≤ i.order

  IsItem-later :
      (event : Event) (snapshot : Dispatch) (order : ℕ) (s : SubtaskFact) (rest : List SubtaskFact)
      (i : DispatchItem)
      → IsItem event snapshot (order + 1) rest i
      → IsItem event snapshot order (s ∷ rest) i
  IsItem-later event snapshot order s rest i p = record {
    subtask = p.subtask;
    member = inr p.member;
    same_id = p.same_id;
    class_usable = p.class_usable;
    at_least = let h = p.at_least in omega arith;
  }

  add_item-IsItem :
      (event : Event) (snapshot : Dispatch) (order : ℕ) (s : SubtaskFact) (rest : List SubtaskFact)
      (later : List DispatchItem) (i : DispatchItem) (o : Option String)
      → next_usable_agent_class host s snapshot event.occurred_at [] ≡ o
      → (In i later → IsItem event snapshot (order + 1) rest i)
      → In i (add_item event snapshot order s later o)
      → IsItem event snapshot order (s ∷ rest) i
  unfolding add_item
  add_item-IsItem event snapshot order s rest later i none e ih m =
      IsItem-later event snapshot order s rest i (ih m)
  add_item-IsItem event snapshot order s rest later i (some name) e ih (inl p) = record {
    subtask = s;
    member = inl refl;
    same_id = ap (λ j. j.subtask_id) p;
    class_usable =
        rw (ap (λ j. j.agent_class_name) p)
          (next_class-IsUsable s snapshot event.occurred_at [] name e);
    at_least = rw (ap (λ j. j.order) p) (omega arith);
  }
  add_item-IsItem event snapshot order s rest later i (some name) e ih (inr m) =
      IsItem-later event snapshot order s rest i (ih m)

  pub batch_from-IsItem :
      (event : Event) (snapshot : Dispatch) (order : ℕ) (subtasks : List SubtaskFact)
      (i : DispatchItem)
      → In i (batch_from host event snapshot order subtasks)
      → IsItem event snapshot order subtasks i
  unfolding batch_from
  batch_from-IsItem event snapshot order [] i m = absurd m
  batch_from-IsItem event snapshot order (s ∷ rest) i m =
      add_item-IsItem event snapshot order s rest (batch_from host event snapshot (order + 1) rest)
        i (next_usable_agent_class host s snapshot event.occurred_at []) refl
        (batch_from-IsItem event snapshot (order + 1) rest i) m

  add_item-length :
      (event : Event) (snapshot : Dispatch) (order : ℕ) (s : SubtaskFact)
      (later : List DispatchItem) (o : Option String)
      → length (add_item event snapshot order s later o) ≤ suc (length later)
  unfolding add_item
  add_item-length event snapshot order s later none = omega arith
  add_item-length event snapshot order s later (some name) = omega arith

  pub batch_from-length :
      (event : Event) (snapshot : Dispatch) (order : ℕ) (subtasks : List SubtaskFact)
      → length (batch_from host event snapshot order subtasks) ≤ length subtasks
  unfolding batch_from
  batch_from-length event snapshot order [] = omega arith
  batch_from-length event snapshot order (s ∷ rest) = omega (
    arith,
    batch_from-length event snapshot (order + 1) rest,
    add_item-length event snapshot order s (batch_from host event snapshot (order + 1) rest)
        (next_usable_agent_class host s snapshot event.occurred_at []),
  )

  pub batch_from-Rising :
      (event : Event) (snapshot : Dispatch) (order : ℕ) (subtasks : List SubtaskFact)
      → Rising order (batch_from host event snapshot order subtasks)
  unfolding batch_from
  batch_from-Rising event snapshot order [] = tt
  batch_from-Rising event snapshot order (s ∷ rest) =
      add_item-Rising event snapshot order s (batch_from host event snapshot (order + 1) rest)
        (next_usable_agent_class host s snapshot event.occurred_at [])
        (batch_from-Rising event snapshot (order + 1) rest)
