-- ===== src/Kernel/Select.antt =====
-- The helpers of src/kernel/control-kernel.ts: which Subtasks may be dispatched, to which
-- AgentClass, and how a decision and its items are put together. Slots are counted from 0: the
-- source takes a negative count for none.
pub mod Batch
pub mod Guarded
use metaclaw.Base.{
  ℕ, ◌+◌, max, min, Bool, true, false, ◌&&◌, not, if◌then◌else◌, Option, none, some, get_or, String,
  ◌⧺◌, ◌==◌, List, [], ◌∷◌, map, filter, filter_map, find, take, any, contains, join, sanitize,
  show_nat, Dict, get,
}
use mathlib.Core.List.{foldl}
use metaclaw.Host.{Host}
use metaclaw.Resource.{ResourceClaim}
use metaclaw.Kernel.Status.{StatusProjection}
use metaclaw.Kernel.Availability.{
  Availability, permanently_unavailable, temporarily_unavailable, derive_agent_availability,
  default_policy,
}
use metaclaw.Kernel.Model.{
  Event, AttemptKind, primary, continuation, fallback, contract_correction, merge_repair,
  RecoveryMode, fresh, AttemptPayload, DispatchItemStatus, pending_launch, launching, running,
  cancelling, SubtaskStatus,
}
use metaclaw.Kernel.Snapshot.{
  SubtaskFact, Dispatch, DispatchItemFact, DispatchItem, Action, dispatch_batch, Decision,
}

-- A text that JavaScript takes for true.
abbrev pub present : Option String → Option String
present none = none
present (some String.[]) = none
present (some (String.◌∷◌ c s)) = some (String.◌∷◌ c s)

unfoldable pub decision : Event → Action → String → Decision
decision event action reason = record {
  id = "decision_" ⧺ event.id;
  event_id = event.id;
  action = action;
  reason = reason;
}

-- A chain of early returns: the decision behind the first test that holds.
unfoldable pub first_return : List (Bool × Decision) → Option Decision
first_return [] = none
first_return ((test, d) ∷ later) = let rest = first_return later in if test then some d else rest

abbrev pub is_unavailable : Availability → Bool
is_unavailable permanently_unavailable = true
is_unavailable temporarily_unavailable = true
is_unavailable _ = false

abbrev pub is_ready : SubtaskStatus → Bool
is_ready SubtaskStatus.ready = true
is_ready _ = false

unfoldable pub is_pending_or_active_dispatch : DispatchItemStatus → Bool
is_pending_or_active_dispatch pending_launch = true
is_pending_or_active_dispatch launching = true
is_pending_or_active_dispatch running = true
is_pending_or_active_dispatch cancelling = true
is_pending_or_active_dispatch _ = false

-- The set `activeSubtaskIds`.
unfoldable pub active_subtask_ids : Dispatch → List String
unfolding is_pending_or_active_dispatch
active_subtask_ids snapshot =
    map (λ i. i.subtask_id)
      (filter (λ i. is_pending_or_active_dispatch i.status) snapshot.dispatch_items)

-- The subtask that a member of the frontier stands for, if it may be dispatched.
unfoldable pub dispatchable : Dispatch → String → Option SubtaskFact
unfolding active_subtask_ids
dispatchable snapshot id = elim (find (λ s. (s.id == id) && is_ready s.status) snapshot.subtasks) [
  | none ↦ none
  | some s ↦
      if not (contains (active_subtask_ids snapshot) s.id)
        && not (contains snapshot.resource_conflict_subtask_ids s.id)
      then some s
      else none
]

unfoldable pub select_dispatchable_subtasks : Dispatch → List SubtaskFact
unfolding dispatchable
select_dispatchable_subtasks snapshot =
    take (min snapshot.available_slots snapshot.max_concurrent_attempts)
      (filter_map (dispatchable snapshot) snapshot.frontier)

unfoldable pub resource_grant_for_subtask : Dispatch → String → List ResourceClaim
unfolding get
resource_grant_for_subtask snapshot subtask_id =
    get_or (get subtask_id snapshot.resource_grants_by_subtask) []

unfoldable pub attempt_kind_name : AttemptKind → String
attempt_kind_name primary = "primary"
attempt_kind_name continuation = "continuation"
attempt_kind_name fallback = "fallback"
attempt_kind_name contract_correction = "contract_correction"
attempt_kind_name merge_repair = "merge_repair"

unfoldable pub deterministic_attempt_id : String → String → String → AttemptKind → String
unfolding attempt_kind_name sanitize join
deterministic_attempt_id event_id subtask_id agent_class_name kind =
    "attempt_"
    ⧺ join "_"
        (map sanitize (event_id ∷ subtask_id ∷ agent_class_name ∷ attempt_kind_name kind ∷ []))

unfoldable pub deterministic_task_id : String → String
unfolding sanitize
deterministic_task_id event_id = "task_" ⧺ sanitize event_id

unfoldable pub generation_replan_request_id : String → String → ℕ → String
unfolding sanitize join show_nat
generation_replan_request_id task_id generation_id source_revision =
    "generation_replan_"
    ⧺ join "_" (map sanitize (task_id ∷ generation_id ∷ show_nat source_revision ∷ []))

unfoldable pub single_dispatch_batch :
    Event
    → (task_id subtask_id agent_class_name : String) (kind : AttemptKind)
      (source_attempt_id : Option String) (mode : RecoveryMode) (grant : List ResourceClaim)
      (payload : Option AttemptPayload)
    → Action
unfolding deterministic_attempt_id
single_dispatch_batch event task_id subtask_id agent_class_name kind source mode grant payload =
    dispatch_batch task_id (
      record {
        subtask_id = subtask_id;
        agent_class_name = agent_class_name;
        attempt_id = deterministic_attempt_id event.id subtask_id agent_class_name kind;
        attempt_kind = kind;
        source_attempt_id = source;
        recovery_mode = mode;
        default_resource_grant = grant;
        order = 0;
        attempt_payload = payload;
      }
      ∷ [])

-- One more than the greatest order so far, or 0.
unfoldable pub first_order : List DispatchItemFact → ℕ
first_order [] = 0
first_order (i ∷ is) = max (i.order + 1) (first_order is)

-- The item of a Subtask in front of the later ones, if it has an AgentClass.
unfoldable pub add_item :
    Event → Dispatch → ℕ → SubtaskFact → List DispatchItem → Option String → List DispatchItem
unfolding resource_grant_for_subtask deterministic_attempt_id
add_item event snapshot order s later none = later
add_item event snapshot order s later (some name) =
    record {
      subtask_id = s.id;
      agent_class_name = name;
      attempt_id = deterministic_attempt_id event.id s.id name primary;
      attempt_kind = primary;
      source_attempt_id = none;
      recovery_mode = fresh;
      default_resource_grant = resource_grant_for_subtask snapshot s.id;
      order = order;
      attempt_payload = none;
    }
    ∷ later

module _ (host : Host) where
  -- `includes(deriveAgentAvailability(status, occurredAt))`: the default policy lets nothing throw.
  unfoldable pub is_unavailable_at : String → StatusProjection → Bool
  unfolding derive_agent_availability
  is_unavailable_at occurred_at s =
      elim (derive_agent_availability host (some s) occurred_at default_policy) [
        | none ↦ false
        | some a ↦ is_unavailable a
      ]

  unfoldable pub unavailable_agent_classes : List StatusProjection → String → List String
  unfolding is_unavailable_at
  unavailable_agent_classes statuses occurred_at =
      map (λ s. s.agent_class_name) (filter (is_unavailable_at occurred_at) statuses)

  -- An AgentClass with an empty name is one that the callers do not use.
  unfoldable pub next_usable_agent_class :
      SubtaskFact → Dispatch → String → List String → Option String
  unfolding unavailable_agent_classes
  next_usable_agent_class subtask snapshot occurred_at attempted = present (
      find
        (λ name.
          not (contains attempted name)
          && not (contains (unavailable_agent_classes snapshot.executor_statuses occurred_at) name))
        subtask.preferred_agent_class_list)

  -- The items, with the order of the first of them.
  unfoldable pub batch_from : Event → Dispatch → ℕ → List SubtaskFact → List DispatchItem
  unfolding next_usable_agent_class add_item
  batch_from event snapshot order [] = []
  batch_from event snapshot order (s ∷ rest) =
      add_item event snapshot order s (batch_from event snapshot (order + 1) rest)
        (next_usable_agent_class s snapshot event.occurred_at [])

  unfoldable pub dispatch_batch_items : Event → Dispatch → List SubtaskFact → List DispatchItem
  unfolding batch_from first_order
  dispatch_batch_items event snapshot subtasks =
      batch_from event snapshot (first_order snapshot.dispatch_items) subtasks
