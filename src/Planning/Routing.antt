-- ===== src/Planning/Routing.antt =====
-- `validateRouting` of src/planning/planning-agent-plan-validator.ts: the routing of a work graph
-- against the catalog of Executors.
pub mod Exact
use metaclaw.Base.{
  Bool, true, false, ◌&&◌, ◌||◌, not, if◌then◌else◌, Option, none, some, String, ◌⧺◌, ◌==◌, List,
  [], ◌∷◌, ◌++◌, map, filter, all, concat, contains, join, is_empty, unique, sort_by, text_le, get,
  index_by,
}
use metaclaw.WorkGraph.{Subtask}
use metaclaw.Kernel.Snapshot.{ExecutorCatalog, RoutingExecutor}

-- `collectDuplicateErrors`
unfoldable pub duplicate_errors : String → String → List String → List String → List String
duplicate_errors id label seen [] = []
duplicate_errors id label seen (value ∷ rest) =
    (if contains seen value
      then ("subtask " ⧺ id ⧺ " contains duplicate " ⧺ label ⧺ ": " ⧺ value) ∷ []
      else [])
    ++ duplicate_errors id label (value ∷ seen) rest

-- `sameValues`
unfoldable pub same_values : List String → List String → Bool
same_values [] [] = true
same_values (x ∷ xs) (y ∷ ys) = (x == y) && same_values xs ys
same_values _ _ = false

abbrev pub is_nil : {A : Type 0} → List A → Bool
is_nil [] = true
is_nil (x ∷ xs) = false

-- The capabilities of the catalog do not have this one.
unfoldable pub unknown_capabilities : ExecutorCatalog → Subtask → List String
unknown_capabilities catalog subtask =
    filter (λ c. not (contains catalog.capabilities c)) subtask.required_capabilities

-- The Executors with all the required capabilities.
unfoldable pub covers_all : List String → RoutingExecutor → Bool
covers_all required executor = all (contains executor.routing_capabilities) required

unfoldable pub eligible_names : ExecutorCatalog → Subtask → List String
unfolding covers_all unique sort_by text_le
eligible_names catalog subtask = sort_by text_le (
    map (λ e. e.name)
      (filter (covers_all (unique subtask.required_capabilities)) catalog.executors))

-- One preferred AgentClass.
unfoldable pub preference_errors : ExecutorCatalog → Subtask → String → List String
unfolding unique sort_by text_le get index_by join
preference_errors catalog subtask name =
    elim (get name (index_by (λ e. e.name) catalog.executors)) [
      | none ↦ ("subtask " ⧺ subtask.id ⧺ " references unavailable Executor: " ⧺ name) ∷ []
      | some executor ↦
          elim (sort_by text_le (
            filter (λ c. not (contains executor.routing_capabilities c))
              (unique subtask.required_capabilities))) [
                | [] ↦ []
                | u ∷ us ↦
                    ("subtask "
                      ⧺ subtask.id
                      ⧺ " AgentClass "
                      ⧺ name
                      ⧺ " does not cover required capabilities: "
                      ⧺ join ", " (u ∷ us))
                    ∷ []
              ]
    ]

unfoldable pub preferences_errors : ExecutorCatalog → Subtask → List String → List String
unfolding preference_errors
preferences_errors catalog subtask [] = []
preferences_errors catalog subtask (name ∷ names) =
    preference_errors catalog subtask name ++ preferences_errors catalog subtask names

-- The last check of a Subtask: its AgentClasses are the eligible ones.
unfoldable pub set_errors : ExecutorCatalog → Subtask → List String
unfolding same_values eligible_names unique sort_by text_le join
set_errors catalog subtask =
    let eligible = eligible_names catalog subtask in
    if same_values (sort_by text_le (unique subtask.preferred_agent_class_list)) eligible
    then []
    else ("subtask "
        ⧺ subtask.id
        ⧺ " preferred AgentClass set must equal eligible verified set: "
        ⧺ (if is_empty (join ", " eligible) then "(none)" else join ", " eligible))
      ∷ []

-- The checks of one Subtask, in the order of the loop.
unfoldable pub routing_parts : ExecutorCatalog → Subtask → List (List String)
unfolding duplicate_errors unknown_capabilities eligible_names preferences_errors set_errors
routing_parts catalog subtask =
    let required = subtask.required_capabilities in
    let preferred = subtask.preferred_agent_class_list in
    let unknown = unknown_capabilities catalog subtask in
    duplicate_errors subtask.id "Routing Capability" [] required
    ∷ duplicate_errors subtask.id "preferred AgentClass" [] preferred
    ∷ (if is_nil required
        then ("subtask " ⧺ subtask.id ⧺ " requires at least one Routing Capability") ∷ []
        else [])
    ∷ (if is_nil preferred
        then ("subtask " ⧺ subtask.id ⧺ " requires at least one preferred AgentClass") ∷ []
        else [])
    ∷ map (λ c. "subtask " ⧺ subtask.id ⧺ " references unknown Routing Capability: " ⧺ c) unknown
    ∷ (if not (is_nil required) && is_nil unknown && is_nil (eligible_names catalog subtask)
        then ("no_capable_agent_class: subtask " ⧺ subtask.id
            ⧺ " must be split at a Routing Capability handoff")
          ∷ []
        else [])
    ∷ preferences_errors catalog subtask preferred
    ∷ set_errors catalog subtask
    ∷ []

unfoldable pub routing_errors : ExecutorCatalog → List Subtask → List String
unfolding routing_parts concat
routing_errors catalog [] = []
routing_errors catalog (s ∷ rest) = concat (routing_parts catalog s) ++ routing_errors catalog rest
