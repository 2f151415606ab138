-- ===== src/Engine/Creation.antt =====
-- Creating a run (packages/engine/src/engine.ts, `validateInputs` and `createRun`).
use Prim.Native.String.{◌++◌ as text_append}
use anastom.Prelude.{
  String, Bool, true, false, not, ◌&&◌, ◌||◌, List, [], ◌∷◌, ◌++◌, map, Option, none, some, Result,
  ok, err, ◌>>=◌, ◌>>◌, guard, Dict, lookup, keys, values, if◌then◌else◌,
}
use anastom.Json.{JsonValue}
use anastom.Contract.{
  RuntimeNegotiation, WorkspaceRef, isolated_workspace, memory_workspace, readonly_workspace,
}
use anastom.Run.State.{RunState}
use anastom.Run.Event.{
  ReadyReason, RunEvent, RunEventPayload, node_ready, observation, run_created, runtime_negotiated,
  workspace_assigned,
}
use anastom.Run.Guards.{TransitionError}
use anastom.Run.Reducer.{materialize_events}
use anastom.Workflow.Definition.{
  Mutation, WorkflowDefinition, WorkflowInputDefinition, WorkflowNode,
}
use anastom.Workflow.Scheduler.{find_executable_nodes, select}
use anastom.Workflow.Semantics.{is_agent, is_command}
use anastom.Engine.Persistence.{ConflictError, PersistedRuns, create}
use anastom.Engine.Finish.{of_node}

-- What makes the inputs of a run invalid.
pub data InputError : Type 0 where
  missing unknown : List String → InputError
  invalid : String → List String → InputError

pub data CreationError : Type 0 where
  worker_boundaries : CreationError
  unsupported_node : String → CreationError
  mutation_required mutation_mismatch : CreationError
  negotiation_failed : String → CreationError
  invalid_inputs : List InputError → CreationError
  transition : TransitionError → CreationError
  conflict : ConflictError → CreationError

abbrev pub has_key {ℓ} : {A : Type ℓ} → Dict A → String → Bool
has_key m i = elim (lookup i m) [ none ↦ false | some a ↦ true ]

abbrev pub unless_empty : (List String → InputError) → List String → List InputError
unless_empty e [] = []
unless_empty e (i ∷ ids) = e (i ∷ ids) ∷ []

-- `value_errors` stands for `validateJsonValue`: a value is valid where it has no errors.
module _ (value_errors : JsonValue → JsonValue → List String) where
  abbrev pub value_issue : String → List String → List InputError
  value_issue i [] = []
  value_issue i (e ∷ es) = invalid i (e ∷ es) ∷ []

  abbrev pub given_issue :
      String → Option WorkflowInputDefinition → Option JsonValue → List InputError
  given_issue i (some definition) (some value) =
      value_issue i (value_errors definition.reference.schema value)
  given_issue i _ _ = []

  -- The loop over the declared inputs.
  unfoldable pub value_issues :
      Dict WorkflowInputDefinition → Dict JsonValue → List String → List InputError
  value_issues declared inputs [] = []
  value_issues declared inputs (i ∷ ids) =
      given_issue i (lookup i declared) (lookup i inputs) ++ value_issues declared inputs ids

  unfoldable pub input_errors : WorkflowDefinition → Dict JsonValue → List InputError
  unfolding value_issues select
  input_errors w inputs =
      unless_empty missing (select (λ i. not (has_key inputs i)) (keys w.inputs))
      ++ (unless_empty unknown (select (λ i. not (has_key w.inputs i)) (keys inputs))
          ++ value_issues w.inputs inputs (keys w.inputs))

  abbrev pub thrown_inputs : List InputError → Result CreationError (Unit {0})
  thrown_inputs [] = ok tt
  thrown_inputs (e ∷ es) = err (invalid_inputs (e ∷ es))

  unfoldable pub validate_inputs :
      WorkflowDefinition → Dict JsonValue → Result CreationError (Unit {0})
  unfolding input_errors
  validate_inputs w inputs = thrown_inputs (input_errors w inputs)

abbrev has_mode : WorkspaceRef → Mutation → Bool
has_mode (readonly_workspace _ _ _ _) Mutation.readonly = true
has_mode (isolated_workspace _ _ _ _ _) Mutation.isolated = true
has_mode _ _ = false

abbrev is_given {ℓ} : {A : Type ℓ} → Option A → Bool
is_given none = false
is_given (some a) = true

abbrev mode_matches : WorkspaceRef → Option Mutation → Bool
mode_matches workspace none = true
mode_matches workspace (some m) = has_mode workspace m

-- The loop over the nodes of a worker run.
unfoldable pub check_nodes : WorkspaceRef → List WorkflowNode → Result CreationError (Unit {0})
check_nodes workspace [] = ok tt
check_nodes workspace (n ∷ ns) = do
  guard (is_agent n.kind || is_command n.kind && is_given n.command) (unsupported_node n.id)
  guard (not (is_agent n.kind) || is_given n.mutation) mutation_required
  guard (mode_matches workspace n.mutation) mutation_mismatch
  check_nodes workspace ns

abbrev is_memory : WorkspaceRef → Bool
is_memory (memory_workspace _) = true
is_memory _ = false

-- `CreateRunOptions`, and the options of the engine that the creation reads. `negotiate` stands for
-- `probeRuntime` and `assertRuntimeNegotiation`.
pub record CreateRun : Type 0 where
  pub is_worker : Bool
  pub has_artifacts : Bool
  pub run_id : String
  pub inputs : Dict JsonValue
  pub workspace : Option WorkspaceRef
  pub negotiate : WorkspaceRef → Result String RuntimeNegotiation
  pub accepts : RunEvent → Bool
  pub value_errors : JsonValue → JsonValue → List String

abbrev pub as_negotiation :
    Result String RuntimeNegotiation → Result CreationError (Option RuntimeNegotiation)
as_negotiation (err message) = err (negotiation_failed message)
as_negotiation (ok negotiation) = ok (some negotiation)

abbrev pub as_transition : {A : Type 0} → Result TransitionError A → Result CreationError A
as_transition (err e) = err (transition e)
as_transition (ok a) = ok a

abbrev pub as_conflict : {A : Type 0} → Result ConflictError A → Result CreationError A
as_conflict (err e) = err (conflict e)
as_conflict (ok a) = ok a

module _ (c : CreateRun) (w : WorkflowDefinition) where
  unfoldable pub negotiate_worker :
      Option WorkspaceRef → Result CreationError (Option RuntimeNegotiation)
  unfolding check_nodes
  negotiate_worker none = err worker_boundaries
  negotiate_worker (some workspace) = do
    guard (c.has_artifacts && not (is_memory workspace)) worker_boundaries
    check_nodes workspace (values w.nodes)
    as_negotiation (c.negotiate workspace)

  abbrev pub negotiation_payloads : Option RuntimeNegotiation → List RunEventPayload
  negotiation_payloads none = []
  negotiation_payloads (some negotiation) = runtime_negotiated negotiation ∷ []

  abbrev pub workspace_payloads : Option WorkspaceRef → List RunEventPayload
  workspace_payloads none = []
  workspace_payloads (some workspace) = observation (workspace_assigned workspace) ∷ []

  abbrev pub creation_payload : RunEventPayload
  creation_payload = run_created (record {
    workflow_instance_id = text_append c.run_id ":root";
    workflow_id = w.id;
    workflow_version = w.version;
    node_ids = w.node_order;
    inputs = c.inputs;
  })

  abbrev pub initial_payloads : Option RuntimeNegotiation → List String → List RunEventPayload
  initial_payloads negotiation ready_ids =
      negotiation_payloads negotiation
      ++ (workspace_payloads c.workspace
          ++ map (of_node (node_ready ReadyReason.dependencies_satisfied)) ready_ids)

  -- The stored runs and the state. Nothing is written before the last statement, so that an error
  -- leaves the stored runs as they were.
  unfoldable pub create_run : PersistedRuns → Result CreationError (PersistedRuns × RunState)
  unfolding negotiate_worker validate_inputs
  create_run runs = do
    negotiation ← if c.is_worker then negotiate_worker c.workspace else ok none
    validate_inputs c.value_errors w c.inputs
    created ← as_transition (materialize_events c.accepts none c.run_id (creation_payload ∷ []))
    initialized ← as_transition (
        materialize_events c.accepts (some created.1) c.run_id
          (initial_payloads negotiation (find_executable_nodes w created.1)))
    stored ←
        as_conflict
          (create runs c.run_id (record { workflow = w; events = created.0 ++ initialized.0 }))
    ok (stored, initialized.1)
