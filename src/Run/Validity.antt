-- ===== src/Run/Validity.antt =====
-- The invariant of a whole run (packages/engine/src/events.ts), and what keeps it.
use anastom.Prelude.{
  String, Bool, true, false, not, ◌&&◌, ◌≡◌, sym, subst, List, [], ◌∷◌, Option, some, ok, All,
  All-lookup, All-values-insert, any, all, values, arith,
}
use anastom.Contract.{RuntimeDescriptor}
use anastom.Run.State.{AttemptState, NodeRunState, NodeStatus, RunState, RunStatus}
use anastom.Run.Guards.{Checked, at_node}
use anastom.Run.Observations.{is_set}
use anastom.Run.Lifecycle.{is_node_succeeded, is_node_failed}
use anastom.Run.Reducer.{has_attempts, is_nonempty, configure_runtime, is_terminal}
use anastom.Run.Inversion.{at_node-eq-ok}
use anastom.Run.Wellformed.{AttemptsValid, NodeValid}

-- The status of the run agrees with its nodes and with the reasons that it keeps.
abbrev pub status_shown : RunState → Bool
status_shown s = elim s.status [
  | RunStatus.succeeded ↦ all is_node_succeeded (values s.nodes)
  | RunStatus.failed ↦ any is_node_failed (values s.nodes)
  | RunStatus.recovery_blocked ↦ is_set s.recovery_block
  | _ ↦ true
]

abbrev pub reasons_cleared : RunState → Bool
reasons_cleared s = elim s.status [
  | RunStatus.paused ↦ true
  | RunStatus.cancelled ↦ true
  | RunStatus.recovery_blocked ↦ true
  | _ ↦ not (is_set s.pause_reason) && not (is_set s.recovery_block)
]

pub record RunValid (s : RunState) : Type 0 where
  pub nodes_valid : All (NodeValid s.runtime_descriptor) (values s.nodes)
  pub shown : status_shown s ≡ true
  pub cleared : reasons_cleared s ≡ true

pub at_node-RunValid :
    (s : RunState) (node_id : String) (change : NodeRunState → Checked NodeRunState) {s' : RunState}
    → ((n n' : NodeRunState)
        → change n ≡ ok n'
        → NodeValid s.runtime_descriptor n
        → NodeValid s.runtime_descriptor n')
    → is_terminal s.status ≡ false
    → at_node s node_id change ≡ ok s'
    → RunValid s
    → RunValid s'
at_node-RunValid s node_id change {s'} keep live h v =
    let (n, n', found, changed, e) = at_node-eq-ok s node_id change h in
    let d = s.runtime_descriptor in
    let old = All-lookup (NodeValid d) node_id s.nodes v.nodes_valid found in
    subst RunValid (sym e) (record {
      nodes_valid =
          All-values-insert (NodeValid d) node_id n' s.nodes v.nodes_valid (keep n n' changed old);
      shown = ground (arith, v.shown);
      cleared = v.cleared;
    })

-- No attempt has been made yet, so that evidence of a runtime changes nothing.
pub runtime_free_attempts :
    (d d' : Option RuntimeDescriptor) (status : NodeStatus) (attempts : List AttemptState)
    → is_nonempty attempts ≡ false
    → AttemptsValid d status attempts
    → AttemptsValid d' status attempts
runtime_free_attempts d d' status [] h v = record {
  numbered = tt;
  settled = tt;
  each = tt;
  agreed = v.agreed;
}
runtime_free_attempts d d' status (a ∷ more) h v = cc

pub runtime_free_nodes :
    (d d' : Option RuntimeDescriptor) (ns : List NodeRunState)
    → any has_attempts ns ≡ false
    → All (NodeValid d) ns
    → All (NodeValid d') ns
runtime_free_nodes d d' [] h v = tt
runtime_free_nodes d d' (n ∷ ns) h v = (
  runtime_free_attempts d d' n.status n.attempts (ground arith) v.0,
  runtime_free_nodes d d' ns (ground arith) v.1,
)

pub configure_runtime-RunValid :
    (s : RunState) (d : RuntimeDescriptor) {s' : RunState}
    → configure_runtime s d ≡ ok s'
    → RunValid s
    → RunValid s'
unfolding configure_runtime
configure_runtime-RunValid s d {s'} h v =
    let e : s' ≡ record s { runtime_descriptor = some d } = ground arith in
    subst RunValid (sym e) (record {
      nodes_valid =
          runtime_free_nodes s.runtime_descriptor (some d) (values s.nodes) (ground arith)
            v.nodes_valid;
      shown = v.shown;
      cleared = v.cleared;
    })

-- `RunValid` reads these parts of the state alone.
pub same_parts-RunValid :
    (s s' : RunState)
    → s'.nodes ≡ s.nodes
    → s'.runtime_descriptor ≡ s.runtime_descriptor
    → status_shown s' ≡ true
    → reasons_cleared s' ≡ true
    → RunValid s
    → RunValid s'
same_parts-RunValid s s' n d g c v = record {
  nodes_valid = rw (n, d) v.nodes_valid;
  shown = g;
  cleared = c;
}
