-- ===== src/Run/Inversion.antt =====
-- What the shared guards of packages/engine/src/events.ts leave behind when they do not throw.
use anastom.Prelude.{
  String, Bool, true, ◌≡◌, some, ok, ◌>>=◌, get_last?, lookup, number_equality, arith,
}
use anastom.Run.State.{AttemptState, NodeRunState, RunState}
use anastom.Run.Guards.{TransitionError, Checked, current_attempt, at_node, put_node}

pub current_attempt-eq-ok :
    (node : NodeRunState) (check : AttemptState → Bool) (e : TransitionError) {A : Type 0}
    (k : AttemptState → Checked A) {x : A}
    → (current_attempt node check e >>= k) ≡ ok x
    → (a : AttemptState) × (get_last? node.attempts ≡ some a) × (check a ≡ true) × (k a ≡ ok x)
current_attempt-eq-ok node check e k {x} h = ground arith

pub at_node-eq-ok :
    (s : RunState) (node_id : String) (change : NodeRunState → Checked NodeRunState) {s' : RunState}
    → at_node s node_id change ≡ ok s'
    → (node : NodeRunState) × (node' : NodeRunState) × (lookup node_id s.nodes ≡ some node)
      × (change node ≡ ok node')
      × (s' ≡ put_node s node_id node')
unfolding at_node
at_node-eq-ok s node_id change h = ground arith
