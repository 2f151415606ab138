-- ===== src/Run/Wellformed.antt =====
-- The well-formedness of a node (packages/engine/src/events.ts): attempts are numbered from 1, only
-- the last one may be running, the node's status agrees with it, and the evidence of each attempt
-- is consistent.
pub mod Attempts
pub mod Nodes
use anastom.Prelude.{
  ℕ, suc, ◌+◌, Bool, true, false, not, ◌&&◌, ◌||◌, ◌≡◌, sym, inl, inr, Option-cases, subst, List,
  [], ◌∷◌, ◌++◌, Option, none, some, All, All-get_last?, All-set_last, All-append, length,
  get_last?, get_last?-set_last, get_last?-append, set_last, arith,
}
use anastom.Contract.{ExecutionFailure, RuntimeDescriptor}
use anastom.Run.State.{
  AttemptState, AttemptStatus, NodeRunState, NodeStatus, Timeout, attempt_status_eq,
}
use anastom.Run.Observations.{is_set}
use anastom.Run.Attempts.{matches_plan, is_budget_failure, is_cancelled_timeout}

-- Attempts count up from `k`.
abbrev pub Numbered : ℕ → List AttemptState → Type 0
Numbered k [] = Unit {0}
Numbered k (a ∷ more) = (a.number ≡ k) × Numbered (suc k) more

abbrev pub is_running_attempt : AttemptState → Bool
is_running_attempt a = attempt_status_eq a.status AttemptStatus.running

-- No attempt before the last one is running.
abbrev pub Settled : List AttemptState → Type 0
Settled [] = Unit {0}
Settled (a ∷ []) = Unit {0}
Settled (a ∷ b ∷ more) = (is_running_attempt a ≡ false) × Settled (b ∷ more)

-- An execution was authorized only for the plan that was prepared.
abbrev runs_its_plan : AttemptState → Bool
runs_its_plan a = elim a.execution [ none ↦ true | some e ↦ matches_plan a.execution_plan e ]

-- A late result is recorded only behind a completed cancellation.
abbrev late_in_order : Option Timeout → Bool
late_in_order none = true
late_in_order (some t) = not (is_set t.late_status) || is_set t.cancellation

abbrev failed_by_budget : Option ExecutionFailure → Bool
failed_by_budget none = false
failed_by_budget (some f) = is_budget_failure f

-- A timed-out attempt ends only as a budget failure behind a completed cancellation, or orphaned.
abbrev ends_in_time : AttemptStatus → Option ExecutionFailure → Option Timeout → Bool
ends_in_time AttemptStatus.succeeded f t = not (is_set t)
ends_in_time AttemptStatus.blocked f t = not (is_set t)
ends_in_time AttemptStatus.cancelled f t = not (is_set t)
ends_in_time AttemptStatus.failed f t =
    not (is_set t) || failed_by_budget f && is_cancelled_timeout t
ends_in_time AttemptStatus.scheduled f t = not (is_set t)
ends_in_time AttemptStatus.prepared f t = not (is_set t)
ends_in_time _ f t = true

-- Under a configured runtime no attempt runs, or ends by itself, without an authorization.
abbrev was_authorized : Option RuntimeDescriptor → AttemptState → Bool
was_authorized none a = true
was_authorized (some d) a = elim a.status [
  | AttemptStatus.scheduled ↦ true
  | AttemptStatus.prepared ↦ true
  | AttemptStatus.orphaned ↦ true
  | _ ↦ is_set a.execution
]

abbrev is_planned : AttemptState → Bool
is_planned a = not (attempt_status_eq a.status AttemptStatus.prepared) || is_set a.execution_plan

pub record AttemptValid (d : Option RuntimeDescriptor) (a : AttemptState) : Type 0 where
  pub plan_followed : runs_its_plan a ≡ true
  pub planned : is_planned a ≡ true
  pub late_ordered : late_in_order a.timeout ≡ true
  pub ended_in_time : ends_in_time a.status a.failure a.timeout ≡ true
  pub authorized : was_authorized d a ≡ true
  pub not_yet_run :
      attempt_status_eq a.status AttemptStatus.scheduled ≡ true → is_set a.execution ≡ false

-- The node's status agrees with that of its last attempt.
abbrev pub agrees : NodeStatus → Option AttemptState → Bool
agrees NodeStatus.pending none = true
agrees NodeStatus.pending (some a) = false
agrees NodeStatus.running none = false
agrees NodeStatus.running (some a) =
    not (attempt_status_eq a.status AttemptStatus.scheduled)
    && not (attempt_status_eq a.status AttemptStatus.prepared)
agrees NodeStatus.succeeded none = false
agrees NodeStatus.succeeded (some a) = attempt_status_eq a.status AttemptStatus.succeeded
agrees NodeStatus.failed none = false
agrees NodeStatus.failed (some a) = attempt_status_eq a.status AttemptStatus.failed
agrees _ none = true
agrees _ (some a) = not (is_running_attempt a)

pub record AttemptsValid (d : Option RuntimeDescriptor) (status : NodeStatus)
    (attempts : List AttemptState) : Type 0 where
  pub numbered : Numbered 1 attempts
  pub settled : Settled attempts
  pub each : All (AttemptValid d) attempts
  pub agreed : agrees status (get_last? attempts) ≡ true

abbrev pub NodeValid : Option RuntimeDescriptor → NodeRunState → Type 0
NodeValid d node = AttemptsValid d node.status node.attempts

Numbered-set_last :
    (k : ℕ) (more : List AttemptState) {a : AttemptState} (v : AttemptState)
    → get_last? more ≡ some a
    → v.number ≡ a.number
    → Numbered k more
    → Numbered k (set_last more v)
Numbered-set_last k [] v l e h = h
Numbered-set_last k (x ∷ []) v l e h = ground arith
Numbered-set_last k (x ∷ y ∷ more) v l e h = (h.0, Numbered-set_last (suc k) (y ∷ more) v l e h.1)

Numbered-append :
    (k : ℕ) (more : List AttemptState) (v : AttemptState)
    → v.number ≡ length more + k
    → Numbered k more
    → Numbered k (more ++ v ∷ [])
Numbered-append k [] v e h = (omega arith, tt)
Numbered-append k (x ∷ more) v e h = (h.0, Numbered-append (suc k) more v (omega arith) h.1)

Settled-set_last :
    (more : List AttemptState) (v : AttemptState) → Settled more → Settled (set_last more v)
Settled-set_last [] v h = h
Settled-set_last (x ∷ []) v h = h
Settled-set_last (x ∷ y ∷ []) v h = h
Settled-set_last (x ∷ y ∷ z ∷ more) v h = (h.0, Settled-set_last (y ∷ z ∷ more) v h.1)

abbrev pub is_last_running : Option AttemptState → Bool
is_last_running none = false
is_last_running (some a) = is_running_attempt a

Settled-append :
    (more : List AttemptState) (v : AttemptState)
    → is_last_running (get_last? more) ≡ false
    → Settled more
    → Settled (more ++ v ∷ [])
Settled-append [] v l h = tt
Settled-append (x ∷ []) v l h = (l, tt)
Settled-append (x ∷ y ∷ more) v l h = (h.0, Settled-append (y ∷ more) v l h.1)

module _ {d : Option RuntimeDescriptor} {status status' : NodeStatus}
    {attempts : List AttemptState} where
  -- The last attempt is rewritten.
  pub set_last-AttemptsValid :
      {a : AttemptState} (v : AttemptState)
      → get_last? attempts ≡ some a
      → AttemptsValid d status attempts
      → v.number ≡ a.number
      → AttemptValid d v
      → agrees status' (some v) ≡ true
      → AttemptsValid d status' (set_last attempts v)
  set_last-AttemptsValid v l h e p g = record {
    numbered = Numbered-set_last 1 attempts v l e h.numbered;
    settled = Settled-set_last attempts v h.settled;
    each = All-set_last (AttemptValid d) attempts v h.each p;
    agreed = rw (get_last?-set_last attempts v l) g;
  }

  -- One more attempt is scheduled.
  pub append-AttemptsValid :
      (v : AttemptState)
      → AttemptsValid d status attempts
      → is_last_running (get_last? attempts) ≡ false
      → v.number ≡ length attempts + 1
      → AttemptValid d v
      → agrees status' (some v) ≡ true
      → AttemptsValid d status' (attempts ++ v ∷ [])
  append-AttemptsValid v h l e p g = record {
    numbered = Numbered-append 1 attempts v e h.numbered;
    settled = Settled-append attempts v l h.settled;
    each = All-append (AttemptValid d) attempts (v ∷ []) h.each (p, tt);
    agreed = rw (get_last?-append attempts v) g;
  }

  -- Only the node's status changes.
  pub status-AttemptsValid :
      AttemptsValid d status attempts
      → agrees status' (get_last? attempts) ≡ true
      → AttemptsValid d status' attempts
  status-AttemptsValid h g = record {
    numbered = h.numbered;
    settled = h.settled;
    each = h.each;
    agreed = g;
  }

-- The rule for a transition that rewrites the last attempt, and perhaps the node's status. Without an
-- attempt the transition was refused.
pub rewritten-NodeValid :
    {d : Option RuntimeDescriptor} (node node' : NodeRunState) (f : AttemptState → AttemptState)
    → (get_last? node.attempts ≡ none → ⊥)
    → ((a : AttemptState)
        → get_last? node.attempts ≡ some a
        → AttemptValid d a
        → agrees node.status (some a) ≡ true
        → (node'.attempts ≡ set_last node.attempts (f a))
          × ((f a).number ≡ a.number)
          × AttemptValid d (f a)
          × (agrees node'.status (some (f a)) ≡ true))
    → NodeValid d node
    → NodeValid d node'
rewritten-NodeValid {d} node node' f refused step v =
    elim (Option-cases (get_last? node.attempts)) [
      | inl e ↦ absurd (refused e)
      | inr (a, e) ↦
          let (w, n, p, g) =
            step a e (All-get_last? (AttemptValid d) node.attempts v.each e)
              (subst (λ o. agrees node.status o ≡ true) e v.agreed) in
          subst (AttemptsValid d node'.status) (sym w) (set_last-AttemptsValid (f a) e v n p g)
    ]
