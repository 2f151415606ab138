-- ===== src/Engine/Persistence.antt =====
-- `InMemoryRunPersistence` (packages/engine/src/persistence.ts).
use anastom.Prelude.{
  ℕ, suc, String, Bool, true, false, not, ◌&&◌, List, [], ◌∷◌, ◌++◌, Option, none, some, Result, ok,
  ◌>>=◌, ◌>>◌, guard, or_throw, Dict, lookup, insert, get_last?, ◌==◌, text_equality,
  number_equality,
}
use anastom.Run.Event.{RunEvent}
use anastom.Workflow.Definition.{WorkflowDefinition}

pub record PersistedRun : Type 0 where
  pub workflow : WorkflowDefinition
  pub events : List RunEvent

-- One constructor for each message of a `PersistenceConflictError`.
pub data ConflictError : Type 0 where
  already_exists does_not_exist stale_sequence not_next_event : ConflictError

-- The map `runs`.
abbrev pub PersistedRuns : Type 0
PersistedRuns = Dict PersistedRun

abbrev is_some {ℓ} : {A : Type ℓ} → Option A → Bool
is_some none = false
is_some (some a) = true

unfoldable pub create : PersistedRuns → String → PersistedRun → Result ConflictError PersistedRuns
create runs run_id run = do
  guard (not (is_some (lookup run_id runs))) ConflictError.already_exists
  ok (insert run_id run runs)

-- `run.events.at(-1)?.sequence ?? 0`.
abbrev pub actual_sequence : List RunEvent → ℕ
actual_sequence es = elim (get_last? es) [ none ↦ 0 | some e ↦ e.sequence ]

-- The loop over the new events; `expected` is the sequence of the first of them.
unfoldable pub are_next : String → ℕ → List RunEvent → Bool
are_next run_id expected [] = true
are_next run_id expected (e ∷ es) =
    e.run_id == run_id && e.sequence == expected && are_next run_id (suc expected) es

unfoldable pub append :
    PersistedRuns → String → ℕ → List RunEvent → Result ConflictError PersistedRuns
unfolding are_next
append runs run_id expected_sequence events = do
  run ← or_throw (lookup run_id runs) ConflictError.does_not_exist
  guard (actual_sequence run.events == expected_sequence) ConflictError.stale_sequence
  guard (are_next run_id (suc expected_sequence) events) ConflictError.not_next_event
  ok (insert run_id (record run { events = run.events ++ events }) runs)

abbrev pub load : PersistedRuns → String → Option PersistedRun
load runs run_id = lookup run_id runs
