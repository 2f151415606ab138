-- ===== src/Store/Loading.antt =====
-- Loading of a stored run (packages/engine/src/durable-store.ts, `load` and `snapshotCompatible`).
use anastom.Prelude.{
  ℕ, String, Bool, false, ◌&&◌, List, [], ◌∷◌, Option, none, some, lookup, ok, err, ◌>>=◌, ◌>>◌,
  guard, take, drop, leb, if◌then◌else◌, Result,
}
use anastom.Run.State.{RunState}
use anastom.Run.Event.{RunEvent}
use anastom.Run.Guards.{TransitionError}
use anastom.Run.Reducer.{fold_events, replay_run}
use anastom.Workflow.Definition.{WorkflowDefinition}
use anastom.Store.Types.{Host, MemoryRun, RunSnapshot, Stored, type_error}
use anastom.Store.Checks.{is_identifier, same_snapshot}
use anastom.Store.Snapshots.{assert_state_matches_workflow, create_run_snapshot, rethrow}
use anastom.Store.Runs.{Runs}

pub data SnapshotSource : Type 0 where
  snapshot_tail full_replay : SnapshotSource

pub data LoadMode : Type 0 where
  execution complete_history : LoadMode

pub record LoadedRun : Type 0 where
  pub workflow : WorkflowDefinition
  pub state : RunState
  pub event_prefix_digest : String
  pub snapshot_source : SnapshotSource
  pub snapshot_sequence : Option ℕ
  pub events : Option (List RunEvent)

-- Latest first; equal sequences keep their order.
unfoldable pub insert_latest : RunSnapshot → List RunSnapshot → List RunSnapshot
insert_latest s [] = s ∷ []
insert_latest s (t ∷ ts) = if leb t.sequence s.sequence then s ∷ t ∷ ts else t ∷ insert_latest s ts

unfoldable pub latest_first : List RunSnapshot → List RunSnapshot
unfolding insert_latest
latest_first [] = []
latest_first (s ∷ ss) = insert_latest s (latest_first ss)

unfoldable pub find_snapshot : (RunSnapshot → Bool) → List RunSnapshot → Option RunSnapshot
find_snapshot p [] = none
find_snapshot p (s ∷ ss) = if p s then some s else find_snapshot p ss

module _ (host : Host) where
  -- The tail is applied to the parsed state; a throw on the way is `false`.
  abbrev reaches : RunState → Result TransitionError (Option RunState) → Bool
  reaches expected (ok (some s)) = host.same_state s expected
  reaches expected _ = false

  abbrev restores : Option RunState → List RunEvent → RunState → Bool
  restores none tail expected = false
  restores (some s) tail expected = reaches expected (fold_events host.accepts_event (some s) tail)

  abbrev is_expected : RunSnapshot → Stored RunSnapshot → Bool
  is_expected s (ok expected) = same_snapshot s expected
  is_expected s (err e) = false

  unfoldable pub snapshot_compatible :
      RunSnapshot → WorkflowDefinition → List RunEvent → RunState → Bool
  snapshot_compatible s w events expected =
      is_expected s (create_run_snapshot host w (take s.sequence events))
      && restores (host.parse_state s.state_json) (drop s.sequence events) expected

  abbrev pub loaded_run : LoadMode → MemoryRun → RunState → String → Option RunSnapshot → LoadedRun
  loaded_run mode run s digest compatible = record {
    workflow = run.workflow;
    state = s;
    event_prefix_digest = digest;
    snapshot_source = elim compatible [
      | none ↦ SnapshotSource.full_replay
      | some c ↦ SnapshotSource.snapshot_tail
    ];
    snapshot_sequence = elim compatible [ none ↦ none | some c ↦ some c.sequence ];
    events = elim mode [ LoadMode.execution ↦ none | LoadMode.complete_history ↦ some run.events ];
  }

  unfoldable pub load_run : LoadMode → MemoryRun → Stored LoadedRun
  load_run mode run = do
    s ← rethrow (replay_run host.accepts_event run.events)
    assert_state_matches_workflow s run.workflow
    whole ← create_run_snapshot host run.workflow run.events
    let compatible =
        find_snapshot (λ t. snapshot_compatible t run.workflow run.events s)
          (latest_first run.snapshots)
    ok (loaded_run mode run s whole.event_prefix_digest compatible)

  abbrev load_found : LoadMode → Option MemoryRun → Stored (Option LoadedRun)
  load_found mode none = ok none
  load_found mode (some run) = load_run mode run >>= λ l. ok (some l)

  unfoldable pub load : Runs → String → LoadMode → Stored (Option LoadedRun)
  load runs i mode = do guard (is_identifier i) type_error; load_found mode (lookup i runs)
