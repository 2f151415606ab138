-- ===== src/Store/Controls.antt =====
-- The listing of pending controls (packages/engine/src/durable-store.ts, `pendingControls`).
use anastom.Prelude.{
  ℕ, String, Bool, ◌&&◌, ◌||◌, List, [], ◌∷◌, map, values, take, ltb, ◌==◌, number_equality, ok,
  ◌>>=◌, ◌>>◌, guard, if◌then◌else◌,
}
use anastom.Store.Types.{ControlRequest, MemoryControl, MemoryRun, Stored, type_error}
use anastom.Store.Checks.{assert_control_limit, is_identifier}
use anastom.Store.Commits.{control_request, is_pending}
use anastom.Store.Runs.{Runs, require_run}

unfoldable pub pending : List MemoryControl → List MemoryControl
pending [] = []
pending (c ∷ cs) = if is_pending c then c ∷ pending cs else pending cs

-- `localeCompare` is at most zero. It depends on the locale and is a parameter.
module _ (locale_le : String → String → Bool) where
  -- The comparison is at most zero: an older control, or one as old whose identity is not behind.
  abbrev pub not_behind : MemoryControl → MemoryControl → Bool
  not_behind c d =
      ltb c.recorded_at_ms d.recorded_at_ms
      || c.recorded_at_ms == d.recorded_at_ms && locale_le c.operation_id d.operation_id

  unfoldable pub insert_oldest : MemoryControl → List MemoryControl → List MemoryControl
  insert_oldest c [] = c ∷ []
  insert_oldest c (d ∷ ds) = if not_behind c d then c ∷ d ∷ ds else d ∷ insert_oldest c ds

  unfoldable pub oldest_first : List MemoryControl → List MemoryControl
  unfolding insert_oldest
  oldest_first [] = []
  oldest_first (c ∷ cs) = insert_oldest c (oldest_first cs)

  unfoldable pub list_pending : MemoryRun → ℕ → List ControlRequest
  list_pending run limit =
      map control_request (take limit (oldest_first (pending (values run.controls))))

  unfoldable pub pending_controls : Runs → String → ℕ → Stored (List ControlRequest)
  pending_controls runs i limit = do
    guard (is_identifier i) type_error
    assert_control_limit limit
    run ← require_run runs i
    ok (list_pending run limit)
