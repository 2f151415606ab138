-- ===== src/Store/Operations.antt =====
-- The operations on one run of the durable store (packages/engine/src/durable-store.ts), in any
-- sequence. An operation that throws leaves the run as `renew` leaves it, or unchanged.
use anastom.Prelude.{ℕ, List, [], ◌∷◌, ok, err}
use anastom.Store.Types.{
  AcquireReleasedRun, ControlSubmission, FencedRunMutation, Host, MemoryRun, RunLeaseToken, Stored,
  TakeoverExpiredRun,
}
use anastom.Store.Leases.{acquire_released, release, renew, takeover_expired}
use anastom.Store.Commits.{commit, submit_control}

pub data Operation : Type 0 where
  acquire : AcquireReleasedRun → Operation
  take_over : TakeoverExpiredRun → Operation
  renew_lease release_lease : RunLeaseToken → Operation
  commit_events : FencedRunMutation → Operation
  submit : ControlSubmission → Operation

abbrev pub kept_or : MemoryRun → Stored MemoryRun → MemoryRun
kept_or run (ok run') = run'
kept_or run (err e) = run

abbrev pub written_or : {A : Type 0} → MemoryRun → Stored (A × MemoryRun) → MemoryRun
written_or run (ok (a, run')) = run'
written_or run (err e) = run

module _ (host : Host) where
  -- The run behind an operation at the clock's time.
  unfoldable pub perform : MemoryRun → ℕ × Operation → MemoryRun
  perform run (now, acquire i) = kept_or run (acquire_released run i now)
  perform run (now, take_over i) = kept_or run (takeover_expired run i now)
  perform run (now, renew_lease t) = (renew run t now).0
  perform run (now, release_lease t) = kept_or run (release run t)
  perform run (now, commit_events i) = written_or run (commit host run i now)
  perform run (now, submit i) = written_or run (submit_control run i now)

  unfoldable pub perform_all : MemoryRun → List (ℕ × Operation) → MemoryRun
  perform_all run [] = run
  perform_all run (o ∷ os) = perform_all (perform run o) os
