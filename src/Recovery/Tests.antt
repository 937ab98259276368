-- ===== src/Recovery/Tests.antt =====
-- A run of the deduplicator, and the theorem about it.
use atomic_mesh.Base.{ℕ, ◌≤◌, ◌≡◌, refl, ◌⊎◌, Option, none, some, List, [], ◌∷◌, arith, filter, ltb}
use atomic_mesh.Core.Event.{Event, heartbeat}
use atomic_mesh.Core.Snapshot.{Bytes, EngineSnapshot, verify}
use atomic_mesh.Replay.Log.{Files, IoResult, ok}
use atomic_mesh.Recovery.Plan.{
  RecoveryCoordinator, plan_of, load_latest_snapshot, run_ops, save_ops,
}
use atomic_mesh.Recovery.Missing.{Verdict, plan_of-Verdict}
use atomic_mesh.Recovery.Saved.{interrupted, save_ops-atomic}
use atomic_mesh.Recovery.{new_deduplicator, checks, first_times, checks_lem}

checks_lem_example :
    checks new_deduplicator (4 ∷ 2 ∷ 4 ∷ 2 ∷ 9 ∷ []) ≡ first_times [] (4 ∷ 2 ∷ 4 ∷ 2 ∷ 9 ∷ [])
checks_lem_example = checks_lem (4 ∷ 2 ∷ 4 ∷ 2 ∷ 9 ∷ []) (omega arith)

abbrev beat : ℕ → Event
beat seq = record {
  seq = seq;
  timestamp = 9;
  source = [];
  payload = heartbeat (record { node_id = []; uptime_secs = 1 });
}

abbrev gapped : List Event
gapped = beat 1 ∷ beat 2 ∷ beat 5 ∷ []

plan_of-Verdict_example :
    let plan = plan_of none gapped in
    (plan.events_to_replay ≡ filter (λ e. ltb 0 e.seq) gapped)
    × Verdict 1 gapped plan.events_to_replay plan.need_peer_sync plan.sync_from_seq
        plan.expected_next_seq
plan_of-Verdict_example =
    plan_of-Verdict none gapped (omega arith) (omega arith, (omega arith, (omega arith, tt)))
      (omega arith, (omega arith, tt))

abbrev coordinator : RecoveryCoordinator
coordinator = record { snapshot_dir = "dir"; event_log_path = "log" }

abbrev saved : EngineSnapshot
saved = record { seq = 7; timestamp = 1; state_hash = []; events_since_last = 0; state_data = [] }

abbrev write : EngineSnapshot → Option Bytes
write s = some (1 ∷ 2 ∷ [])

-- A file that is cut off is not a snapshot.
abbrev read : Bytes → Option EngineSnapshot
read (a ∷ b ∷ []) = some saved
read _ = none

abbrev same : Bytes → Bytes
same b = b

abbrev no_event : Bytes → Option Event
no_event b = none

abbrev nothing : Files
nothing = []

abbrev load : Files → IoResult (Option EngineSnapshot)
load = load_latest_snapshot write read same no_event coordinator

save_ops-atomic_example :
    (files' : Files) × (run_ops (interrupted 2 1 (save_ops "dir" 7 (1 ∷ 2 ∷ []))) nothing
      ≡ ok files')
    × ((load files' ≡ load nothing) ⊎ (load files' ≡ ok (some saved)))
    × (4 ≤ 2 → load files' ≡ ok (some saved))
save_ops-atomic_example =
    save_ops-atomic read same no_event write coordinator saved (1 ∷ 2 ∷ []) 2 1 nothing refl
      (unfold verify in refl)
