-- ===== src/Node/Startup.antt =====
-- From the start of `main` of crates/atomic-node/src/main.rs to the end of its recovery, and
-- `run_replay`. The process ends, `none`, where a snapshot cannot be restored.
use atomic_mesh.Base.{ℕ, ◌+◌, false, Option, none, some, List, [], ◌∷◌, if◌then◌else◌}
use atomic_mesh.Base.Word.{u64}
use atomic_mesh.Core.Event.{
  Event, EventPayload, order_new, order_fill, order_partial_fill, order_reject,
}
use atomic_mesh.Core.Snapshot.{EngineSnapshot}
use atomic_mesh.Execution.Engine.{ExecutionEngine, process_event}
use atomic_mesh.Execution.Persist.{Codec, RestoreError, state_hash, restore}
use atomic_mesh.Execution.Verifier.{StateVerifier, tick, on_verified}
use atomic_mesh.Recovery.{EventDeduplicator, deduplicator_from, check}
use atomic_mesh.Recovery.Plan.{RecoveryPlan, seq_or_zero}
use atomic_mesh.Replay.Log.{IoResult, ok, err}
use atomic_mesh.Strategy.Engine.{StrategyEngine, dispatch_event}

-- The counters of `PipelineMetrics` that these parts use.
pub record Counters : Type 0 where
  pub total_events : ℕ
  pub total_orders : ℕ
  pub total_fills : ℕ
  pub total_rejects : ℕ

pub record Components : Type 1 where
  pub execution : ExecutionEngine
  pub strategy_engine : StrategyEngine
  pub verifier : StateVerifier
  pub metrics : Counters

-- The plan of a cold start, where the recovery scan failed.
unfoldable pub cold_plan : RecoveryPlan
cold_plan = record {
  snapshot = none;
  events_to_replay = [];
  need_peer_sync = false;
  sync_from_seq = 0;
  expected_next_seq = 1;
}

unfoldable pub plan_or_cold : IoResult RecoveryPlan → RecoveryPlan
unfolding cold_plan
plan_or_cold (ok plan) = plan
plan_or_cold (err e) = cold_plan

abbrev counted_event : Counters → Counters
counted_event m = record m { total_events = u64 (m.total_events + 1) }

unfoldable pub counted_payload : Counters → EventPayload → Counters
counted_payload m (order_new _) = record m { total_orders = u64 (m.total_orders + 1) }
counted_payload m (order_fill _) = record m { total_fills = u64 (m.total_fills + 1) }
counted_payload m (order_partial_fill _) = record m { total_fills = u64 (m.total_fills + 1) }
counted_payload m (order_reject _) = record m { total_rejects = u64 (m.total_rejects + 1) }
counted_payload m _ = m

module _ (c : Codec) where
  -- The periodic verification after an event.
  unfoldable pub verify_state : StateVerifier → ExecutionEngine → Event → StateVerifier
  verify_state v execution event =
      let (v', due) = tick v in
      if due then on_verified v' event.seq (state_hash c execution) else v'

  -- What the recovery loop does with an event that is not a duplicate.
  unfoldable pub recover_event : Components → Event → Components
  unfolding verify_state
  recover_event s event =
      let execution = (process_event s.execution event).0 in
      record {
        execution = execution;
        strategy_engine = (dispatch_event s.strategy_engine event).0;
        verifier = verify_state s.verifier execution event;
        metrics = counted_event s.metrics;
      }

  unfoldable pub recover_events : EventDeduplicator → Components → List Event → Components
  unfolding recover_event
  recover_events dedup s [] = s
  recover_events dedup s (event ∷ events) =
      let (dedup', fresh) = check dedup event.seq in
      recover_events dedup' (if fresh then recover_event s event else s) events

  abbrev pub restored_components :
      Components → EngineSnapshot → ExecutionEngine × Option RestoreError → Option Components
  restored_components s snapshot (execution, some e) = none
  restored_components s snapshot (execution, none) = some (record s {
    execution = execution;
    verifier = on_verified s.verifier snapshot.seq snapshot.state_hash;
  })

  unfoldable pub restore_components : Components → Option EngineSnapshot → Option Components
  restore_components s none = some s
  restore_components s (some snapshot) =
      restored_components s snapshot (restore c s.execution snapshot)

  abbrev pub after_restore : RecoveryPlan → Option Components → Option Components
  after_restore plan none = none
  after_restore plan (some s) =
      some (recover_events (deduplicator_from (seq_or_zero plan.snapshot)) s plan.events_to_replay)

  unfoldable pub recover : Components → RecoveryPlan → Option Components
  unfolding restore_components recover_events
  recover s plan = after_restore plan (restore_components s plan.snapshot)

  -- The loop of `run_replay`.
  unfoldable pub replay_event : Components → Event → Components
  unfolding verify_state counted_payload
  replay_event s event =
      let execution = (process_event s.execution event).0 in
      record {
        execution = execution;
        strategy_engine = (dispatch_event s.strategy_engine event).0;
        verifier = verify_state s.verifier execution event;
        metrics = counted_payload (counted_event s.metrics) event.payload;
      }

  unfoldable pub run_replay : Components → List Event → Components
  unfolding replay_event
  run_replay s [] = s
  run_replay s (event ∷ events) = run_replay (replay_event s event) events
