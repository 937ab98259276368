-- ===== src/Node/Recovered.antt =====
-- Recovery brings the engine back to where it was.
use mathlib.Core.List.{map-append}
use atomic_mesh.Base.{
  string_eq, beq_refl, Option, ℕ, ◌≤◌, ◌<◌, ◌≡◌, refl, sym, ◌∙◌, ap, subst, true, some, List, [],
  ◌∷◌, ◌++◌, filter, All, ltb, arith, if◌then◌else◌,
}
use atomic_mesh.Core.Event.{Event}
use atomic_mesh.Core.Snapshot.{Bytes, EngineSnapshot, verify, bytes_eq}
use atomic_mesh.Execution.Engine.{ExecutionEngine, new_engine, process_event, process_all}
use atomic_mesh.Execution.Persist.{Codec, ReadsBack, state_of, snapshot, restore}
use atomic_mesh.Execution.Persist.RoundTrip.{SameOrders, restore-snapshot}
use atomic_mesh.Execution.Persist.Unique.{process_all-IsIndexed}
use atomic_mesh.Execution.Persist.Replayed.{process_all-same}
use atomic_mesh.Execution.Verifier.{on_verified}
use atomic_mesh.Recovery.Missing.{Rising}
use atomic_mesh.Recovery.{EventDeduplicator, deduplicator_from, check}
use atomic_mesh.Recovery.Plan.{
  RecoveryPlan, RecoveryCoordinator, plan_of, plan_recovery, latest_path,
}
use atomic_mesh.Base.HashMap.{get}
use atomic_mesh.Recovery.Planned.{plan_recovery-files}
use atomic_mesh.Replay.Log.{Files, ok}
use atomic_mesh.Replay.Log.RoundTrip.{Entry, Encodes, frames, events_of}
use atomic_mesh.Node.Startup.{
  plan_or_cold, Components, restored_components, after_restore, restore_components, recover_event,
  recover_events, recover, run_replay, replay_event,
}

filter-Rising :
    (m n : ℕ) (es : List Event) → m ≤ n → Rising n es → filter (λ e. ltb m e.seq) es ≡ es
filter-Rising m n [] h r = refl
filter-Rising m n (e ∷ es) h r = ground (arith, filter-Rising m e.seq es (omega (arith, r.0)) r.1)

filter-older :
    (n : ℕ) (olds news : List Event)
    → All (λ e. e.seq ≤ n) olds
    → filter (λ e. ltb n e.seq) (olds ++ news) ≡ filter (λ e. ltb n e.seq) news
filter-older n [] news a = refl
filter-older n (e ∷ olds) news a = ground (arith, filter-older n olds news a.1)

process_all-append :
    (xs ys : List Event) (e : ExecutionEngine)
    → process_all e (xs ++ ys) ≡ process_all (process_all e xs) ys
unfolding process_all
process_all-append [] ys e = refl
process_all-append (x ∷ xs) ys e = process_all-append xs ys (process_event e x).0

module _ (c : Codec) where
  check-newer :
      (d : EventDeduplicator) (seq : ℕ)
      → d.max_seen < seq
      → ((check d seq).1 ≡ true) × ((check d seq).0.max_seen ≡ seq)
  unfolding check
  check-newer d seq h = ground arith

  -- Events with rising numbers are never taken for duplicates, however many there are.
  recover_events-execution :
      (es : List Event) (d : EventDeduplicator) (s : Components)
      → Rising d.max_seen es
      → (recover_events c d s es).execution ≡ process_all s.execution es
  unfolding recover_events recover_event process_all
  recover_events-execution [] d s r = refl
  recover_events-execution (e ∷ es) d s r =
      let (fresh, top) = check-newer d e.seq r.0 in
      ap
        (λ b.
          (recover_events c (check d e.seq).0 (if b then recover_event c s e else s) es).execution)
        fresh
      ∙ recover_events-execution es (check d e.seq).0 (recover_event c s e)
          (subst (λ n. Rising n es) (sym top) r.1)

  -- A node that starts with the snapshot of an engine that had processed some events, and with a log
  -- of these events and later ones, has after its recovery the same order under each id, and the same
  -- counter, as an engine that processed the whole log from the start. The snapshot has the number of
  -- the last event before it, the later events have rising numbers, and the encoding can write the
  -- engine's state and reads it back.
  pub recover-same :
      (s : Components) (olds news : List Event) (b : Bytes) (seq ts : ℕ)
      → ReadsBack c
      → c.serialize (state_of (process_all new_engine olds)) ≡ some b
      → All (λ e. e.seq ≤ seq) olds
      → Rising seq news
      → let saved = snapshot c (process_all new_engine olds) seq ts in
        (s' : Components) × (recover c s (plan_of (some saved) (olds ++ news)) ≡ some s')
        × SameOrders s'.execution (process_all new_engine (olds ++ news))
  unfolding recover restore_components plan_of deduplicator_from snapshot
  recover-same s olds news b seq ts reads writes old r =
      let e : ExecutionEngine = process_all new_engine olds in
      let back =
        restore-snapshot c s.execution e b seq ts reads writes (process_all-IsIndexed olds) in
      let saved : EngineSnapshot = snapshot c e seq ts in
      let plan : RecoveryPlan = plan_of (some saved) (olds ++ news) in
      let execution : ExecutionEngine = (restore c s.execution saved).0 in
      let start : Components = record s {
        execution = execution;
        verifier = on_verified s.verifier seq saved.state_hash;
      } in
      let dedup : EventDeduplicator = deduplicator_from seq in
      let newer : plan.events_to_replay ≡ news =
        filter-older seq olds news old ∙ filter-Rising seq seq news (omega arith) r in
      let replayed : (recover_events c dedup start plan.events_to_replay).execution
          ≡ process_all execution news =
        ap (λ es. (recover_events c dedup start es).execution) newer
        ∙ recover_events-execution news dedup start r in
      (
        recover_events c dedup start plan.events_to_replay,
        ap (λ x. after_restore c plan (restored_components c s saved (execution, x))) back.0,
        subst (λ x. SameOrders x (process_all new_engine (olds ++ news))) (sym replayed)
            (subst (SameOrders (process_all execution news))
              (sym (process_all-append olds news new_engine))
              (process_all-same news execution e back.1)),
      )

  -- A node that starts on files with the snapshot of an engine that had processed some events, and
  -- with a log of these events and later ones, plans its recovery from them, and has after it the same
  -- order under each id, and the same counter, as an engine that processed the whole log from the
  -- start. The snapshot has the number of the last event before it, the later events have rising
  -- numbers, the encoding of the state and that of the snapshot read back what they wrote, and that of
  -- each event is shorter than 2 ^ 32 bytes and read back as the event.
  pub restart-same :
      (serialize : Event → Option Bytes) (deserialize : Bytes → Option Event)
      (serialize_snapshot : EngineSnapshot → Option Bytes)
      (deserialize_snapshot : Bytes → Option EngineSnapshot) (r : RecoveryCoordinator)
      (files : Files) (s : Components) (olds news : List Entry) (state bytes : Bytes) (seq ts : ℕ)
      → ReadsBack c
      → c.serialize (state_of (process_all new_engine (events_of olds))) ≡ some state
      → All (λ e. e.seq ≤ seq) (events_of olds)
      → Rising seq (events_of news)
      → get (latest_path r.snapshot_dir) files ≡ some bytes
      → deserialize_snapshot bytes
        ≡ some (snapshot c (process_all new_engine (events_of olds)) seq ts)
      → get r.event_log_path files ≡ some (frames (olds ++ news))
      → All (Encodes serialize deserialize) (olds ++ news)
      → (plan : RecoveryPlan) × (s' : Components) × (plan_recovery serialize_snapshot
            deserialize_snapshot c.compute_hash deserialize r files
          ≡ some (ok plan))
        × (recover c s (plan_or_cold (ok plan)) ≡ some s')
        × SameOrders s'.execution (process_all new_engine (events_of (olds ++ news)))
  unfolding plan_or_cold
  restart-same serialize deserialize ss ds r files s olds news state bytes seq ts reads writes old
        rising latest d g a =
      let saved : EngineSnapshot = snapshot c (process_all new_engine (events_of olds)) seq ts in
      let verified : verify c.compute_hash saved ≡ true =
        unfold verify snapshot in beq_refl saved.state_hash in
      let split : events_of (olds ++ news) ≡ events_of olds ++ events_of news =
        map-append (λ e. e.0) olds news in
      let (s', run, same) =
        recover-same s (events_of olds) (events_of news) state seq ts reads writes old rising in
      (
        plan_of (some saved) (events_of (olds ++ news)),
        s',
        plan_recovery-files serialize deserialize ss ds c.compute_hash r files saved bytes
            (olds ++ news) latest d verified g a,
        ap (λ es. recover c s (plan_of (some saved) es)) split ∙ run,
        subst (λ es. SameOrders s'.execution (process_all new_engine es)) (sym split) same,
      )

  -- `run_replay` leaves the execution engine that the events alone give, whatever the strategies
  -- and the verifier are.
  pub run_replay-execution :
      (events : List Event) (s : Components)
      → (run_replay c s events).execution ≡ process_all s.execution events
  unfolding run_replay replay_event process_all
  run_replay-execution [] s = refl
  run_replay-execution (e ∷ es) s = run_replay-execution es (replay_event c s e)
