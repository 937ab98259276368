-- ===== src/Recovery/Plan.antt =====
-- `RecoveryCoordinator` of crates/atomic-node/src/recovery.rs, on the files of the event log. The
-- serialisation of a snapshot and of an event, of the crate bincode, and the hash of a snapshot are
-- arguments. Reading the log needs fuel, so that a plan is an option.
use atomic_mesh.Base.{
  ℕ, ◌+◌, Bool, true, false, not, ◌&&◌, Option, none, some, String, string_eq, List, [], ◌∷◌,
  filter, ltb, ◌==◌, nat_eq, if◌then◌else◌, str_append,
}
use atomic_mesh.Base.HashMap.{get, insert, remove}
use atomic_mesh.Base.Decimal.{show_u64}
use atomic_mesh.Base.Word.{u64}
use atomic_mesh.Core.Event.{Event}
use atomic_mesh.Core.Snapshot.{Bytes, EngineSnapshot, verify}
use atomic_mesh.Replay.Log.{Files, IoResult, ok, err, invalid_data, not_found, read_only, read_all}

pub record RecoveryPlan : Type 0 where
  pub snapshot : Option EngineSnapshot
  pub events_to_replay : List Event
  pub need_peer_sync : Bool
  pub sync_from_seq : ℕ
  pub expected_next_seq : ℕ

pub record RecoveryCoordinator : Type 0 where
  pub snapshot_dir : String
  pub event_log_path : String

-- `fs::write` and `fs::rename`.
pub data FileOp : Type 0 where
  write : String → Bytes → FileOp
  rename : String → String → FileOp

abbrev pub renamed : String → String → Files → Option Bytes → IoResult Files
renamed from to files none = err not_found
renamed from to files (some bytes) = ok (insert to bytes (remove from files))

unfoldable pub run_op : FileOp → Files → IoResult Files
run_op (write path bytes) files = ok (insert path bytes files)
run_op (rename from to) files = renamed from to files (get from files)

abbrev pub and_run : IoResult Files → (Files → IoResult Files) → IoResult Files
and_run (ok files) k = k files
and_run (err e) k = err e

unfoldable pub run_ops : List FileOp → Files → IoResult Files
unfolding run_op
run_ops [] files = ok files
run_ops (op ∷ ops) files = and_run (run_op op files) (run_ops ops)

unfoldable pub numbered_path : String → ℕ → String
numbered_path dir seq = str_append dir (str_append "/snapshot_" (str_append (show_u64 seq) ".bin"))

unfoldable pub latest_path : String → String
latest_path dir = str_append dir "/snapshot_latest.bin"

abbrev pub tmp : String → String
tmp path = str_append path ".tmp"

-- What `save_snapshot` does to the files once the directory is there and the snapshot serialised.
unfoldable pub save_ops : String → ℕ → Bytes → List FileOp
unfolding numbered_path latest_path
save_ops dir seq bytes =
    write (tmp (numbered_path dir seq)) bytes
    ∷ rename (tmp (numbered_path dir seq)) (numbered_path dir seq)
    ∷ write (tmp (latest_path dir)) bytes
    ∷ rename (tmp (latest_path dir)) (latest_path dir)
    ∷ []

abbrev pub seq_or_zero : Option EngineSnapshot → ℕ
seq_or_zero none = 0
seq_or_zero (some s) = s.seq

-- The loop over the windows of two events: whether a sync is needed, and from which event on.
unfoldable pub scan_gaps : List Event → Bool → ℕ → Bool × ℕ
scan_gaps (a ∷ b ∷ es) need from =
    let next = u64 (a.seq + 1) in
    let found = not need && not (b.seq == next) in
    scan_gaps (b ∷ es) (if found then true else need) (if found then next else from)
scan_gaps es need from = (need, from)

-- Both checks for gaps.
unfoldable pub find_gap : ℕ → List Event → Bool × ℕ
unfolding scan_gaps
find_gap expected [] = (false, 0)
find_gap expected (e ∷ es) =
    let late = ltb expected e.seq in scan_gaps (e ∷ es) late (if late then expected else 0)

unfoldable pub next_seq : ℕ → List Event → ℕ
next_seq expected [] = expected
next_seq expected (e ∷ es) = next_seq (u64 (e.seq + 1)) es

-- Steps 3 and 4 of `plan_recovery`.
unfoldable pub plan_of : Option EngineSnapshot → List Event → RecoveryPlan
unfolding find_gap next_seq
plan_of snapshot events =
    let snapshot_seq = seq_or_zero snapshot in
    let events_to_replay = filter (λ e. ltb snapshot_seq e.seq) events in
    let (need_peer_sync, sync_from_seq) = find_gap (u64 (snapshot_seq + 1)) events_to_replay in
    record {
      snapshot = snapshot;
      events_to_replay = events_to_replay;
      need_peer_sync = need_peer_sync;
      sync_from_seq = sync_from_seq;
      expected_next_seq = next_seq (u64 (snapshot_seq + 1)) events_to_replay;
    }

module _ (serialize_snapshot : EngineSnapshot → Option Bytes)
    (deserialize_snapshot : Bytes → Option EngineSnapshot) (compute_hash : Bytes → Bytes)
    (deserialize_event : Bytes → Option Event) where
  abbrev save_data : String → ℕ → Files → Option Bytes → IoResult Files
  save_data dir seq files none = err invalid_data
  save_data dir seq files (some bytes) = run_ops (save_ops dir seq bytes) files

  unfoldable pub save_snapshot : RecoveryCoordinator → EngineSnapshot → Files → IoResult Files
  unfolding run_ops save_ops
  save_snapshot r snapshot files =
      save_data r.snapshot_dir snapshot.seq files (serialize_snapshot snapshot)

  abbrev verified : Option EngineSnapshot → IoResult (Option EngineSnapshot)
  verified none = err invalid_data
  verified (some s) = if not (verify compute_hash s) then err invalid_data else ok (some s)

  abbrev pub load_file : Option Bytes → IoResult (Option EngineSnapshot)
  load_file none = ok none
  load_file (some bytes) = verified (deserialize_snapshot bytes)

  unfoldable pub load_latest_snapshot :
      RecoveryCoordinator → Files → IoResult (Option EngineSnapshot)
  unfolding latest_path
  load_latest_snapshot r files = load_file (get (latest_path r.snapshot_dir) files)

  abbrev pub log_or_empty :
      RecoveryCoordinator → Files → Option Bytes → Option (IoResult (List Event))
  log_or_empty r files none = some (ok [])
  log_or_empty r files (some _) = read_all deserialize_event files (read_only r.event_log_path)

  abbrev pub plan_from :
      IoResult (Option EngineSnapshot)
      → Option (IoResult (List Event))
      → Option (IoResult RecoveryPlan)
  plan_from (err e) events = some (err e)
  plan_from (ok snapshot) none = none
  plan_from (ok snapshot) (some (err e)) = some (err e)
  plan_from (ok snapshot) (some (ok events)) = some (ok (plan_of snapshot events))

  unfoldable pub plan_recovery : RecoveryCoordinator → Files → Option (IoResult RecoveryPlan)
  unfolding load_latest_snapshot plan_of
  plan_recovery r files =
      plan_from (load_latest_snapshot r files) (log_or_empty r files (get r.event_log_path files))
