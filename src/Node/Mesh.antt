-- ===== src/Node/Mesh.antt =====
-- `MeshMessage` of crates/atomic-transport/src/protocol.rs and `handle_mesh_message` of
-- crates/atomic-node/src/main.rs. What is sent to other nodes or to the dashboard is a result;
-- `hex::encode`, and the encodings of the crate bincode, are arguments.
use atomic_mesh.Base.{ℕ, Bool, Option, some, String, List, [], ◌∷◌, take}
use atomic_mesh.Core.Event.{Event}
use atomic_mesh.Core.Node.{NodeId, NodeRole}
use atomic_mesh.Core.Snapshot.{Bytes, EngineSnapshot}
use atomic_mesh.Execution.Engine.{ExecutionEngine, process_event}
use atomic_mesh.Execution.Verifier.{StateVerifier, verify_peer}
use atomic_mesh.Recovery.Plan.{RecoveryCoordinator, save_snapshot}
use atomic_mesh.Replay.Log.{Files, IoResult, ok, err, EventLog, append, read_only, read_range}

pub data MeshMessage : Type 0 where
  event_replication : Event → MeshMessage
  event_batch : List Event → MeshMessage
  heartbeat : NodeId → ℕ → Bytes → ℕ → MeshMessage
  sync_request : ℕ → ℕ → MeshMessage
  sync_response : List Event → MeshMessage
  snapshot_broadcast : EngineSnapshot → MeshMessage
  hash_verify : ℕ → Bytes → MeshMessage
  consensus_vote : ℕ → NodeId → Bool → MeshMessage
  node_announce : NodeId → NodeRole → String → MeshMessage

unfoldable pub type_name : MeshMessage → String
type_name (event_replication _) = "event_replication"
type_name (event_batch _) = "event_batch"
type_name (heartbeat _ _ _ _) = "heartbeat"
type_name (sync_request _ _) = "sync_request"
type_name (sync_response _) = "sync_response"
type_name (snapshot_broadcast _) = "snapshot_broadcast"
type_name (hash_verify _ _) = "hash_verify"
type_name (consensus_vote _ _ _) = "consensus_vote"
type_name (node_announce _ _ _) = "node_announce"

-- What goes to the other nodes and to the dashboard.
pub data Output : Type 0 where
  broadcast : MeshMessage → Output
  node_status : String → ℕ → String → Output
  hash_check : String → ℕ → String → Bool → Output

pub record Follower : Type 0 where
  pub execution : ExecutionEngine
  pub event_log : EventLog
  pub files : Files

module _ (serialize : Event → Option Bytes) where
  abbrev pub log_or_keep : EventLog → IoResult EventLog → EventLog
  log_or_keep log (ok log') = log'
  log_or_keep log (err e) = log

  -- `let _ = execution.process_event(event); let _ = event_log.append(event);`
  unfoldable pub apply_event : Follower → Event → Follower
  apply_event f event = record f {
    execution = (process_event f.execution event).0;
    event_log = log_or_keep f.event_log (append serialize f.event_log event);
  }

  unfoldable pub apply_events : Follower → List Event → Follower
  unfolding apply_event
  apply_events f [] = f
  apply_events f (event ∷ events) = apply_events (apply_event f event) events

abbrev response : Option (IoResult (List Event)) → List Output
response (some (ok events)) = broadcast (sync_response events) ∷ []
response _ = []

abbrev files_or_keep : Files → IoResult Files → Files
files_or_keep files (ok files') = files'
files_or_keep files (err e) = files

module _ (serialize : Event → Option Bytes) (deserialize : Bytes → Option Event)
    (serialize_snapshot : EngineSnapshot → Option Bytes)
    (deserialize_snapshot : Bytes → Option EngineSnapshot) (compute_hash : Bytes → Bytes)
    (hex : Bytes → String) where
  unfoldable pub handle_mesh_message :
      MeshMessage → Follower → StateVerifier → RecoveryCoordinator → Follower × List Output
  unfolding apply_event apply_events
  handle_mesh_message (event_replication event) f v r = (apply_event serialize f event, [])
  handle_mesh_message (event_batch events) f v r = (apply_events serialize f events, [])
  handle_mesh_message (heartbeat node_id last_seq state_hash uptime_secs) f v r = (
    f,
    node_status (hex (take 8 node_id)) last_seq (hex state_hash)
        ∷ hash_check (hex (take 8 node_id)) last_seq (hex state_hash)
            (verify_peer v last_seq state_hash)
        ∷ [],
  )
  handle_mesh_message (sync_request from_seq to_seq) f v r =
      (f, response (read_range deserialize f.files (read_only r.event_log_path) from_seq to_seq))
  handle_mesh_message (sync_response events) f v r = (apply_events serialize f events, [])
  handle_mesh_message (hash_verify seq hash) f v r =
      (f, hash_check "peer" seq (hex hash) (verify_peer v seq hash) ∷ [])
  handle_mesh_message (snapshot_broadcast snapshot) f v r = (
    record f {
      files = files_or_keep f.files (
          save_snapshot serialize_snapshot deserialize_snapshot compute_hash deserialize r snapshot
            f.files);
    },
    [],
  )
  handle_mesh_message (consensus_vote proposal_seq voter approved) f v r = (f, [])
  handle_mesh_message (node_announce node_id role addr) f v r = (f, [])
