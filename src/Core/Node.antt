-- ===== src/Core/Node.antt =====
-- crates/atomic-core/src/node.rs. An id is the list of its 32 bytes.
use atomic_mesh.Base.{ℕ, String, List}

abbrev pub NodeId : Type 0
NodeId = List ℕ

pub data NodeRole : Type 0 where
  leader follower observer : NodeRole

pub data NodeState : Type 0 where
  initializing syncing ready active diverged draining offline : NodeState

pub record NodeInfo : Type 0 where
  pub id : NodeId
  pub role : NodeRole
  pub state : NodeState
  pub addr : String
  pub last_seq : ℕ
  pub last_heartbeat : ℕ
  pub uptime_secs : ℕ

unfoldable pub new_node : NodeId → NodeRole → String → NodeInfo
new_node id role addr = record {
  id = id;
  role = role;
  state = initializing;
  addr = addr;
  last_seq = 0;
  last_heartbeat = 0;
  uptime_secs = 0;
}
