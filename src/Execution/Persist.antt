-- ===== src/Execution/Persist.antt =====
-- The snapshot and the restore of crates/atomic-execution/src/state_machine.rs. The encoding of the
-- crate bincode and the hash of the crate xxhash-rust are arguments.
pub mod Sorted
pub mod RoundTrip
pub mod Unique
pub mod Replayed
use atomic_mesh.Base.{
  ℕ, ◌≡◌, Bool, true, false, not, Option, none, some, String, List, [], ◌∷◌, if◌then◌else◌, ◌==◌,
}
use atomic_mesh.Base.HashMap.{HashMap, insert, values}
use atomic_mesh.Base.Text.{str_ltb}
use atomic_mesh.Base.{string_eq}
use atomic_mesh.Core.Snapshot.{Bytes, EngineSnapshot, verify}
use atomic_mesh.Execution.Order.{LiveOrder}
use atomic_mesh.Execution.Engine.{ExecutionEngine}

pub record EngineState : Type 0 where
  pub orders : List LiveOrder
  pub next_local_id : ℕ

-- `bincode::serialize` and `bincode::deserialize` of an `EngineState`, either of which may fail, and
-- `xxh3_64(..).to_le_bytes()`.
pub record Codec : Type 0 where
  pub serialize : EngineState → Option Bytes
  pub deserialize : Bytes → Option EngineState
  pub compute_hash : Bytes → Bytes

-- What bincode documents: a value that it writes is the value that it reads.
abbrev pub ReadsBack : Codec → Type 0
ReadsBack c = (s : EngineState) (b : Bytes) → c.serialize s ≡ some b → c.deserialize b ≡ some s

-- `sort_by` on the ids: a stable sort.
unfoldable pub insert_sorted : LiveOrder → List LiveOrder → List LiveOrder
insert_sorted o [] = o ∷ []
insert_sorted o (x ∷ xs) =
    if str_ltb x.order_id o.order_id then x ∷ insert_sorted o xs else o ∷ x ∷ xs

unfoldable pub sort_orders : List LiveOrder → List LiveOrder
unfolding insert_sorted
sort_orders [] = []
sort_orders (o ∷ os) = insert_sorted o (sort_orders os)

abbrev unwrap_or_default : Option Bytes → Bytes
unwrap_or_default none = []
unwrap_or_default (some b) = b

unfoldable pub state_of : ExecutionEngine → EngineState
unfolding sort_orders
state_of e = record { orders = sort_orders (values e.orders); next_local_id = e.next_local_id }

unfoldable pub insert_all : List LiveOrder → HashMap String LiveOrder → HashMap String LiveOrder
insert_all [] m = m
insert_all (o ∷ os) m = insert_all os (insert o.order_id o m)

pub data RestoreError : Type 0 where
  hash_mismatch not_deserialized : RestoreError

module _ (c : Codec) where
  unfoldable pub serialize_state : ExecutionEngine → Bytes
  unfolding state_of
  serialize_state e = unwrap_or_default (c.serialize (state_of e))

  unfoldable pub state_hash : ExecutionEngine → Bytes
  state_hash e = c.compute_hash (serialize_state e)

  unfoldable pub snapshot : ExecutionEngine → ℕ → ℕ → EngineSnapshot
  snapshot e seq timestamp = record {
    seq = seq;
    timestamp = timestamp;
    state_hash = c.compute_hash (serialize_state e);
    events_since_last = 0;
    state_data = serialize_state e;
  }

  unfoldable pub restore_state :
      ExecutionEngine → Option EngineState → ExecutionEngine × Option RestoreError
  unfolding insert_all
  restore_state e none = (e, some not_deserialized)
  restore_state e (some s) =
      (record { orders = insert_all s.orders []; next_local_id = s.next_local_id }, none)

  -- `none` is `Ok(())`.
  unfoldable pub restore : ExecutionEngine → EngineSnapshot → ExecutionEngine × Option RestoreError
  unfolding verify restore_state
  restore e s =
      if not (verify c.compute_hash s)
      then (e, some hash_mismatch)
      else restore_state e (c.deserialize s.state_data)
