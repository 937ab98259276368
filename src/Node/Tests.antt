-- ===== src/Node/Tests.antt =====
-- A start, a replay and a follower, and the theorems about them at concrete events.
use atomic_mesh.Base.{
  ℕ, ◌≡◌, refl, Option, none, some, String, string_eq, List, [], ◌∷◌, ◌++◌, arith, pos, ◌==◌,
  nat_eq, if◌then◌else◌,
}
use atomic_mesh.Core.Types.{buy, limit, good_til_cancel, binance}
use atomic_mesh.Core.Event.{Event, EventPayload, order_new, order_ack, heartbeat}
use atomic_mesh.Core.Snapshot.{Bytes, EngineSnapshot}
use atomic_mesh.Execution.Engine.{new_engine, process_all, process_event, process_payload}
use atomic_mesh.Execution.Persist.{EngineState, Codec, ReadsBack, state_of, sort_orders, snapshot}
use atomic_mesh.Execution.Persist.RoundTrip.{SameOrders}
use atomic_mesh.Execution.Verifier.{new_verifier}
use atomic_mesh.Base.HashMap.{get}
use atomic_mesh.Recovery.Plan.{RecoveryCoordinator, RecoveryPlan, plan_recovery, latest_path}
use atomic_mesh.Replay.Log.{Files, ok}
use atomic_mesh.Replay.Log.RoundTrip.{Entry, frames, events_of}
use atomic_mesh.Strategy.Engine.{new_strategy_engine}
use atomic_mesh.Node.Startup.{plan_or_cold, Components, recover}
use atomic_mesh.Node.Recovered.{restart-same}
use atomic_mesh.Node.Mesh.{MeshMessage, event_replication, sync_response, hash_verify, Follower}
use atomic_mesh.Node.Followed.{handle_all, received_all, handle_all_lem}

abbrev at : ℕ → EventPayload → Event
at seq payload = record { seq = seq; timestamp = seq; source = []; payload = payload }

abbrev beat : ℕ → Event
beat seq = at seq (heartbeat (record { node_id = []; uptime_secs = 1 }))

abbrev placed : Event
placed = at 3 (
    order_new (record {
      order_id = "A";
      symbol = record { base = "BTC"; quote = "USDT"; venue = binance };
      side = buy;
      order_type = limit;
      price = pos 100;
      qty = 5;
      time_in_force = good_til_cancel;
      venue = binance;
    }))

abbrev acked : Event
acked = at 4 (order_ack (record { order_id = "A"; exchange_order_id = "7"; venue = binance }))

-- An encoding of engines without orders.
abbrev write : EngineState → Option Bytes
write s = elim s.orders [ [] ↦ some (s.next_local_id ∷ []) | o ∷ os ↦ none ]

abbrev read : Bytes → Option EngineState
read [] = none
read (n ∷ bs) = some (record { orders = []; next_local_id = n })

abbrev codec : Codec
codec = record { serialize = write; deserialize = read; compute_hash = λ b. b }

codec-ReadsBack : ReadsBack codec
codec-ReadsBack s b h = ground arith

abbrev cold : Components
cold = record {
  execution = new_engine;
  strategy_engine = new_strategy_engine;
  verifier = new_verifier 2 [];
  metrics = record { total_events = 0; total_orders = 0; total_fills = 0; total_rejects = 0 };
}

-- An encoding of these events.
abbrev write_event : Event → Option Bytes
write_event e = some (e.seq ∷ [])

abbrev read_event : Bytes → Option Event
read_event [] = none
read_event (n ∷ bs) = some (if n == 3 then placed else if n == 4 then acked else beat n)

abbrev follower : Follower
follower = record {
  execution = new_engine;
  event_log = record { writer = some []; path = "log"; event_count = 0 };
  files = [];
}

abbrev coordinator : RecoveryCoordinator
coordinator = record { snapshot_dir = "dir"; event_log_path = "log" }

abbrev messages : List MeshMessage
messages = event_replication placed ∷ hash_verify 3 [] ∷ sync_response (acked ∷ placed ∷ []) ∷ []

abbrev entries : List Entry
entries = (placed, 3 ∷ []) ∷ (acked, 4 ∷ []) ∷ (placed, 3 ∷ []) ∷ []

abbrev no_bytes : EngineSnapshot → Option Bytes
no_bytes s = none

abbrev no_snapshot : Bytes → Option EngineSnapshot
no_snapshot b = none

abbrev same : Bytes → Bytes
same b = b

abbrev no_text : Bytes → String
no_text b = ""

handle_all_lem_example :
    let handled =
      handle_all write_event read_event no_bytes no_snapshot same no_text
        (new_verifier 2 [])
        coordinator
        messages
        follower in
    (handled.execution ≡ process_all new_engine (received_all messages))
    × (handled.event_log.writer ≡ some ([] ++ frames entries))
handle_all_lem_example =
    handle_all_lem write_event read_event no_bytes no_snapshot same no_text (new_verifier 2 [])
      coordinator messages follower entries [] refl
      ((refl, refl, omega arith), ((refl, refl, omega arith), ((refl, refl, omega arith), tt))) refl

abbrev before : List Entry
before = (beat 1, 1 ∷ []) ∷ (beat 2, 2 ∷ []) ∷ []

abbrev later : List Entry
later = (placed, 3 ∷ []) ∷ (acked, 4 ∷ []) ∷ []

abbrev saved : EngineSnapshot
saved = snapshot codec (process_all new_engine (events_of before)) 2 9

abbrev read_saved : Bytes → Option EngineSnapshot
read_saved b = some saved

abbrev disk : Files
disk = ("dir/snapshot_latest.bin", 1 ∷ 2 ∷ []) ∷ ("log", frames (before ++ later)) ∷ []

restart-same_example :
    (plan : RecoveryPlan) × (s' : Components) × (plan_recovery no_bytes read_saved same read_event
        coordinator disk
      ≡ some (ok plan))
    × (recover codec cold (plan_or_cold (ok plan)) ≡ some s')
    × SameOrders s'.execution (process_all new_engine (events_of (before ++ later)))
restart-same_example =
    restart-same codec write_event read_event no_bytes read_saved coordinator disk cold before later
      (1 ∷ []) (1 ∷ 2 ∷ []) 2 9 codec-ReadsBack
      (unfold state_of sort_orders process_all process_event process_payload new_engine in refl)
      (omega arith, (omega arith, tt)) (omega arith, (omega arith, tt))
      (unfold get latest_path in refl) refl (unfold get in refl)
      (
        (refl, refl, omega arith),
        ((refl, refl, omega arith), ((refl, refl, omega arith), ((refl, refl, omega arith), tt))),
      )
