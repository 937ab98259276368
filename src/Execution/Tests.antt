-- ===== src/Execution/Tests.antt =====
-- Runs of the execution engine, of its snapshots and of the state verifier, and the theorems about
-- them at concrete states.
use atomic_mesh.Base.{
  ℕ, ◌≡◌, ◌≢◌, refl, sym, ◌∙◌, ap, inl, inr, Bool-cases, ◌==◌, Option, none, some, [], ◌∷◌, arith,
  pos, nat_eq, string_eq,
}
use atomic_mesh.Base.HashMap.{get}
use atomic_mesh.Core.Types.{buy, limit, good_til_cancel, simulated, binance, okx}
use atomic_mesh.Core.Event.{Event, EventPayload, order_new, order_ack, order_cancel}
use atomic_mesh.Core.Snapshot.{Bytes}
use atomic_mesh.Execution.Order.{LiveOrder, canceled, is_terminal}
use atomic_mesh.Execution.Engine.{
  ExecutionEngine, order_not_found, new_engine, process_event, process_all, process_payload,
  on_cancel, gc_terminal, next_order_id,
}
use atomic_mesh.Execution.Engine.Invariant.{Inv, process_all-consistent}
use atomic_mesh.Execution.Engine.Lifecycle.{
  Change, process_event-Change, terminal_absorbs, process_event-atomic,
}
use atomic_mesh.Execution.Engine.Cleanup.{next_order_id-fresh, after_ids}
use atomic_mesh.Execution.Persist.{
  EngineState, Codec, ReadsBack, state_of, sort_orders, state_hash, snapshot, restore,
}
use atomic_mesh.Execution.Persist.RoundTrip.{
  IsIndexed, SameOrders, state_hash-same, restore-snapshot,
}
use atomic_mesh.Execution.Verifier.{StateVerifier, new_verifier}

abbrev at : ℕ → EventPayload → Event
at ts payload = record { seq = 0; timestamp = ts; source = []; payload = payload }

abbrev placed : Event
placed = at 10 (
    order_new (record {
      order_id = "A";
      symbol = record { base = "BTC"; quote = "USD"; venue = simulated };
      side = buy;
      order_type = limit;
      price = pos 100;
      qty = 5;
      time_in_force = good_til_cancel;
      venue = simulated;
    }))

abbrev acked : Event
acked = at 11 (order_ack (record { order_id = "A"; exchange_order_id = "X"; venue = simulated }))

abbrev cancels : Event
cancels = at 12 (order_cancel (record { order_id = "A"; reason = "user"; venue = simulated }))

abbrev working : ExecutionEngine
working = process_all new_engine (placed ∷ acked ∷ [])

process_all-consistent_example :
    Inv (process_all new_engine (placed ∷ acked ∷ cancels ∷ []))
    × Inv (gc_terminal (process_all new_engine (placed ∷ acked ∷ cancels ∷ []))).0
process_all-consistent_example = process_all-consistent (placed ∷ acked ∷ cancels ∷ [])

process_event-Change_example :
    Change (get "A" working.orders) (get "A" (process_event working cancels).0.orders)
process_event-Change_example = process_event-Change working cancels "A"

abbrev done : LiveOrder
done = record {
  order_id = "A";
  exchange_order_id = some "X";
  symbol = record { base = "BTC"; quote = "USD"; venue = simulated };
  side = buy;
  order_type = limit;
  price = pos 100;
  original_qty = 5;
  filled_qty = 2;
  remaining_qty = 3;
  time_in_force = good_til_cancel;
  venue = simulated;
  state = canceled;
  created_at = 10;
  updated_at = 12;
}

abbrev ended : ExecutionEngine
ended = record { orders = ("A", done) ∷ []; next_local_id = 2 }

terminal_absorbs_example : get "A" (process_all ended (placed ∷ acked ∷ [])).orders ≡ some done
terminal_absorbs_example =
    terminal_absorbs ended (placed ∷ acked ∷ []) "A" done (unfold get in refl)
      (unfold is_terminal in refl)

process_event-atomic_example : (process_event new_engine cancels).0 ≡ new_engine
process_event-atomic_example =
    process_event-atomic new_engine cancels order_not_found
      (unfold process_event process_payload on_cancel new_engine get in refl)

next_order_id-fresh_example :
    (next_order_id ended binance).1
    ≢ (next_order_id (after_ids (next_order_id ended binance).0 (okx ∷ [])) okx).1
next_order_id-fresh_example = next_order_id-fresh ended binance okx (okx ∷ []) (omega arith)

-- An encoding that can write a state without orders, its counter in one byte.
abbrev write : EngineState → Option Bytes
write s = elim s.orders [ [] ↦ some (s.next_local_id ∷ []) | o ∷ os ↦ none ]

abbrev read : Bytes → Option EngineState
read [] = none
read (n ∷ bs) = some (record { orders = []; next_local_id = n })

abbrev codec : Codec
codec = record { serialize = write; deserialize = read; compute_hash = λ b. b }

codec-ReadsBack : ReadsBack codec
codec-ReadsBack s b h = ground arith

abbrev other : LiveOrder
other = record done { order_id = "B" }

abbrev two : ExecutionEngine
two = record { orders = ("A", done) ∷ ("B", other) ∷ []; next_local_id = 3 }

abbrev two_reversed : ExecutionEngine
two_reversed = record { orders = ("B", other) ∷ ("A", done) ∷ []; next_local_id = 3 }

two-IsIndexed : IsIndexed two
two-IsIndexed = record {
  keyed = (refl, (refl, tt));
  unique = (unfold get in refl, (unfold get in refl, tt));
}

two_reversed-IsIndexed : IsIndexed two_reversed
two_reversed-IsIndexed = record {
  keyed = (refl, (refl, tt));
  unique = (unfold get in refl, (unfold get in refl, tt));
}

two-SameOrders : SameOrders two two_reversed
unfolding get
two-SameOrders = record {
  same_orders = λ k. elim (Bool-cases ("A" == k)) [
    | inl is_a ↦
        ap (λ j. get j two.orders) (sym ((string_eq.beq_decides "A" k).0 is_a))
        ∙ ap (λ j. get j two_reversed.orders) ((string_eq.beq_decides "A" k).0 is_a)
    | inr not_a ↦ rw not_a refl
  ];
  same_counter = refl;
}

state_hash-same_example : state_hash codec two ≡ state_hash codec two_reversed
state_hash-same_example =
    state_hash-same codec two two_reversed two-IsIndexed two_reversed-IsIndexed two-SameOrders

abbrev idle : ExecutionEngine
idle = record { orders = []; next_local_id = 7 }

restore-snapshot_example :
    let (e', result) = restore codec two (snapshot codec idle 9 100) in
    (result ≡ none) × SameOrders e' idle × (state_hash codec e' ≡ state_hash codec idle)
restore-snapshot_example =
    restore-snapshot codec two idle (7 ∷ []) 9 100 codec-ReadsBack
      (unfold state_of sort_orders in refl) (record { keyed = tt; unique = tt })

abbrev hourly : StateVerifier
hourly = new_verifier 2 []

abbrev five : ℕ
five = 5

abbrev one_byte : Bytes
one_byte = 1 ∷ []
