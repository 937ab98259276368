-- ===== src/Bus/Tests.antt =====
-- Runs of the ring and of the sequencer, and the theorems about them.
use atomic_mesh.Base.{ℕ, ◌+◌, ◌-◌, ◌≤◌, ◌≡◌, List, [], ◌∷◌, length, arith, max}
use atomic_mesh.Core.Event.{Event, heartbeat}
use atomic_mesh.Bus.Ring.{new_ring, next_power_of_two, ring_len}
use atomic_mesh.Bus.Ring.Refinement.{RingOp, push, pop, run_ring, run_queue, ring_refines_queue}
use atomic_mesh.Bus.Sequencer.{
  new_sequencer, Use, sequences, drains, run, EndsBelow, current_seq, run_in_order,
}

-- More pushes than the three that a ring of four slots holds, and pops in between.
abbrev calls : List (RingOp ℕ)
calls = push 1 ∷ push 2 ∷ push 3 ∷ push 4 ∷ pop ∷ push 5 ∷ pop ∷ pop ∷ pop ∷ pop ∷ []

ring_refines_queue_example :
    ((run_ring (new_ring 3) calls).1 ≡ (run_queue (next_power_of_two 3 - 1) [] calls).1)
    × (ring_len (run_ring (new_ring 3) calls).0
        ≡ length (run_queue (next_power_of_two 3 - 1) [] calls).0)
ring_refines_queue_example = ring_refines_queue 3 calls

abbrev beat : Event
beat = record {
  seq = 0;
  timestamp = 9;
  source = [];
  payload = heartbeat (record { node_id = []; uptime_secs = 1 });
}

abbrev uses : List Use
uses = sequences beat ∷ drains ∷ sequences beat ∷ sequences beat ∷ sequences beat ∷ []

run_in_order_example :
    EndsBelow (run (new_sequencer 2) uses).buffer (current_seq (run (new_sequencer 2) uses) + 1)
    × (current_seq (run (new_sequencer 2) uses) ≡ 4)
    × (length (run (new_sequencer 2) uses).buffer ≤ max 2 1)
run_in_order_example = run_in_order 2 uses (omega arith)
