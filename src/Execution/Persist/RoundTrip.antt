-- ===== src/Execution/Persist/RoundTrip.antt =====
-- Snapshots do not depend on the order in which the map of orders is visited, and restoring one
-- brings the engine back.
use atomic_mesh.Base.{
  ℕ, ◌≡◌, refl, sym, ◌∙◌, ap, ap₂, none, some, String, List, [], ◌∷◌, arith, string_eq, beq_refl,
}
use atomic_mesh.Base.HashMap.{HashMap, get, insert, values, IsUnique, insert-IsUnique, All-insert}
use atomic_mesh.Core.Snapshot.{Bytes, bytes_eq, verify}
use atomic_mesh.Execution.Order.{LiveOrder}
use atomic_mesh.Execution.Engine.{ExecutionEngine}
use atomic_mesh.Execution.Persist.{
  Codec, ReadsBack, sort_orders, state_of, insert_all, serialize_state, state_hash, snapshot,
  restore_state, restore, unwrap_or_default,
}
use atomic_mesh.Execution.Persist.Sorted.{
  find, find-sort_orders, find-values, values-Distinct, IsKeyed, sort_orders-IsSorted, sorted_ext,
  sorted-Distinct, get-insert_all,
}

-- Each order stands under its own id, and no id twice.
pub record IsIndexed (e : ExecutionEngine) : Type 0 where
  pub keyed : IsKeyed e.orders
  pub unique : IsUnique e.orders

-- Two engines with the same order under each id, and the same counter.
pub record SameOrders (d e : ExecutionEngine) : Type 0 where
  pub same_orders : (k : String) → get k d.orders ≡ get k e.orders
  pub same_counter : d.next_local_id ≡ e.next_local_id

find-state_of :
    (e : ExecutionEngine) (k : String)
    → IsIndexed e
    → find k (sort_orders (values e.orders)) ≡ get k e.orders
find-state_of e k i = find-sort_orders k (values e.orders) ∙ find-values k e.orders i.keyed

state_of-same :
    (d e : ExecutionEngine) → IsIndexed d → IsIndexed e → SameOrders d e → state_of d ≡ state_of e
unfolding state_of
state_of-same d e i j s =
    ap₂ (λ os n. record { orders = os; next_local_id = n })
      (sorted_ext _ _ (sort_orders-IsSorted _ (values-Distinct d.orders i.keyed i.unique))
        (sort_orders-IsSorted _ (values-Distinct e.orders j.keyed j.unique))
        (λ k. find-state_of d k i ∙ s.same_orders k ∙ sym (find-state_of e k j)))
      s.same_counter

-- The state hash depends on the orders and the counter alone: two engines with the same order under
-- each id and the same counter have the same hash, in whatever order their maps are visited.
pub state_hash-same :
    (c : Codec) (d e : ExecutionEngine)
    → IsIndexed d
    → IsIndexed e
    → SameOrders d e
    → state_hash c d ≡ state_hash c e
unfolding state_hash serialize_state
state_hash-same c d e i j s =
    ap (λ s. c.compute_hash (unwrap_or_default (c.serialize s))) (state_of-same d e i j s)

insert_all-IsIndexed :
    (xs : List LiveOrder) (m : HashMap String LiveOrder)
    → IsKeyed m
    → IsUnique m
    → IsKeyed (insert_all xs m) × IsUnique (insert_all xs m)
unfolding insert_all
insert_all-IsIndexed [] m a u = (a, u)
insert_all-IsIndexed (x ∷ xs) m a u =
    insert_all-IsIndexed xs (insert x.order_id x m)
      (All-insert (λ e. e.1.order_id ≡ e.0) x.order_id x m refl a)
      (insert-IsUnique x.order_id x m u)

-- The engine that a restore of the state of `e` builds.
restored : ExecutionEngine → ExecutionEngine
restored e = record {
  orders = insert_all (sort_orders (values e.orders)) [];
  next_local_id = e.next_local_id;
}

restored-same : (e : ExecutionEngine) → IsIndexed e → SameOrders (restored e) e
unfolding restored get
restored-same e i = record {
  same_orders = λ k.
      get-insert_all k (sort_orders (values e.orders)) []
        (sorted-Distinct _ (sort_orders-IsSorted _ (values-Distinct e.orders i.keyed i.unique)))
      ∙ ap (λ r. elim r [ none ↦ none | some o ↦ some o ]) (find-state_of e k i)
      ∙ ground arith;
  same_counter = refl;
}

restored-IsIndexed : (e : ExecutionEngine) → IsIndexed (restored e)
unfolding restored
restored-IsIndexed e =
    let (a, u) = insert_all-IsIndexed (sort_orders (values e.orders)) [] tt tt in
    record { keyed = a; unique = u }

restored_lem :
    (c : Codec) (d e : ExecutionEngine) (b : Bytes) (seq ts : ℕ)
    → ReadsBack c
    → c.serialize (state_of e) ≡ some b
    → restore c d (snapshot c e seq ts) ≡ (restored e, none)
unfolding restore snapshot serialize_state verify
restored_lem c d e b seq ts reads writes =
    let written : serialize_state c e ≡ b = ap unwrap_or_default writes in
    rw (beq_refl (c.compute_hash (serialize_state c e))) (
      ap (λ x. restore_state c d (c.deserialize x)) written
      ∙ ap (restore_state c d) (reads (state_of e) b writes)
      ∙ unfold restore_state state_of restored in refl)

-- A snapshot of an engine whose state the encoding can write, restored into any engine, is accepted
-- and gives the same order under each id, the same counter and the same state hash as the engine
-- that was saved had.
pub restore-snapshot :
    (c : Codec) (d e : ExecutionEngine) (b : Bytes) (seq ts : ℕ)
    → ReadsBack c
    → c.serialize (state_of e) ≡ some b
    → IsIndexed e
    → let (e', result) = restore c d (snapshot c e seq ts) in
      (result ≡ none) × SameOrders e' e × (state_hash c e' ≡ state_hash c e)
restore-snapshot c d e b seq ts reads writes i = rw (restored_lem c d e b seq ts reads writes) (
  refl,
  restored-same e i,
  state_hash-same c (restored e) e (restored-IsIndexed e) i (restored-same e i),
)
