-- ===== src/Execution/Engine/Cleanup.antt =====
-- The removal of terminal orders, and the ids of new ones.
use atomic_mesh.Base.{
  ◌+◌, ◌^◌, ◌<◌, ◌≡◌, refl, ◌∙◌, ap, ◌≢◌, Bool, not, List, [], ◌∷◌, String, filter, length, arith,
  string_eq, Bool-cases, inl, inr,
}
use atomic_mesh.Base.HashMap.{HashMap, retain, values}
use atomic_mesh.Core.Types.{Venue}
use atomic_mesh.Core.Types.Ids.{new_order_id-injective}
use atomic_mesh.Execution.Order.{is_terminal, LiveOrder}
use atomic_mesh.Execution.Engine.{ExecutionEngine, gc_terminal, open_orders, next_order_id}

abbrev is_open : LiveOrder → Bool
is_open o = not (is_terminal o.state)

values-retain :
    (p : LiveOrder → Bool) (m : HashMap String LiveOrder)
    → values (retain p m) ≡ filter p (values m)
values-retain p [] = refl
values-retain p (e ∷ m) = ground (arith, values-retain p m)

filter_twice {ℓ} : {A : Type ℓ} (p : A → Bool) (xs : List A) → filter p (filter p xs) ≡ filter p xs
filter_twice p [] = refl
filter_twice p (x ∷ xs) = elim (Bool-cases (p x)) [
  | inl t ↦ rw (t, t) (ap (◌∷◌ x) (filter_twice p xs))
  | inr f ↦ rw f (filter_twice p xs)
]

length-retain :
    (p : LiveOrder → Bool) (m : HashMap String LiveOrder)
    → length (retain p m) + length (filter (λ o. not (p o)) (values m)) ≡ length m
length-retain p [] = refl
length-retain p (e ∷ m) = ground (arith, length-retain p m)

-- A cleanup leaves the open orders as they are, keeps no other order, and returns how many orders
-- it has removed: the number of terminal ones.
pub gc_terminal-open :
    (e : ExecutionEngine)
    → (open_orders (gc_terminal e).0 ≡ open_orders e)
      × (values (gc_terminal e).0.orders ≡ open_orders e)
      × ((gc_terminal e).1
          ≡ length (filter (λ o. not (not (is_terminal o.state))) (values e.orders)))
unfolding gc_terminal open_orders
gc_terminal-open e =
    let kept = values-retain is_open e.orders in
    (
      ap (filter is_open) kept ∙ filter_twice is_open (values e.orders),
      kept,
      omega (arith, length-retain is_open e.orders),
    )

-- The engine after some more ids have been drawn, for any venues.
abbrev pub after_ids : ExecutionEngine → List Venue → ExecutionEngine
after_ids e [] = e
after_ids e (v ∷ vs) = after_ids (next_order_id e v).0 vs

counter-after_ids :
    (e : ExecutionEngine) (vs : List Venue)
    → e.next_local_id + length vs < 2 ^ 64
    → (after_ids e vs).next_local_id ≡ e.next_local_id + length vs
unfolding next_order_id
counter-after_ids e [] h = omega arith
counter-after_ids e (v ∷ vs) h =
    counter-after_ids (next_order_id e v).0 vs (omega arith) ∙ omega arith

-- Two ids that an engine draws, for any two venues and with any number of ids drawn in between, are
-- different, as long as the counter has not come round.
pub next_order_id-fresh :
    (e : ExecutionEngine) (v w : Venue) (between : List Venue)
    → e.next_local_id + length between + 1 < 2 ^ 64
    → (next_order_id e v).1 ≢ (next_order_id (after_ids (next_order_id e v).0 between) w).1
unfolding next_order_id
next_order_id-fresh e v w between h same =
    let later : (after_ids (next_order_id e v).0 between).next_local_id
        ≡ e.next_local_id + 1 + length between =
      counter-after_ids (next_order_id e v).0 between (omega arith) ∙ omega arith in
    absurd
      (omega (arith, new_order_id-injective v w e.next_local_id _ (omega arith) (omega arith) same))
