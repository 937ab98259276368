-- ===== src/Simulator/Exchange/Pipeline.antt =====
-- An order through `submit_order` of the exchange, `drain_events`, and `process_event` of the
-- execution engine for each event that comes out.
use atomic_mesh.Base.{
  ℕ, ◌+◌, ◌-◌, ◌^◌, ◌<◌, ◌≡◌, refl, sym, ◌∙◌, ap, ◌⊎◌, inl, inr, true, false, not, Bool, ◌&&◌, ◌||◌,
  Option, some, String, List, [], ◌∷◌, ◌++◌, arith, ltb, string_eq, Bool-cases, str_append,
}
use atomic_mesh.Base.Decimal.{show_u64}
use atomic_mesh.Base.Word.{u64, sum, sum_u64, sum_u64-sum}
use atomic_mesh.Base.HashMap
use atomic_mesh.Base.HashMap.{HashMap, get}
use atomic_mesh.Base.BTreeMap.{IsSorted}
use atomic_mesh.Core.Types.{pair, fill_or_kill, is_fill_or_kill, is_market}
use atomic_mesh.Core.Node.{NodeId}
use atomic_mesh.Core.Event.{new_event, Event, OrderNewEvent}
use atomic_mesh.Execution.Order.{new, ack, filled, rejected, can_transition_to, LiveOrder}
use atomic_mesh.Execution.Engine.{
  ExecutionEngine, then_true-engine, ack_order, on_ack, end_order, on_reject, process_payload,
  process_event, process_all,
}
use atomic_mesh.Simulator.Match.{SimBook, Matching}
use atomic_mesh.Simulator.Match.Complete.{within, remaining-match_order}
use atomic_mesh.Simulator.Exchange.{
  SimOrder, SimulatedExchange, facing, limit_price, available, has_liquidity, match_book,
  reject_event, ack_event, fill_events, accept_order, submit_order,
}
use atomic_mesh.Simulator.Exchange.Resting.{drain_events}
use atomic_mesh.Simulator.Exchange.Fills.{Holds, fill_events-Holds, get-ack_order, get-end_order}
use atomic_mesh.Simulator.Exchange.Outcomes.{
  process_all-append, process_all-number_events, Outcome, completed, expired, open_and_resting,
  open_and_dropped, rested, settle_rest-resting_orders, rest_events, settle_rest-pending_events,
  rest_events-Outcome, match_book-total,
}

module _ (x : SimulatedExchange) (o : OrderNewEvent) (ts : ℕ) (source : NodeId) where
  abbrev book_of : Option SimBook
  book_of = HashMap.get (pair o.symbol) x.books

  abbrev matched : Matching
  matched = match_book book_of o

  abbrev ack_and_fills : List Event
  ack_and_fills =
      ack_event o source (u64 (ts + x.config.ack_latency_ns)) x.next_exchange_id
      ∷ fill_events o source (u64 (ts + x.config.fill_latency_ns)) x.config.taker_fee_bps o.qty
          matched.fills

  accept_order-pending_events :
      (accept_order x o ts source).pending_events
      ≡ (x.pending_events ++ ack_and_fills)
        ++ rest_events o source
            (u64 (ts + x.config.fill_latency_ns))
            o.time_in_force
            matched.remaining
  unfolding accept_order
  accept_order-pending_events =
      settle_rest-pending_events o source ts (u64 (ts + x.config.fill_latency_ns)) _ o.time_in_force
        matched.remaining

  accept_order-resting_orders :
      (accept_order x o ts source).resting_orders
      ≡ rested o source ts
          (u64 (ts + x.config.fill_latency_ns))
          o.time_in_force
          matched.remaining
          x.resting_orders
  unfolding accept_order
  accept_order-resting_orders =
      settle_rest-resting_orders o source ts (u64 (ts + x.config.fill_latency_ns)) _ o.time_in_force
        matched.remaining

  module _ (e : ExecutionEngine) (l : LiveOrder) (h : get o.order_id e.orders ≡ some l)
      (n : l.state ≡ new) (f : l.filled_qty ≡ 0) (q : l.original_qty ≡ o.qty) where
    ack_step :
        (ack_ts id : ℕ)
        → (l' : LiveOrder) × (get o.order_id
              (process_event e (ack_event o source ack_ts id)).0.orders
            ≡ some l')
          × (l'.filled_qty ≡ 0)
          × (l'.original_qty ≡ o.qty)
          × (l'.state ≡ ack)
    unfolding process_event process_payload ack_event new_event on_ack
    ack_step ack_ts id = (
      record l {
        state = ack;
        exchange_order_id = some (str_append "SIM-" (show_u64 id));
        updated_at = ack_ts;
      },
      rw then_true-engine (
          ap
            (λ r.
              get o.order_id
                (ack_order e o.order_id (str_append "SIM-" (show_u64 id)) ack_ts r).0.orders)
            h
          ∙ get-ack_order e o.order_id ack_ts l _ n),
      f,
      q,
      refl,
    )

    ack_and_fills-Holds :
        0 < o.qty
        → o.qty < 2 ^ 64
        → Holds
            (get o.order_id (process_all e ack_and_fills).orders)
            (o.qty - matched.remaining)
            o.qty
    unfolding process_all
    ack_and_fills-Holds z b =
        let (l', there, f', q', s) =
          ack_step (u64 (ts + x.config.ack_latency_ns)) x.next_exchange_id in
        let (total, ok) = match_book-total book_of o in
        let done =
          fill_events-Holds matched.fills _ o source (u64 (ts + x.config.fill_latency_ns))
            x.config.taker_fee_bps o.qty l' there (inl (omega arith, inl s)) ok (omega arith)
            (omega arith) in
        record {
          order = done.order;
          there = done.there;
          filled_so_far = omega (arith, done.filled_so_far);
          original = done.original ∙ q';
          progress = done.progress;
        }

    -- The order in the engine once it has been accepted by an exchange with nothing pending.
    accept_order-Outcome :
        0 < o.qty
        → o.qty < 2 ^ 64
        → x.pending_events ≡ []
        → (l' : LiveOrder) × (get o.order_id
              (process_all e (accept_order x o ts source).pending_events).orders
            ≡ some l')
          × Outcome o matched.remaining x.resting_orders
              (accept_order x o ts source).resting_orders
              l'
    accept_order-Outcome z b nothing =
        let fill_ts : ℕ = u64 (ts + x.config.fill_latency_ns) in
        let rest = rest_events o source fill_ts o.time_in_force matched.remaining in
        let (total, ok) = match_book-total book_of o in
        rw
          (
            accept_order-pending_events ∙ ap (λ p. (p ++ ack_and_fills) ++ rest) nothing,
            process_all-append ack_and_fills rest e,
          )
          (rest_events-Outcome o source ts fill_ts x.resting_orders
            (accept_order x o ts source).resting_orders matched.remaining
            accept_order-resting_orders (process_all e ack_and_fills) o.time_in_force
            (o.qty - matched.remaining) (ack_and_fills-Holds z b) refl (omega arith))

    reject_step :
        (reject_ts : ℕ) (reason : String)
        → (l' : LiveOrder) × (get o.order_id
              (process_all e (reject_event o source reject_ts reason ∷ [])).orders
            ≡ some l')
          × (l'.state ≡ rejected)
          × (l'.filled_qty ≡ 0)
    unfolding process_all process_event process_payload reject_event new_event on_reject
    reject_step reject_ts reason =
        let allowed : can_transition_to l.state rejected ≡ true =
          unfold can_transition_to in ap (λ s. can_transition_to s rejected) n in
        (
          record l { state = rejected; updated_at = reject_ts },
          rw then_true-engine (
              ap (λ r. get o.order_id (end_order e o.order_id reject_ts rejected r).0.orders) h
              ∙ get-end_order e o.order_id reject_ts l rejected allowed),
          refl,
          f,
        )

-- The orders that the exchange refuses: a fill-or-kill order for more than its book offers within the
-- limit, and a market order where there is nothing on the other side.
abbrev pub refuses : Option SimBook → OrderNewEvent → Bool
refuses book o =
    (is_fill_or_kill o.time_in_force && ltb (available book o.side (limit_price o)) o.qty)
    || (is_market o.order_type && not (has_liquidity book o.side))

-- An order is rejected, with one event, or accepted.
submit_order-cases :
    (x : SimulatedExchange) (o : OrderNewEvent) (ts : ℕ) (source : NodeId)
    → ((reject_ts : ℕ) × (reason : String) × ((submit_order x o ts source).pending_events
          ≡ x.pending_events ++ reject_event o source reject_ts reason ∷ [])
        × ((submit_order x o ts source).resting_orders ≡ x.resting_orders)
        × (refuses (book_of x o ts source) o ≡ true))
      ⊎ ((submit_order x o ts source ≡ accept_order x o ts source)
          × (is_fill_or_kill o.time_in_force
                && ltb (available (book_of x o ts source) o.side (limit_price o)) o.qty
              ≡ false)
          × (refuses (book_of x o ts source) o ≡ false))
unfolding submit_order
submit_order-cases x o ts source =
    let ack_ts : ℕ = u64 (ts + x.config.ack_latency_ns) in
    let book = book_of x o ts source in
    elim (Bool-cases
      (is_fill_or_kill o.time_in_force && ltb (available book o.side (limit_price o)) o.qty)) [
        | inl unfillable ↦
            inl
              (ack_ts, "fok_unfillable", rw unfillable refl, rw unfillable refl, rw unfillable refl)
        | inr fillable ↦
            elim (Bool-cases (is_market o.order_type && not (has_liquidity book o.side))) [
              | inl empty ↦ inl (
                ack_ts,
                "no_liquidity",
                rw (fillable, empty) refl,
                rw (fillable, empty) refl,
                rw (fillable, empty) refl,
              )
              | inr liquid ↦ inr (rw (fillable, liquid) refl, fillable, rw (fillable, liquid) refl)
            ]
      ]

-- An order that the engine has just registered goes to an exchange with nothing pending, and the
-- events that come out, numbered from any number on, go back to the engine. Then the engine holds
-- the order in one of five ways. It is a fill-or-kill order for more than the quantity that the
-- book offers within its limit (a sum modulo 2 ^ 64), or a market order where the other side is
-- empty, and it is rejected, with nothing filled.
-- Any other order is accepted. Either the match left nothing, and it is filled by its quantity. Or
-- it is immediate-or-cancel, the match left something, and it is canceled with what the match gave.
-- In these three cases the exchange's resting orders are as before. Or the match left something of a
-- plain limit order that is good till canceled or good till a date: it is open in the engine, and
-- the exchange has put an order of the same id, symbol, side and price among its resting orders,
-- whose remaining quantity is the part not filled in the engine. Or the match left something of any
-- other order: it is open in the engine, but the exchange's resting orders are as before, so that
-- the rest is kept nowhere. The order's quantity is positive and below 2 ^ 64.
pub submit_order-Outcome :
    (x : SimulatedExchange) (o : OrderNewEvent) (ts : ℕ) (source : NodeId) (start_seq : ℕ)
    (e : ExecutionEngine) (l : LiveOrder)
    → get o.order_id e.orders ≡ some l
    → l.state ≡ new
    → l.filled_qty ≡ 0
    → l.original_qty ≡ o.qty
    → 0 < o.qty
    → o.qty < 2 ^ 64
    → x.pending_events ≡ []
    → (l' : LiveOrder) × (get o.order_id
          (process_all e (drain_events (submit_order x o ts source) start_seq).1).orders
        ≡ some l')
      × (((refuses (HashMap.get (pair o.symbol) x.books) o ≡ true)
            × (l'.state ≡ rejected)
            × (l'.filled_qty ≡ 0)
            × ((drain_events (submit_order x o ts source) start_seq).0.resting_orders
                ≡ x.resting_orders))
          ⊎ ((refuses (HashMap.get (pair o.symbol) x.books) o ≡ false)
              × Outcome o
                  (match_book (HashMap.get (pair o.symbol) x.books) o).remaining
                  x.resting_orders
                  (drain_events (submit_order x o ts source) start_seq).0.resting_orders
                  l'))
unfolding drain_events
submit_order-Outcome x o ts source start_seq e l h n f q z b nothing =
    rw (process_all-number_events (submit_order x o ts source).pending_events start_seq e)
      (elim (submit_order-cases x o ts source) [
        | inl (reject_ts, reason, events, kept, unfit) ↦
            let (l', there, state, nought) =
              reject_step x o ts source e l h n f q reject_ts reason in
            rw (events ∙ ap (λ p. p ++ reject_event o source reject_ts reason ∷ []) nothing)
              (l', there, inl (unfit, state, nought, kept))
        | inr (accepted, fillable, fit) ↦
            let (l', there, outcome) = accept_order-Outcome x o ts source e l h n f q z b nothing in
            rw accepted (l', there, inr (fit, outcome))
      ])

-- What a fill-or-kill order that is not rejected leaves.
nothing_left :
    (o : OrderNewEvent) (book : SimBook)
    → o.time_in_force ≡ fill_or_kill
    → is_fill_or_kill o.time_in_force && ltb (available (some book) o.side (limit_price o)) o.qty
      ≡ false
    → IsSorted (facing book o.side)
    → sum (within o.side (limit_price o) (facing book o.side)) < 2 ^ 64
    → (match_book (some book) o).remaining ≡ 0
unfolding available match_book
nothing_left o book k fillable s t =
    let offered = within o.side (limit_price o) (facing book o.side) in
    let enough : ltb (sum_u64 offered) o.qty ≡ false =
      ap (λ tif. is_fill_or_kill tif && ltb (sum_u64 offered) o.qty) (sym k) ∙ fillable in
    remaining-match_order (facing book o.side) o.side o.qty (limit_price o) s
    ∙ ground (arith, sum_u64-sum offered t)

Outcome-nothing_left :
    {o : OrderNewEvent} {rest : ℕ} {resting resting' : HashMap String SimOrder} {l : LiveOrder}
    → Outcome o rest resting resting' l
    → rest ≡ 0
    → (l.state ≡ filled) × (l.filled_qty ≡ o.qty)
Outcome-nothing_left (completed r s f k) z = (s, f)
Outcome-nothing_left (expired r t s f k) z = absurd (omega (arith, r, z))
Outcome-nothing_left (open_and_resting r t s f order same k) z = absurd (omega (arith, r, z))
Outcome-nothing_left (open_and_dropped r t n s f k) z = absurd (omega (arith, r, z))

-- A fill-or-kill order is all or nothing: in that run, with a sorted book whose quantities sum up to
-- less than 2 ^ 64, the engine holds it as rejected with nothing filled or as filled by its
-- quantity.
pub submit_order-all_or_nothing :
    (x : SimulatedExchange) (o : OrderNewEvent) (ts : ℕ) (source : NodeId) (start_seq : ℕ)
    (e : ExecutionEngine) (l : LiveOrder) (book : SimBook)
    → o.time_in_force ≡ fill_or_kill
    → HashMap.get (pair o.symbol) x.books ≡ some book
    → IsSorted (facing book o.side)
    → sum (within o.side (limit_price o) (facing book o.side)) < 2 ^ 64
    → get o.order_id e.orders ≡ some l
    → l.state ≡ new
    → l.filled_qty ≡ 0
    → l.original_qty ≡ o.qty
    → 0 < o.qty
    → o.qty < 2 ^ 64
    → x.pending_events ≡ []
    → (l' : LiveOrder) × (get o.order_id
          (process_all e (drain_events (submit_order x o ts source) start_seq).1).orders
        ≡ some l')
      × (((l'.state ≡ rejected) × (l'.filled_qty ≡ 0))
          ⊎ ((l'.state ≡ filled) × (l'.filled_qty ≡ o.qty)))
unfolding drain_events
submit_order-all_or_nothing x o ts source start_seq e l book k g s t h n f q z b nothing =
    rw (process_all-number_events (submit_order x o ts source).pending_events start_seq e)
      (elim (submit_order-cases x o ts source) [
        | inl (reject_ts, reason, events, kept, unfit) ↦
            let (l', there, state, nought) =
              reject_step x o ts source e l h n f q reject_ts reason in
            rw (events ∙ ap (λ p. p ++ reject_event o source reject_ts reason ∷ []) nothing)
              (l', there, inl (state, nought))
        | inr (accepted, fillable, fit) ↦
            let (l', there, outcome) = accept_order-Outcome x o ts source e l h n f q z b nothing in
            rw accepted (
              l',
              there,
              inr (
                  Outcome-nothing_left outcome (
                    ap (λ r. (match_book r o).remaining) g
                    ∙ nothing_left o book k
                        (ap
                            (λ r.
                              is_fill_or_kill o.time_in_force
                              && ltb (available r o.side (limit_price o)) o.qty)
                            (sym g)
                          ∙ fillable)
                        s t)),
            )
      ])
