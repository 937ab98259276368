-- ===== src/Strategy/Engine.antt =====
-- `StrategyEngine` of crates/atomic-strategy/src/engine.rs.
use atomic_mesh.Base.{ℕ, String, string_eq, List, [], ◌∷◌, ◌++◌, map, length}
use atomic_mesh.Base.HashMap.{HashMap, insert}
use atomic_mesh.Core.Types.{Position}
use atomic_mesh.Core.Event.{Event}
use atomic_mesh.OrderBook.{OrderBook}
use atomic_mesh.Strategy.Traits.{Strategy, StrategyCommand, StrategyContext}

pub record StrategyEngine : Type 1 where
  pub strategies : List Strategy
  pub books : HashMap String OrderBook
  pub positions : HashMap String Position

unfoldable pub new_strategy_engine : StrategyEngine
new_strategy_engine = record { strategies = []; books = []; positions = [] }

unfoldable pub register : StrategyEngine → Strategy → StrategyEngine
register e strategy = record e { strategies = e.strategies ++ strategy ∷ [] }

unfoldable pub update_book : StrategyEngine → String → OrderBook → StrategyEngine
update_book e key book = record e { books = insert key book e.books }

unfoldable pub update_position : StrategyEngine → String → Position → StrategyEngine
update_position e key p = record e { positions = insert key p e.positions }

abbrev pub context_of : StrategyEngine → Event → StrategyContext
context_of e event = record {
  books = e.books;
  positions = e.positions;
  seq = event.seq;
  timestamp = event.timestamp;
}

-- One round of the loop: the strategy after the event, and its commands.
abbrev pub dispatch : Event → StrategyContext → Strategy → Strategy × List StrategyCommand
dispatch event ctx s =
    let (state, commands) = s.on_event s.state event ctx in (record s { state = state }, commands)

unfoldable pub dispatch_all :
    Event
    → StrategyContext
    → List Strategy
    → List StrategyCommand
    → List Strategy × List StrategyCommand
dispatch_all event ctx [] commands = ([], commands)
dispatch_all event ctx (s ∷ ss) commands =
    let (s', cmds) = dispatch event ctx s in
    let (ss', all) = dispatch_all event ctx ss (commands ++ cmds) in (s' ∷ ss', all)

unfoldable pub dispatch_event : StrategyEngine → Event → StrategyEngine × List StrategyCommand
unfolding dispatch_all
dispatch_event e event =
    let (strategies, commands) = dispatch_all event (context_of e event) e.strategies [] in
    (record e { strategies = strategies }, commands)

abbrev started : Strategy → Strategy
started s = record s { state = s.on_start s.state }

abbrev stopped : Strategy → Strategy
stopped s = record s { state = s.on_stop s.state }

unfoldable pub start_all : StrategyEngine → StrategyEngine
start_all e = record e { strategies = map started e.strategies }

unfoldable pub stop_all : StrategyEngine → StrategyEngine
stop_all e = record e { strategies = map stopped e.strategies }

unfoldable pub strategy_count : StrategyEngine → ℕ
strategy_count e = length e.strategies
