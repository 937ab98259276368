-- ===== src/Replay/Log.antt =====
-- `EventLog` of crates/atomic-replay/src/log.rs, on files that hold bytes. What `BufWriter` has not
-- written is in the log; the disk does not fail, so that the errors are a missing file, a file that
-- ends too early, and what the log itself returns. `bincode::serialize` and `bincode::deserialize` of
-- events are arguments, with `none` for their errors.
pub mod Reading
pub mod RoundTrip
use atomic_mesh.Base.{
  ℕ, zero, suc, ◌+◌, ◌*◌, ◌/◌, ◌%◌, ◌^◌, Bool, true, false, ◌&&◌, Option, none, some, String,
  string_eq, List, [], ◌∷◌, ◌++◌, length, take, drop, filter, ltb, leb, if◌then◌else◌,
}
use atomic_mesh.Base.HashMap.{HashMap, get, insert, contains_key}
use atomic_mesh.Base.Word.{u64}
use atomic_mesh.Core.Event.{Event}
use atomic_mesh.Core.Snapshot.{Bytes}

abbrev pub Files : Type 0
Files = HashMap String Bytes

pub data IoError : Type 0 where
  not_found unexpected_eof invalid_data read_only_log : IoError

pub data IoResult (A : Type 0) : Type 0 where
  ok : A → IoResult A
  err : IoError → IoResult A

pub record EventLog : Type 0 where
  pub writer : Option Bytes
  pub path : String
  pub event_count : ℕ

-- Opening a file to append to creates it.
unfoldable pub open_log : Files → String → Files × EventLog
open_log files path = (
  if contains_key path files then files else insert path [] files,
  record { writer = some []; path = path; event_count = 0 },
)

unfoldable pub read_only : String → EventLog
read_only path = record { writer = none; path = path; event_count = 0 }

-- `u32::to_le_bytes` and `u32::from_le_bytes`.
unfoldable pub to_le_bytes : ℕ → Bytes
to_le_bytes n = n % 256 ∷ n / 256 % 256 ∷ n / 65_536 % 256 ∷ n / 16_777_216 % 256 ∷ []

unfoldable pub from_le_bytes : ℕ → ℕ → ℕ → ℕ → ℕ
from_le_bytes a b c d = a + 256 * b + 65_536 * c + 16_777_216 * d

-- What one call of `append` writes.
unfoldable pub frame : Bytes → Bytes
unfolding to_le_bytes
frame encoded = to_le_bytes (length encoded % 2 ^ 32) ++ encoded

abbrev pub bytes_or_none : Option Bytes → Bytes
bytes_or_none none = []
bytes_or_none (some bytes) = bytes

abbrev pub contents : Files → String → Bytes
contents files path = bytes_or_none (get path files)

unfoldable pub flush : Files → EventLog → Files × EventLog
flush files log = elim log.writer [
  | none ↦ (files, log)
  | some pending ↦
      (insert log.path (contents files log.path ++ pending) files, record log { writer = some [] })
]

module _ (serialize : Event → Option Bytes) where
  abbrev written : EventLog → Bytes → Option Bytes → IoResult EventLog
  written log pending none = err invalid_data
  written log pending (some encoded) = ok (record log {
    writer = some (pending ++ frame encoded);
    event_count = u64 (log.event_count + 1);
  })

  abbrev to_writer : EventLog → Event → Option Bytes → IoResult EventLog
  to_writer log event none = err read_only_log
  to_writer log event (some pending) = written log pending (serialize event)

  unfoldable pub append : EventLog → Event → IoResult EventLog
  unfolding frame
  append log event = to_writer log event log.writer

module _ (deserialize : Bytes → Option Event) where
  -- The loop of `read_all` on fuel; without fuel there is no result.
  unfoldable pub read_events : ℕ → Bytes → List Event → Option (IoResult (List Event))
  read_events zero bytes events = none
  read_events (suc fuel) (a ∷ b ∷ c ∷ d ∷ rest) events =
      let len = from_le_bytes a b c d in
      if ltb (length rest) len
      then some (err unexpected_eof)
      else (elim (deserialize (take len rest)) [
        | none ↦ some (err invalid_data)
        | some event ↦ read_events fuel (drop len rest) (events ++ event ∷ [])
      ])
  read_events (suc fuel) bytes events = some (ok events)

  abbrev pub read_file : Option Bytes → Option (IoResult (List Event))
  read_file none = some (err not_found)
  read_file (some bytes) = read_events (suc (length bytes)) bytes []

  unfoldable pub read_all : Files → EventLog → Option (IoResult (List Event))
  unfolding read_events
  read_all files log = read_file (get log.path files)

  abbrev in_range : ℕ → ℕ → Option (IoResult (List Event)) → Option (IoResult (List Event))
  in_range from_seq to_seq (some (ok events)) =
      some (ok (filter (λ e. leb from_seq e.seq && leb e.seq to_seq) events))
  in_range from_seq to_seq r = r

  unfoldable pub read_range : Files → EventLog → ℕ → ℕ → Option (IoResult (List Event))
  unfolding read_all
  read_range files log from_seq to_seq = in_range from_seq to_seq (read_all files log)
