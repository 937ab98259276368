-- ===== src/Replay/Tests.antt =====
-- A run of the player, and the theorems about it.
use atomic_mesh.Base.{
  ℕ, ltb, if◌then◌else◌, string_eq, Option, List, ◌++◌, ◌≤◌, ◌<◌, ◌≡◌, ◌⊎◌, none, some, refl, [],
  ◌∷◌, All, take, arith,
}
use atomic_mesh.Core.Event.{Event, heartbeat}
use atomic_mesh.Base.HashMap.{get}
use atomic_mesh.Core.Snapshot.{Bytes}
use atomic_mesh.Replay.Log.{
  Files, EventLog, IoResult, ok, err, unexpected_eof, read_all, read_only, open_log, flush, frame,
  to_le_bytes,
}
use atomic_mesh.Replay.Log.Reading.{read_all-some}
use atomic_mesh.Replay.Log.RoundTrip.{
  Entry, frames, events_of, append_all, read_all-torn, append-read_all,
}
use atomic_mesh.Replay.Player.{ReplayPlayer, maximum, seek_to_seq, peek_event}
use atomic_mesh.Replay.Player.Seek.{seek_to_seq_lem}

abbrev beat : ℕ → Event
beat seq = record {
  seq = seq;
  timestamp = 9;
  source = [];
  payload = heartbeat (record { node_id = []; uptime_secs = 1 });
}

abbrev player : ReplayPlayer
player = record {
  current_index = 1;
  events = beat 3 ∷ beat 4 ∷ beat 7 ∷ beat 9 ∷ [];
  speed = maximum;
}

seek_to_seq_lem_example :
    All (λ e. e.seq < 5) (take (seek_to_seq player 5).current_index player.events)
    × ((peek_event (seek_to_seq player 5) ≡ none)
        ⊎ ((e : Event) × (peek_event (seek_to_seq player 5) ≡ some e) × (5 ≤ e.seq)))
seek_to_seq_lem_example = seek_to_seq_lem player 5

-- An encoding of the beats.
abbrev write : Event → Option Bytes
write e = some (e.seq ∷ [])

abbrev read : Bytes → Option Event
read [] = none
read (n ∷ bs) = some (beat n)

abbrev beats : List Entry
beats = (beat 3, 3 ∷ []) ∷ (beat 4, 4 ∷ []) ∷ []

-- Two frames, and four of the five bytes of a third one.
abbrev torn_file : Files
torn_file = ("log", frames beats ++ take 4 (frame (9 ∷ []))) ∷ []

read_all-some_example :
    (r : IoResult (List Event)) × (read_all read torn_file (read_only "log") ≡ some r)
read_all-some_example = read_all-some read torn_file (read_only "log")

read_all-torn_example :
    read_all read torn_file (read_only "log")
    ≡ some (if ltb 4 4 then ok (events_of beats) else err unexpected_eof)
read_all-torn_example =
    read_all-torn write read torn_file (read_only "log") beats (beat 9, 9 ∷ []) 4
      ((refl, refl, omega arith), ((refl, refl, omega arith), tt)) (omega arith)
      (unfold frame to_le_bytes in omega arith) (unfold get read_only in refl)

append-read_all_example :
    let (files, log) = open_log [] "log" in
    (log' : EventLog) × (append_all write read (events_of beats) log ≡ ok log')
    × (read_all read (flush files log').0 (read_only "log") ≡ some (ok (events_of ([] ++ beats))))
append-read_all_example =
    append-read_all write read [] "log" [] beats (unfold get in refl) tt
      ((refl, refl, omega arith), ((refl, refl, omega arith), tt))
