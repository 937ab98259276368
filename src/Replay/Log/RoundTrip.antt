-- ===== src/Replay/Log/RoundTrip.antt =====
-- Reading back what was appended.
use mathlib.Core.List.{append-nil, append_assoc}
use atomic_mesh.Base.{
  ℕ, zero, suc, ◌+◌, ◌-◌, ◌/◌, ◌%◌, ◌^◌, ◌≤◌, ◌<◌, ◌≡◌, refl, sym, ◌∙◌, ap, subst, Option, some,
  List, [], ◌∷◌, ◌++◌, All, All-append, length, length-append, take, drop, map, true, false, ltb,
  arith, Bool-cases, inl, inr, if◌then◌else◌, String, string_eq, beq_refl,
}
use atomic_mesh.Base.HashMap.{get, insert, get-insert, contains_key, get_of_contains_key}
use atomic_mesh.Base.Word.{u64}
use atomic_mesh.Core.Event.{Event}
use atomic_mesh.Core.Snapshot.{Bytes}
use atomic_mesh.Replay.Log.{
  Files, EventLog, IoResult, ok, err, unexpected_eof, from_le_bytes, to_le_bytes, frame,
  read_events, read_all, read_file, open_log, read_only, append, flush, contents, bytes_or_none,
}

from_le_bytes-to_le_bytes :
    (n : ℕ)
    → n < 2 ^ 32
    → from_le_bytes (n % 256) (n / 256 % 256) (n / 65_536 % 256) (n / 16_777_216 % 256) ≡ n
unfolding from_le_bytes
from_le_bytes-to_le_bytes n h = omega arith

take-append {ℓ} : {A : Type ℓ} (xs ys : List A) → take (length xs) (xs ++ ys) ≡ xs
take-append [] ys = refl
take-append (x ∷ xs) ys = ap (◌∷◌ x) (take-append xs ys)

drop-append {ℓ} : {A : Type ℓ} (xs ys : List A) → drop (length xs) (xs ++ ys) ≡ ys
drop-append [] ys = refl
drop-append (x ∷ xs) ys = drop-append xs ys

length-take-lt {ℓ} : {A : Type ℓ} (n : ℕ) (xs : List A) → n < length xs → length (take n xs) ≡ n
length-take-lt zero xs h = refl
length-take-lt (suc n) [] h = absurd (omega arith)
length-take-lt (suc n) (x ∷ xs) h = omega (arith, length-take-lt n xs (omega arith))

-- A file that is opened to append to keeps its contents, and a flush writes behind them.
contents-open_log :
    (files : Files) (path : String) → contents (open_log files path).0 path ≡ contents files path
unfolding open_log
contents-open_log files path =
    let empty : Bytes = [] in
    let opened : get path (insert path empty files) ≡ some empty =
      get-insert path path empty files ∙ rw (beq_refl path) refl in
    elim (Bool-cases (contains_key path files)) [
      | inl there ↦ rw there refl
      | inr missing ↦ rw missing (
          ap bytes_or_none opened ∙ ap bytes_or_none (sym (get_of_contains_key path files missing)))
    ]

get-flush :
    (files : Files) (log : EventLog) (pending : Bytes)
    → log.writer ≡ some pending
    → get log.path (flush files log).0 ≡ some (contents files log.path ++ pending)
unfolding flush
get-flush files log pending w =
    rw
      (
        w,
        get-insert log.path log.path (contents files log.path ++ pending) files,
        beq_refl log.path,
      )
      refl

-- Events with their encodings, as they stand in a file.
abbrev pub Entry : Type 0
Entry = Event × Bytes

abbrev pub events_of : List Entry → List Event
events_of = map (λ e. e.0)

abbrev pub frames : List Entry → Bytes
frames [] = []
frames (e ∷ es) = frame e.1 ++ frames es

frames-append : (xs ys : List Entry) → frames (xs ++ ys) ≡ frames xs ++ frames ys
frames-append [] ys = refl
frames-append (x ∷ xs) ys =
    ap (λ t. frame x.1 ++ t) (frames-append xs ys)
    ∙ sym (append_assoc (frame x.1) (frames xs) (frames ys))

length-frames : (es : List Entry) → length es ≤ length (frames es)
unfolding frame to_le_bytes
length-frames [] = omega arith
length-frames (e ∷ es) = omega (arith, length-append (frame e.1) (frames es), length-frames es)

module _ (serialize : Event → Option Bytes) (deserialize : Bytes → Option Event) where
  -- The encoding of an event, which is shorter than 2 ^ 32 bytes and is read back as that event.
  abbrev pub Encodes : Entry → Type 0
  Encodes e = (serialize e.0 ≡ some e.1) × (deserialize e.1 ≡ some e.0) × (length e.1 < 2 ^ 32)

  read-frame :
      (fuel : ℕ) (e : Entry) (rest : Bytes) (events : List Event)
      → Encodes e
      → read_events deserialize (suc fuel) (frame e.1 ++ rest) events
        ≡ read_events deserialize fuel rest (events ++ e.0 ∷ [])
  unfolding read_events frame to_le_bytes
  read-frame fuel e rest events (_, d, l) =
      let whole : ltb (length (e.1 ++ rest)) (length e.1) ≡ false =
        ground (arith, length-append e.1 rest) in
      let modulus : length e.1 % 2 ^ 32 ≡ length e.1 = omega arith in
      rw
        (
          modulus,
          from_le_bytes-to_le_bytes (length e.1) l,
          whole,
          take-append e.1 rest,
          d,
          modulus,
          from_le_bytes-to_le_bytes (length e.1) l,
          drop-append e.1 rest,
        )
        refl

  read-frames :
      (es : List Entry) (fuel : ℕ) (rest : Bytes) (events : List Event)
      → All Encodes es
      → read_events deserialize (length es + fuel) (frames es ++ rest) events
        ≡ read_events deserialize fuel rest (events ++ events_of es)
  read-frames [] fuel rest events a =
      let zero_more : 0 + fuel ≡ fuel = omega arith in rw (zero_more, append-nil events) refl
  read-frames (e ∷ es) fuel rest events a =
      let one_more : suc (length es) + fuel ≡ suc (length es + fuel) = omega arith in
      rw
        (
          one_more,
          append_assoc (frame e.1) (frames es) rest,
          read-frame (length es + fuel) e (frames es ++ rest) events a.0,
          read-frames es fuel rest (events ++ e.0 ∷ []) a.1,
          append_assoc events (e.0 ∷ []) (events_of es),
        )
        refl

  -- Enough fuel to read past the whole frames.
  pub read_file-frames :
      (es : List Entry) (rest : Bytes)
      → All Encodes es
      → (fuel : ℕ) × (length rest ≤ fuel)
        × (read_file deserialize (some (frames es ++ rest))
            ≡ read_events deserialize (suc fuel) rest (events_of es))
  read_file-frames es rest a =
      let fuel : ℕ = length (frames es ++ rest) - length es in
      let enough : suc (length (frames es ++ rest)) ≡ length es + suc fuel =
        omega (arith, length-frames es, length-append (frames es) rest) in
      (
        fuel,
        omega (arith, length-frames es, length-append (frames es) rest),
        ap (λ n. read_events deserialize n (frames es ++ rest) []) enough
            ∙ read-frames es (suc fuel) rest [] a,
      )

  read-torn :
      (fuel n : ℕ) (e : Entry) (events : List Event)
      → length e.1 < 2 ^ 32
      → n < length (frame e.1)
      → read_events deserialize (suc fuel) (take n (frame e.1)) events
        ≡ some (if ltb n 4 then ok events else err unexpected_eof)
  unfolding read_events frame to_le_bytes
  read-torn fuel zero e events l h = refl
  read-torn fuel (suc zero) e events l h = refl
  read-torn fuel (suc (suc zero)) e events l h = refl
  read-torn fuel (suc (suc (suc zero))) e events l h = refl
  read-torn fuel (suc (suc (suc (suc n)))) e events l h =
      let modulus : length e.1 % 2 ^ 32 ≡ length e.1 = omega arith in
      let short : length (take n e.1) ≡ n = length-take-lt n e.1 (omega arith) in
      let cut : ltb n (length e.1) ≡ true = ground arith in
      let late : ltb (suc (suc (suc (suc n)))) 4 ≡ false = ground arith in
      rw (modulus, from_le_bytes-to_le_bytes (length e.1) l, short, cut, late) refl

  -- A file that ends in the middle of a frame, as a crash while it is written leaves it: within the
  -- first four bytes of the frame, or before them, `read_all` gives the events of the frames before
  -- it, and after them it gives the error of a file that ends too early. So none of the events before
  -- a torn one is read then.
  pub read_all-torn :
      (files : Files) (log : EventLog) (es : List Entry) (e : Entry) (n : ℕ)
      → All Encodes es
      → length e.1 < 2 ^ 32
      → n < length (frame e.1)
      → get log.path files ≡ some (frames es ++ take n (frame e.1))
      → read_all deserialize files log
        ≡ some (if ltb n 4 then ok (events_of es) else err unexpected_eof)
  unfolding read_all
  read_all-torn files log es e n a l h g =
      let (fuel, _, same) = read_file-frames es (take n (frame e.1)) a in
      ap (read_file deserialize) g ∙ same ∙ read-torn fuel n e (events_of es) l h

  -- `append` for one event after the other, up to the first error.
  abbrev and_then : IoResult EventLog → (EventLog → IoResult EventLog) → IoResult EventLog
  and_then (ok log) k = k log
  and_then (err e) k = err e

  abbrev pub append_all : List Event → EventLog → IoResult EventLog
  append_all [] log = ok log
  append_all (e ∷ es) log = and_then (append serialize log e) (append_all es)

  append_all-ok :
      (es : List Entry) (log : EventLog) (pending : Bytes)
      → log.writer ≡ some pending
      → All Encodes es
      → (log' : EventLog) × (append_all (events_of es) log ≡ ok log')
        × (log'.writer ≡ some (pending ++ frames es))
        × (log'.path ≡ log.path)
  unfolding append
  append_all-ok [] log pending w a = (log, refl, w ∙ ap some (sym (append-nil pending)), refl)
  append_all-ok (e ∷ es) log pending w a =
      let next : EventLog = record log {
        writer = some (pending ++ frame e.1);
        event_count = u64 (log.event_count + 1);
      } in
      let one : append serialize log e.0 ≡ ok next = rw (w, a.0.0) refl in
      let (log', all, holds, same) = append_all-ok es next (pending ++ frame e.1) refl a.1 in
      (
        log',
        ap (λ r. and_then r (append_all (events_of es))) one ∙ all,
        holds ∙ ap some (append_assoc pending (frame e.1) (frames es)),
        same,
      )

  -- Events that are appended to a log opened at a file of frames, or at no file, are written without
  -- an error, and once the log is flushed `read_all` gives the events of the file and then these, in
  -- order. The encoding of each event is read back as the event and is shorter than 2 ^ 32 bytes.
  pub append-read_all :
      (files : Files) (path : String) (olds news : List Entry)
      → contents files path ≡ frames olds
      → All Encodes olds
      → All Encodes news
      → let (files', log) = open_log files path in
        (log' : EventLog) × (append_all (events_of news) log ≡ ok log')
        × (read_all deserialize (flush files' log').0 (read_only path)
            ≡ some (ok (events_of (olds ++ news))))
  unfolding open_log flush read_only read_all
  append-read_all files path olds news h a b =
      let (files', log) = open_log files path in
      let (log', all, holds, same) = append_all-ok news log [] refl b in
      let (fuel, _, read) = read_file-frames (olds ++ news) [] (All-append Encodes olds news a b) in
      let written : get path (flush files' log').0 ≡ some (frames (olds ++ news) ++ []) =
        subst (λ p. get p (flush files' log').0 ≡ some (frames (olds ++ news) ++ [])) same
          (get-flush files' log' (frames news) holds
            ∙ ap some (
                ap (λ p. contents files' p ++ frames news) same
                ∙ ap (λ t. t ++ frames news) (contents-open_log files path ∙ h)
                ∙ sym (frames-append olds news)
                ∙ sym (append-nil (frames (olds ++ news))))) in
      (log', all, ap (read_file deserialize) written ∙ read)
