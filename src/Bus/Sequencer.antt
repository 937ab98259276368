-- ===== src/Bus/Sequencer.antt =====
-- `EventSequencer` of crates/atomic-bus/src/sequencer.rs.
use atomic_mesh.Base.{
  ℕ, suc, ◌+◌, ◌-◌, ◌^◌, ◌≤◌, ◌<◌, ◌≡◌, refl, Option, List, [], ◌∷◌, ◌++◌, length, get_elem?, arith,
  leb, Bool-cases, inl, inr, subst, length-append, ◌∙◌, max, if◌then◌else◌,
}
use atomic_mesh.Base.Word.{u64, sub_u64}
use atomic_mesh.Core.Clock.{SequenceGenerator, new_generator, next_seq}
use atomic_mesh.Core.Clock
use atomic_mesh.Core.Event.{Event}

pub record EventSequencer : Type 0 where
  pub seq_gen : SequenceGenerator
  pub buffer : List Event
  pub max_buffer_size : ℕ

unfoldable pub new_sequencer : ℕ → EventSequencer
new_sequencer max_buffer_size = record {
  seq_gen = new_generator;
  buffer = [];
  max_buffer_size = max_buffer_size;
}

abbrev pub pop_front : List Event → List Event
pop_front [] = []
pop_front (x ∷ xs) = xs

unfoldable pub sequence : EventSequencer → Event → EventSequencer × ℕ
unfolding next_seq
sequence s event =
    let seq = (next_seq s.seq_gen).1 in
    let buffer = if leb s.max_buffer_size (length s.buffer) then pop_front s.buffer else s.buffer in
    (
      record s {
        seq_gen = (next_seq s.seq_gen).0;
        buffer = buffer ++ record event { seq = seq } ∷ [];
      },
      seq,
    )

unfoldable pub drain : EventSequencer → EventSequencer × List Event
drain s = (record s { buffer = [] }, s.buffer)

unfoldable pub front : EventSequencer → Option Event
front s = get_elem? s.buffer 0

unfoldable pub buffered : EventSequencer → ℕ
buffered s = length s.buffer

unfoldable pub current_seq : EventSequencer → ℕ
current_seq s = sub_u64 (Clock.peek s.seq_gen) 1

-- What comes in: events to sequence, and drains.
pub data Use : Type 0 where
  sequences : Event → Use
  drains : Use

abbrev pub run : EventSequencer → List Use → EventSequencer
run s [] = s
run s (sequences e ∷ us) = run (sequence s e).0 us
run s (drains ∷ us) = run (drain s).0 us

-- The number of events sequenced.
abbrev pub sequenced : List Use → ℕ
sequenced [] = 0
sequenced (sequences e ∷ us) = suc (sequenced us)
sequenced (drains ∷ us) = sequenced us

-- The numbers of a list of events rise by one and end below `n`.
abbrev pub EndsBelow : List Event → ℕ → Type 0
EndsBelow [] n = Unit
EndsBelow (x ∷ xs) n = (x.seq + length (x ∷ xs) ≡ n) × EndsBelow xs n

pub record IsInOrder (s : EventSequencer) : Type 0 where
  pub consecutive : EndsBelow s.buffer s.seq_gen.next
  pub bounded : length s.buffer ≤ max s.max_buffer_size 1

EndsBelow-snoc :
    (xs : List Event) (x : Event) (n : ℕ)
    → EndsBelow xs n
    → x.seq ≡ n
    → EndsBelow (xs ++ x ∷ []) (n + 1)
EndsBelow-snoc [] x n e h = (omega (arith, h), tt)
EndsBelow-snoc (y ∷ xs) x n e h =
    (omega (arith, e.0, length-append xs (x ∷ [])), EndsBelow-snoc xs x n e.1 h)

EndsBelow-pop_front : (xs : List Event) (n : ℕ) → EndsBelow xs n → EndsBelow (pop_front xs) n
EndsBelow-pop_front [] n e = tt
EndsBelow-pop_front (x ∷ xs) n e = e.1

length-pop_front : (xs : List Event) → length (pop_front xs) ≡ length xs - 1
length-pop_front [] = refl
length-pop_front (x ∷ xs) = omega arith

sequence-IsInOrder :
    (s : EventSequencer) (e : Event)
    → s.seq_gen.next + 1 < 2 ^ 64
    → IsInOrder s
    → IsInOrder (sequence s e).0
unfolding sequence
sequence-IsInOrder s e b i =
    let x : Event = record e { seq = s.seq_gen.next } in
    let one_more : u64 (s.seq_gen.next + 1) ≡ s.seq_gen.next + 1 = omega arith in
    elim (Bool-cases (leb s.max_buffer_size (length s.buffer))) [
      | inl full ↦
          rw (full, one_more)
            (record {
              consecutive =
                  EndsBelow-snoc (pop_front s.buffer) x s.seq_gen.next
                    (EndsBelow-pop_front s.buffer s.seq_gen.next i.consecutive) refl;
              bounded = omega (
                arith,
                i.bounded,
                length-append (pop_front s.buffer) (x ∷ []),
                length-pop_front s.buffer,
              );
            })
      | inr room ↦
          rw (room, one_more)
            (record {
              consecutive = EndsBelow-snoc s.buffer x s.seq_gen.next i.consecutive refl;
              bounded = ground (arith, i.bounded, length-append s.buffer (x ∷ []));
            })
    ]

run-IsInOrder :
    (us : List Use) (s : EventSequencer)
    → s.seq_gen.next + sequenced us < 2 ^ 64
    → IsInOrder s
    → IsInOrder (run s us)
      × ((run s us).seq_gen.next ≡ s.seq_gen.next + sequenced us)
      × ((run s us).max_buffer_size ≡ s.max_buffer_size)
unfolding sequence drain next_seq
run-IsInOrder [] s b i = (i, omega arith, refl)
run-IsInOrder (sequences e ∷ us) s b i =
    let (later, count, same) =
      run-IsInOrder us (sequence s e).0 (omega arith) (sequence-IsInOrder s e (omega arith) i) in
    (later, count ∙ omega arith, same)
run-IsInOrder (drains ∷ us) s b i =
    run-IsInOrder us (drain s).0 b (record { consecutive = tt; bounded = omega arith })

-- Whatever events a new sequencer gets, with drains in between, the buffered ones have consecutive
-- numbers up to `current_seq`, which is the number of the events sequenced, and they are at most
-- `max_buffer_size`, or one where that is 0; fewer than 2 ^ 64 - 1 events.
pub run_in_order :
    (max_buffer_size : ℕ) (us : List Use)
    → sequenced us + 1 < 2 ^ 64
    → let s = run (new_sequencer max_buffer_size) us in
      EndsBelow s.buffer (current_seq s + 1)
      × (current_seq s ≡ sequenced us)
      × (length s.buffer ≤ max max_buffer_size 1)
unfolding current_seq
run_in_order max_buffer_size us b =
    let start : IsInOrder (new_sequencer max_buffer_size) =
      unfold new_sequencer in record { consecutive = tt; bounded = omega arith } in
    let first : (new_sequencer max_buffer_size).seq_gen.next ≡ 1 =
      unfold new_sequencer new_generator in refl in
    let (i, count, same) = run-IsInOrder us (new_sequencer max_buffer_size) (omega arith) start in
    let s : EventSequencer = run (new_sequencer max_buffer_size) us in
    let now : s.seq_gen.next ≡ sub_u64 s.seq_gen.next 1 + 1 = omega arith in
    unfold Clock.peek in
    (
      subst (EndsBelow s.buffer) now i.consecutive,
      omega arith,
      subst (λ m. length s.buffer ≤ max m 1) (same ∙ unfold new_sequencer in refl) i.bounded,
    )
