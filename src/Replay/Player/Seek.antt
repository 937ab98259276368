-- ===== src/Replay/Player/Seek.antt =====
-- Where a seek ends.
use atomic_mesh.Base.{
  ℕ, ◌≤◌, ◌<◌, ◌≡◌, refl, ◌⊎◌, inl, inr, none, some, List, [], ◌∷◌, All, get_elem?, take, arith,
  leb, leb→le, Bool-cases,
}
use atomic_mesh.Core.Event.{Event}
use atomic_mesh.Replay.Player.{ReplayPlayer, position_from, seek_to_seq, peek_event}

position_from_lem :
    (seq : ℕ) (es : List Event)
    → All (λ e. e.seq < seq) (take (position_from seq es) es)
      × ((get_elem? es (position_from seq es) ≡ none)
          ⊎ ((e : Event) × (get_elem? es (position_from seq es) ≡ some e) × (seq ≤ e.seq)))
unfolding position_from
position_from_lem seq [] = (tt, inl refl)
position_from_lem seq (e ∷ es) = elim (Bool-cases (leb seq e.seq)) [
  | inl found ↦ rw found (tt, inr (e, refl, leb→le seq e.seq found))
  | inr before ↦
      let (passed, there) = position_from_lem seq es in rw before ((ground arith, passed), there)
]

-- After a seek the events before the position all have smaller numbers, and the event at the
-- position, if there is one, has at least the number sought.
pub seek_to_seq_lem :
    (p : ReplayPlayer) (seq : ℕ)
    → let p' = seek_to_seq p seq in
      All (λ e. e.seq < seq) (take p'.current_index p.events)
      × ((peek_event p' ≡ none) ⊎ ((e : Event) × (peek_event p' ≡ some e) × (seq ≤ e.seq)))
unfolding seek_to_seq peek_event
seek_to_seq_lem p seq = position_from_lem seq p.events
