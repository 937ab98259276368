-- ===== src/Execution/Verifier.antt =====
-- `StateVerifier` of crates/atomic-execution/src/state_machine.rs: when to compare state hashes, and
-- with what.
use atomic_mesh.Base.{
  ℕ, zero, suc, ◌+◌, ◌^◌, ◌<◌, ◌≡◌, ◌↔◌, ◌≢◌, Bool, true, false, not, arith, leb, if◌then◌else◌,
  ◌==◌, nat_eq,
}
use atomic_mesh.Base.Word.{u64}
use atomic_mesh.Core.Snapshot.{Bytes, bytes_eq}

pub record StateVerifier : Type 0 where
  pub interval : ℕ
  pub events_since_verify : ℕ
  pub last_verified_seq : ℕ
  pub last_hash : Bytes

unfoldable pub new_verifier : ℕ → Bytes → StateVerifier
new_verifier interval zero_hash = record {
  interval = interval;
  events_since_verify = 0;
  last_verified_seq = 0;
  last_hash = zero_hash;
}

unfoldable pub tick : StateVerifier → StateVerifier × Bool
tick v =
    let count = u64 (v.events_since_verify + 1) in
    (record v { events_since_verify = count }, leb v.interval count)

unfoldable pub on_verified : StateVerifier → ℕ → Bytes → StateVerifier
on_verified v seq hash = record v {
  last_verified_seq = seq;
  last_hash = hash;
  events_since_verify = 0;
}

unfoldable pub verify_peer : StateVerifier → ℕ → Bytes → Bool
verify_peer v seq peer_hash =
    if not (seq == v.last_verified_seq) then true else v.last_hash == peer_hash

-- The verifier after a number of events.
abbrev pub ticks : ℕ → StateVerifier → StateVerifier
ticks zero v = v
ticks (suc n) v = ticks n (tick v).0

ticks-count :
    (n : ℕ) (v : StateVerifier)
    → v.events_since_verify + n < 2 ^ 64
    → ((ticks n v).events_since_verify ≡ v.events_since_verify + n)
      × ((ticks n v).interval ≡ v.interval)
unfolding tick
ticks-count zero v h = ground arith
ticks-count (suc n) v h = ground (arith, ticks-count n (tick v).0)

-- After a verification the tick of each later event says that it is time for the next one just if
-- `interval` events have come, that one included; fewer than 2 ^ 64 of them.
pub tick_at_interval :
    (v : StateVerifier) (seq : ℕ) (hash : Bytes) (n : ℕ)
    → n + 1 < 2 ^ 64
    → (tick (ticks n (on_verified v seq hash))).1 ≡ leb v.interval (n + 1)
unfolding tick on_verified
tick_at_interval v seq hash n h = ground (arith, ticks-count n (on_verified v seq hash))

-- Right after a verification a peer's hash is refused just if it is for the sequence number that was
-- verified and differs from the hash recorded there.
pub verify_peer-on_verified :
    (v : StateVerifier) (seq peer_seq : ℕ) (hash peer_hash : Bytes)
    → (verify_peer (on_verified v seq hash) peer_seq peer_hash ≡ false)
      ↔ ((peer_seq ≡ seq) × (hash ≢ peer_hash))
unfolding verify_peer on_verified
verify_peer-on_verified v seq peer_seq hash peer_hash =
    ground (arith, bytes_eq.beq_decides hash peer_hash)
