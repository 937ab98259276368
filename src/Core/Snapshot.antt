-- ===== src/Core/Snapshot.antt =====
-- crates/atomic-core/src/snapshot.rs. The hash function is that of the crate xxhash-rust, so it is an
-- argument; a hash is the list of its 8 bytes.
use atomic_mesh.Base.{
  ℕ, ◌≡◌, ◌↔◌, Bool, true, false, ◌&&◌, List, [], ◌∷◌, arith, Eq, ◌==◌, nat_eq, if◌then◌else◌, not,
}

abbrev pub Bytes : Type 0
Bytes = List ℕ

-- `==` on arrays.
abbrev pub bytes_beq : Bytes → Bytes → Bool
bytes_beq [] [] = true
bytes_beq (x ∷ xs) (y ∷ ys) = (x == y) && bytes_beq xs ys
bytes_beq _ _ = false

pub bytes_beq_decides : (a b : Bytes) → (bytes_beq a b ≡ true) ↔ (a ≡ b)
bytes_beq_decides [] [] = ground arith
bytes_beq_decides [] (y ∷ ys) = ground arith
bytes_beq_decides (x ∷ xs) [] = ground arith
bytes_beq_decides (x ∷ xs) (y ∷ ys) = ground (arith, bytes_beq_decides xs ys)

instance abbrev pub bytes_eq : Eq Bytes
bytes_eq = record { beq = bytes_beq; beq_decides = bytes_beq_decides }

pub record EngineSnapshot : Type 0 where
  pub seq : ℕ
  pub timestamp : ℕ
  pub state_hash : Bytes
  pub events_since_last : ℕ
  pub state_data : Bytes

module _ (compute_hash : Bytes → Bytes) where
  unfoldable pub verify : EngineSnapshot → Bool
  verify s = compute_hash s.state_data == s.state_hash

unfoldable pub hashes_match : EngineSnapshot → EngineSnapshot → Bool
hashes_match s other = (s.seq == other.seq) && (s.state_hash == other.state_hash)

pub record DeltaSnapshot : Type 0 where
  pub base_seq : ℕ
  pub current_seq : ℕ
  pub delta_data : Bytes
  pub result_hash : Bytes

-- The windows of two of `deltas`, in order.
unfoldable pub verify_chain : List DeltaSnapshot → Bool
verify_chain [] = true
verify_chain (d ∷ []) = true
verify_chain (d ∷ e ∷ rest) =
    if not (d.current_seq == e.base_seq) then false else verify_chain (e ∷ rest)
