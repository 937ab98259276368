-- ===== src/Recovery.antt =====
-- `EventDeduplicator` of crates/atomic-node/src/recovery.rs. The set is the list of its elements.
pub mod Plan
pub mod Gaps
pub mod Missing
pub mod Saved
pub mod Planned
mod Tests
use atomic_mesh.Base.{
  ℕ, zero, suc, ◌+◌, ◌-◌, ◌≤◌, ◌<◌, ◌≡◌, refl, sym, ◌∙◌, ap, ap₂, inl, inr, Bool, true, false, not,
  ◌&&◌, List, [], ◌∷◌, length, filter, arith, leb, ltb, ◌==◌, nat_eq, if◌then◌else◌, Bool-cases,
}

pub record EventDeduplicator : Type 0 where
  pub seen_seqs : List ℕ
  pub max_seen : ℕ

unfoldable pub new_deduplicator : EventDeduplicator
new_deduplicator = record { seen_seqs = []; max_seen = 0 }

unfoldable pub deduplicator_from : ℕ → EventDeduplicator
deduplicator_from start_seq = record { seen_seqs = []; max_seen = start_seq }

abbrev pub contains : ℕ → List ℕ → Bool
contains x [] = false
contains x (y ∷ ys) = if y == x then true else contains x ys

abbrev insert_seq : ℕ → List ℕ → List ℕ
insert_seq x xs = if contains x xs then xs else x ∷ xs

-- The pruning of a set that has grown too large.
unfoldable pub prune : ℕ → List ℕ → List ℕ
prune max_seen seen =
    if ltb 100_000 (length seen) then filter (λ s. ltb (max_seen - 50_000) s) seen else seen

unfoldable pub check : EventDeduplicator → ℕ → EventDeduplicator × Bool
unfolding prune
check d seq =
    if leb seq d.max_seen && contains seq d.seen_seqs
    then (d, false)
    else (let max_seen = if ltb d.max_seen seq then seq else d.max_seen in
        (
          record { seen_seqs = prune max_seen (insert_seq seq d.seen_seqs); max_seen = max_seen },
          true,
        ))

abbrev pub checks : EventDeduplicator → List ℕ → List Bool
checks d [] = []
checks d (seq ∷ seqs) = (check d seq).1 ∷ checks (check d seq).0 seqs

-- Which elements of a list are the first of their kind, after some earlier ones.
abbrev pub first_times : List ℕ → List ℕ → List Bool
first_times earlier [] = []
first_times earlier (seq ∷ seqs) = not (contains seq earlier) ∷ first_times (seq ∷ earlier) seqs

record Knows (d : EventDeduplicator) (earlier : List ℕ) : Type 0 where
  knows : (x : ℕ) → contains x d.seen_seqs ≡ contains x earlier
  top : (x : ℕ) → contains x d.seen_seqs ≡ true → x ≤ d.max_seen
  fewer : length d.seen_seqs ≤ length earlier

and_false : (b : Bool) → b && false ≡ false
and_false true = refl
and_false false = refl

check-Knows :
    (d : EventDeduplicator) (earlier : List ℕ) (seq : ℕ)
    → length earlier < 100_000
    → Knows d earlier
    → ((check d seq).1 ≡ not (contains seq earlier)) × Knows (check d seq).0 (seq ∷ earlier)
unfolding check prune
check-Knows d earlier seq h k = elim (Bool-cases (contains seq d.seen_seqs)) [
  | inl old ↦
      let low : leb seq d.max_seen ≡ true = ground (arith, k.top seq old) in
      rw (low, old)
        (
          ap not (sym old ∙ k.knows seq),
          record {
            knows = λ x. ground (arith, k.knows x, k.knows seq, nat_eq.beq_decides seq x);
            top = k.top;
            fewer = omega (arith, k.fewer);
          },
        )
  | inr fresh ↦
      let small : ltb 100_000 (length (seq ∷ d.seen_seqs)) ≡ false = ground (arith, k.fewer) in
      rw (fresh, and_false (leb seq d.max_seen), small)
        (
          ap not (sym fresh ∙ k.knows seq),
          record {
            knows = λ x. ground (arith, k.knows x);
            top = λ x c. ground (arith, k.top x, nat_eq.beq_decides seq x);
            fewer = omega (arith, k.fewer);
          },
        )
]

checks-first_times :
    (seqs : List ℕ) (d : EventDeduplicator) (earlier : List ℕ)
    → length earlier + length seqs ≤ 100_000
    → Knows d earlier
    → checks d seqs ≡ first_times earlier seqs
checks-first_times [] d earlier h k = refl
checks-first_times (seq ∷ seqs) d earlier h k =
    let (same, k') = check-Knows d earlier seq (omega (arith, h)) k in
    ap₂ (◌∷◌) same (checks-first_times seqs (check d seq).0 (seq ∷ earlier) (omega (arith, h)) k')

-- Of up to 100,000 sequence numbers, in any order, a new deduplicator lets each pass the first time
-- that it comes, and no second time.
pub checks_lem :
    (seqs : List ℕ) → length seqs ≤ 100_000 → checks new_deduplicator seqs ≡ first_times [] seqs
checks_lem seqs h = checks-first_times seqs new_deduplicator [] (omega (arith, h)) (
    unfold new_deduplicator in
    record { knows = λ x. refl; top = λ x c. ground arith; fewer = omega arith })
