-- ===== src/Recovery/Gaps.antt =====
-- The gaps that a recovery plan finds.
use atomic_mesh.Base.{
  ℕ, ◌+◌, ◌^◌, ◌<◌, ◌≡◌, ◌≢◌, refl, sym, ◌∙◌, ap, Bool, true, false, Option, List, [], ◌∷◌, ◌++◌,
  length, filter, ltb, ◌==◌, nat_eq, arith, ◌≤◌, subst, All, All-imp, Bool-cases, inl, inr,
}
use atomic_mesh.Base.Word.{u64}
use atomic_mesh.Core.Event.{Event}
use atomic_mesh.Core.Snapshot.{EngineSnapshot}
use atomic_mesh.Recovery.Plan.{seq_or_zero, scan_gaps, find_gap, next_seq, plan_of}

-- The events have the sequence numbers from `n` on, without a gap.
abbrev pub Consecutive : ℕ → List Event → Type 0
Consecutive n [] = Unit
Consecutive n (e ∷ es) = (e.seq ≡ n) × Consecutive (n + 1) es

-- What a search for the first gap after `n` may answer: there is none, or the events have no gap up
-- to the number `from` that comes next, and then have another number.
abbrev pub Gap : ℕ → List Event → Bool → ℕ → Type 0
Gap n es false from = Consecutive n es
Gap n es true from =
    (pre : List Event) × (e : Event) × (post : List Event) × (es ≡ pre ++ e ∷ post)
    × Consecutive n pre
    × (from ≡ n + length pre)
    × (e.seq ≢ from)

Gap-cons :
    (n : ℕ) (a : Event) (es : List Event) (need : Bool) (from : ℕ)
    → a.seq ≡ n
    → Gap (n + 1) es need from
    → Gap n (a ∷ es) need from
Gap-cons n a es false from same c = (same, c)
Gap-cons n a es true from same (pre, e, post, split, c, next, other) =
    (a ∷ pre, e, post, ap (◌∷◌ a) split, (same, c), omega (arith, next), other)

scan_gaps-true : (es : List Event) (from : ℕ) → scan_gaps es true from ≡ (true, from)
unfolding scan_gaps
scan_gaps-true [] from = refl
scan_gaps-true (a ∷ []) from = refl
scan_gaps-true (a ∷ b ∷ es) from = scan_gaps-true (b ∷ es) from

scan_gaps-Gap :
    (es : List Event) (a : Event) (n : ℕ)
    → All (λ e. e.seq + 1 < 2 ^ 64) (a ∷ es)
    → a.seq ≡ n
    → let r = scan_gaps (a ∷ es) false 0 in Gap n (a ∷ es) r.0 r.1
unfolding scan_gaps
scan_gaps-Gap [] a n small same = (same, tt)
scan_gaps-Gap (b ∷ es) a n small same =
    let next : u64 (a.seq + 1) ≡ n + 1 = omega (arith, small.0) in
    elim (Bool-cases (b.seq == u64 (a.seq + 1))) [
      | inl follows ↦
          let one : scan_gaps (a ∷ b ∷ es) false 0 ≡ scan_gaps (b ∷ es) false 0 = rw follows refl in
          subst (λ r. Gap n (a ∷ b ∷ es) r.0 r.1) (sym one)
            (Gap-cons n a (b ∷ es) _ _ same
              (scan_gaps-Gap es b (n + 1) small.1 (ground (arith, follows, next))))
      | inr jumps ↦
          let found : scan_gaps (a ∷ b ∷ es) false 0 ≡ (true, u64 (a.seq + 1)) =
            rw jumps (scan_gaps-true (b ∷ es) (u64 (a.seq + 1))) in
          subst (λ r. Gap n (a ∷ b ∷ es) r.0 r.1) (sym found)
            (a ∷ [], b, es, refl, (same, tt), next, ground (arith, jumps))
    ]

find_gap-Gap :
    (es : List Event) (n : ℕ)
    → All (λ e. n ≤ e.seq) es
    → All (λ e. e.seq + 1 < 2 ^ 64) es
    → let r = find_gap n es in Gap n es r.0 r.1
unfolding find_gap
find_gap-Gap [] n above small = tt
find_gap-Gap (e ∷ es) n above small = elim (Bool-cases (ltb n e.seq)) [
  | inl late ↦
      let found : find_gap n (e ∷ es) ≡ (true, n) = rw late (scan_gaps-true (e ∷ es) n) in
      subst (λ r. Gap n (e ∷ es) r.0 r.1) (sym found)
        ([], e, es, refl, tt, omega arith, ground (arith, late))
  | inr there ↦
      let searched : find_gap n (e ∷ es) ≡ scan_gaps (e ∷ es) false 0 = rw there refl in
      subst (λ r. Gap n (e ∷ es) r.0 r.1) (sym searched)
        (scan_gaps-Gap es e n small (ground (arith, there, above.0)))
]

All-newer :
    (n : ℕ) (P : Event → Type 0) (es : List Event)
    → All P es
    → All (λ e. (n < e.seq) × P e) (filter (λ e. ltb n e.seq) es)
All-newer n P [] a = tt
All-newer n P (e ∷ es) a = ground (arith, All-newer n P es a.1)

pub next_seq-Consecutive :
    (es : List Event) (n : ℕ)
    → All (λ e. e.seq + 1 < 2 ^ 64) es
    → Consecutive n es
    → next_seq n es ≡ n + length es
unfolding next_seq
next_seq-Consecutive [] n small c = omega arith
next_seq-Consecutive (e ∷ es) n small c =
    ap (λ k. next_seq k es) (omega (arith, small.0, c.0))
    ∙ next_seq-Consecutive es (n + 1) small.1 c.1
    ∙ omega arith

-- The plan replays the events of the log that are newer than the snapshot. When it asks for no sync,
-- these have the numbers from the snapshot's on without a gap, and the next number is the one after
-- them; when it asks for a sync, it asks from the number that comes next where the run of such
-- numbers first breaks off. No number is 2 ^ 64 - 1.
pub plan_of-Gap :
    (snapshot : Option EngineSnapshot) (events : List Event)
    → seq_or_zero snapshot + 1 < 2 ^ 64
    → All (λ e. e.seq + 1 < 2 ^ 64) events
    → let plan = plan_of snapshot events in
      (plan.events_to_replay ≡ filter (λ e. ltb (seq_or_zero snapshot) e.seq) events)
      × All (λ e. e.seq + 1 < 2 ^ 64) plan.events_to_replay
      × Gap (seq_or_zero snapshot + 1) plan.events_to_replay plan.need_peer_sync plan.sync_from_seq
      × (plan.expected_next_seq ≡ next_seq (seq_or_zero snapshot + 1) plan.events_to_replay)
unfolding plan_of
plan_of-Gap snapshot events s small =
    let n : ℕ = seq_or_zero snapshot in
    let replay = filter (λ e. ltb n e.seq) events in
    let both = All-newer n (λ e. e.seq + 1 < 2 ^ 64) events small in
    let start : u64 (n + 1) ≡ n + 1 = omega arith in
    let bounded : All (λ e. e.seq + 1 < 2 ^ 64) replay = All-imp (λ e p. p.1) replay both in
    rw start (
      refl,
      bounded,
      find_gap-Gap replay (n + 1) (All-imp (λ e p. omega (arith, p.0)) replay both) bounded,
      refl,
    )
