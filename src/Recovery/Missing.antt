-- ===== src/Recovery/Missing.antt =====
-- What a recovery plan asks its peers for, where the numbers of the log rise.
use atomic_mesh.Base.{
  ℕ, ◌+◌, ◌^◌, ◌≤◌, ◌<◌, ◌≡◌, ◌≢◌, sym, ◌∙◌, ◌⊎◌, inl, inr, Bool, true, false, Option, List, [],
  ◌∷◌, ◌++◌, length, filter, ltb, arith, subst, All, All-imp, All-append, Bool-cases,
}
use atomic_mesh.Core.Event.{Event}
use atomic_mesh.Core.Snapshot.{EngineSnapshot}
use atomic_mesh.Recovery.Plan.{seq_or_zero, next_seq, plan_of}
use atomic_mesh.Recovery.Gaps.{Consecutive, Gap, plan_of-Gap, next_seq-Consecutive}

-- The numbers of the events rise strictly, from above `n` on.
abbrev pub Rising : ℕ → List Event → Type 0
Rising n [] = Unit
Rising n (e ∷ es) = (n < e.seq) × Rising e.seq es

-- The numbers of the events rise strictly.
abbrev pub IsRising : List Event → Type 0
IsRising [] = Unit
IsRising (e ∷ es) = Rising e.seq es

newer-Rising :
    (n m k : ℕ) (es : List Event)
    → (k ≤ n) ⊎ (k ≤ m)
    → Rising m es
    → Rising k (filter (λ e. ltb n e.seq) es)
newer-Rising n m k [] h r = tt
newer-Rising n m k (e ∷ es) h r = elim (Bool-cases (ltb n e.seq)) [
  | inl newer ↦
      rw newer (ground (arith, newer), newer-Rising n e.seq e.seq es (inr (omega arith)) r.1)
  | inr older ↦ rw older (newer-Rising n e.seq k es (ground (arith, older)) r.1)
]

newer-IsRising : (n : ℕ) (es : List Event) → IsRising es → Rising n (filter (λ e. ltb n e.seq) es)
newer-IsRising n [] r = tt
newer-IsRising n (e ∷ es) r = elim (Bool-cases (ltb n e.seq)) [
  | inl newer ↦
      rw newer (ground (arith, newer), newer-Rising n e.seq e.seq es (inr (omega arith)) r)
  | inr older ↦ rw older (newer-Rising n e.seq n es (inl (omega arith)) r)
]

Rising-above : (k m : ℕ) (es : List Event) → k ≤ m → Rising m es → All (λ e. k < e.seq) es
Rising-above k m [] h r = tt
Rising-above k m (e ∷ es) h r =
    (omega (arith, r.0), Rising-above k e.seq es (omega (arith, r.0)) r.1)

-- What follows a run of consecutive numbers.
after_run :
    (m : ℕ) (pre : List Event) (e : Event) (post : List Event)
    → Consecutive (m + 1) pre
    → Rising m (pre ++ e ∷ post)
    → (m + length pre < e.seq) × Rising e.seq post
after_run m [] e post c r = (omega (arith, r.0), r.1)
after_run m (a ∷ pre) e post c r =
    let (late, rest) =
      after_run (m + 1) pre e post c.1 (subst (λ k. Rising k (pre ++ e ∷ post)) c.0 r.1) in
    (omega (arith, late), rest)

Consecutive-below :
    (n bound : ℕ) (es : List Event)
    → n + length es ≤ bound
    → Consecutive n es
    → All (λ e. e.seq < bound) es
Consecutive-below n bound [] h c = tt
Consecutive-below n bound (e ∷ es) h c =
    (omega (arith, c.0), Consecutive-below (n + 1) bound es (omega arith) c.1)

-- What holds of the newer events holds of all, where it holds of the older ones.
All-older :
    (n from : ℕ) (es : List Event)
    → n < from
    → All (λ e. e.seq ≢ from) (filter (λ e. ltb n e.seq) es)
    → All (λ e. e.seq ≢ from) es
All-older n from [] h a = tt
All-older n from (e ∷ es) h a = elim (Bool-cases (ltb n e.seq)) [
  | inl newer ↦ let both = rw newer at a in (both.0, All-older n from es h both.1)
  | inr older ↦ (λ same. ground (arith, older), All-older n from es h (rw older at a))
]

-- What a plan may say of a log, where the numbers from `n` on are not in the snapshot. Without a
-- sync, the events to replay have the numbers from `n` on. With one, they have the numbers from `n`
-- up to `from`, then only greater ones than `from`, and no event of the log has `from` itself.
abbrev pub Verdict : ℕ → List Event → List Event → Bool → ℕ → ℕ → Type 0
Verdict n log replay false from next = Consecutive n replay × (next ≡ n + length replay)
Verdict n log replay true from next =
    (pre : List Event) × (e : Event) × (post : List Event) × (replay ≡ pre ++ e ∷ post)
    × Consecutive n pre
    × (from ≡ n + length pre)
    × All (λ x. from < x.seq) (e ∷ post)
    × All (λ x. x.seq ≢ from) log

Gap-Verdict :
    (n : ℕ) (log : List Event) (need : Bool) (from next : ℕ)
    → let replay = filter (λ e. ltb n e.seq) log in
      IsRising log
      → All (λ e. e.seq + 1 < 2 ^ 64) replay
      → Gap (n + 1) replay need from
      → next ≡ next_seq (n + 1) replay
      → Verdict (n + 1) log replay need from next
Gap-Verdict n log false from next r small c k = (c, k ∙ next_seq-Consecutive _ (n + 1) small c)
Gap-Verdict n log true from next r small (pre, e, post, split, c, at, other) k =
    let (late, rest) = after_run n pre e post c (subst (Rising n) split (newer-IsRising n log r)) in
    let above : from < e.seq = ground (arith, late, at, other) in
    let beyond : All (λ x. from < x.seq) (e ∷ post) =
      (above, Rising-above from e.seq post (omega (arith, above)) rest) in
    let apart : All (λ x. x.seq ≢ from) (pre ++ e ∷ post) =
      All-append (λ x. x.seq ≢ from) pre (e ∷ post)
        (All-imp (λ x b same. absurd (omega (arith, b, same))) pre
          (Consecutive-below (n + 1) from pre (omega (arith, at)) c))
        (All-imp (λ x b same. absurd (omega (arith, b, same))) (e ∷ post) beyond) in
    (
      pre,
      e,
      post,
      split,
      c,
      at,
      beyond,
      All-older n from log (omega (arith, at)) (subst (All (λ x. x.seq ≢ from)) (sym split) apart),
    )

-- For a log whose numbers rise strictly, the plan replays just the events that are newer than the
-- snapshot, in the order of the log. When it asks for no sync, these have the numbers that come
-- after the snapshot's, without a gap, and the next number is the one after them. When it asks for
-- a sync, it asks from the first number after the snapshot's that no event of the log has: all
-- numbers between are there, and so is a greater one. No number is 2 ^ 64 - 1, and neither is the
-- snapshot's, which counts as 0 where there is no snapshot.
pub plan_of-Verdict :
    (snapshot : Option EngineSnapshot) (log : List Event)
    → seq_or_zero snapshot + 1 < 2 ^ 64
    → All (λ e. e.seq + 1 < 2 ^ 64) log
    → IsRising log
    → let plan = plan_of snapshot log in
      (plan.events_to_replay ≡ filter (λ e. ltb (seq_or_zero snapshot) e.seq) log)
      × Verdict
          (seq_or_zero snapshot + 1)
          log
          plan.events_to_replay
          plan.need_peer_sync
          plan.sync_from_seq
          plan.expected_next_seq
unfolding plan_of
plan_of-Verdict snapshot log s small r =
    let (replayed, bounded, gap, next) = plan_of-Gap snapshot log s small in
    (replayed, Gap-Verdict (seq_or_zero snapshot) log _ _ _ r bounded gap next)
