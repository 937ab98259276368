-- ===== src/Core/Metrics/Buckets.antt =====
-- What a histogram knows of the samples that one thread recorded.
use atomic_mesh.Base.{
  ℕ, zero, suc, ◌+◌, ◌^◌, ◌≤◌, ◌<◌, ◌≡◌, refl, ◌∙◌, ap, List, [], ◌∷◌, All, All-imp, length, arith,
}
use atomic_mesh.Base.Word.{sum}
use atomic_mesh.Core.Metrics.{
  LatencyHistogram, new_histogram, record_sample, bucket_of, bump, lower_to, raise_to, thresholds,
}

-- The histogram after some samples, the last of them first.
abbrev pub recorded : List ℕ → LatencyHistogram
recorded [] = new_histogram
recorded (ns ∷ earlier) = record_sample (recorded earlier) ns [] []

-- The numbers of the buckets agree with the count, the sum with the samples, and the least and the
-- greatest sample bound each of them.
pub record Summary (h : LatencyHistogram) (xs : List ℕ) : Type 0 where
  pub counted : sum h.buckets ≡ length xs
  pub count_is : h.count ≡ length xs
  pub sum_is : h.sum_ns ≡ sum xs
  pub least : All (λ x. h.min_ns ≤ x) xs
  pub greatest : All (λ x. x ≤ h.max_ns) xs

sum-bump :
    (i : ℕ) (ns : List ℕ) → i < length ns → sum ns + 1 < 2 ^ 64 → sum (bump i ns) ≡ sum ns + 1
unfolding bump
sum-bump i [] h b = absurd (omega arith)
sum-bump zero (n ∷ ns) h b = omega arith
sum-bump (suc i) (n ∷ ns) h b = omega (arith, sum-bump i ns (omega arith) (omega arith))

length-bump : (i : ℕ) (ns : List ℕ) → length (bump i ns) ≡ length ns
unfolding bump
length-bump i [] = refl
length-bump zero (n ∷ ns) = refl
length-bump (suc i) (n ∷ ns) = ap suc (length-bump i ns)

bucket_of-le : (ns : ℕ) (ts : List ℕ) → bucket_of ns ts ≤ length ts
unfolding bucket_of
bucket_of-le ns [] = omega arith
bucket_of-le ns (t ∷ ts) = ground (arith, bucket_of-le ns ts)

ten_buckets : (xs : List ℕ) → length (recorded xs).buckets ≡ 10
unfolding new_histogram record_sample
ten_buckets [] = refl
ten_buckets (x ∷ xs) = length-bump (bucket_of x thresholds) (recorded xs).buckets ∙ ten_buckets xs

record_sample-Summary :
    (h : LatencyHistogram) (ns : ℕ) (xs : List ℕ)
    → length h.buckets ≡ 10
    → length xs + 1 < 2 ^ 64
    → sum xs + ns < 2 ^ 64
    → Summary h xs
    → Summary (record_sample h ns [] []) (ns ∷ xs)
unfolding record_sample lower_to raise_to
record_sample-Summary h ns xs ten few small s =
    let bucket = bucket_of ns thresholds in
    let inside : bucket < length h.buckets = omega (arith, ten, bucket_of-le ns thresholds) in
    record {
      counted =
          sum-bump bucket h.buckets inside (omega (arith, s.counted)) ∙ omega (arith, s.counted);
      count_is = omega (arith, s.count_is);
      sum_is = omega (arith, s.sum_is);
      least = (ground arith, All-imp (λ x a. ground arith) xs s.least);
      greatest = (ground arith, All-imp (λ x a. ground arith) xs s.greatest);
    }

-- After some samples that one thread records, the buckets hold as many as were recorded, the count is
-- their number and the sum is theirs, and the least and the greatest latency bound all of them; their
-- number and their sum are below 2 ^ 64.
pub recorded-Summary :
    (xs : List ℕ) → length xs < 2 ^ 64 → sum xs < 2 ^ 64 → Summary (recorded xs) xs
recorded-Summary [] few small =
    unfold new_histogram in
    record { counted = refl; count_is = refl; sum_is = refl; least = tt; greatest = tt }
recorded-Summary (x ∷ xs) few small =
    record_sample-Summary (recorded xs) x xs (ten_buckets xs) (omega arith) (omega arith)
      (recorded-Summary xs (omega arith) (omega arith))
