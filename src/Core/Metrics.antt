-- ===== src/Core/Metrics.antt =====
-- `LatencyHistogram` of crates/atomic-core/src/metrics.rs. The atomic operations of other threads show
-- as the values that a failed `compare_exchange_weak` finds; the target of a percentile, computed in
-- `f64`, is an argument.
pub mod Buckets
use atomic_mesh.Base.{
  ℕ, zero, suc, ◌+◌, ◌-◌, ◌/◌, ◌^◌, Bool, true, false, List, [], ◌∷◌, map, ltb, leb, ◌==◌, nat_eq,
  if◌then◌else◌,
}
use atomic_mesh.Base.Word.{u64}

abbrev pub u64_max : ℕ
u64_max = 2 ^ 64 - 1

abbrev pub thresholds : List ℕ
thresholds =
    100 ∷ 1_000 ∷ 10_000 ∷ 100_000 ∷ 1_000_000 ∷ 10_000_000 ∷ 100_000_000 ∷ 1_000_000_000
    ∷ 10_000_000_000 ∷ []

pub record LatencyHistogram : Type 0 where
  pub buckets : List ℕ
  pub sum_ns : ℕ
  pub count : ℕ
  pub min_ns : ℕ
  pub max_ns : ℕ

unfoldable pub new_histogram : LatencyHistogram
new_histogram = record {
  buckets = 0 ∷ 0 ∷ 0 ∷ 0 ∷ 0 ∷ 0 ∷ 0 ∷ 0 ∷ 0 ∷ 0 ∷ [];
  sum_ns = 0;
  count = 0;
  min_ns = u64_max;
  max_ns = 0;
}

-- `position`, where the last bucket is the one behind all thresholds.
unfoldable pub bucket_of : ℕ → List ℕ → ℕ
bucket_of ns [] = 0
bucket_of ns (t ∷ ts) = let rest = bucket_of ns ts in if ltb ns t then 0 else suc rest

unfoldable pub bump : ℕ → List ℕ → List ℕ
bump i [] = []
bump zero (n ∷ ns) = u64 (n + 1) ∷ ns
bump (suc i) (n ∷ ns) = n ∷ bump i ns

-- The two loops, with the values that their failed exchanges find.
unfoldable pub lower_to : ℕ → List ℕ → ℕ → ℕ
lower_to ns [] current = if ltb ns current then ns else current
lower_to ns (c ∷ seen) current =
    let rest = lower_to ns seen c in if ltb ns current then rest else current

unfoldable pub raise_to : ℕ → List ℕ → ℕ → ℕ
raise_to ns [] current = if ltb current ns then ns else current
raise_to ns (c ∷ seen) current =
    let rest = raise_to ns seen c in if ltb current ns then rest else current

unfoldable pub record_sample : LatencyHistogram → ℕ → List ℕ → List ℕ → LatencyHistogram
unfolding bucket_of bump lower_to raise_to
record_sample h ns seen_min seen_max = record {
  buckets = bump (bucket_of ns thresholds) h.buckets;
  sum_ns = u64 (h.sum_ns + ns);
  count = u64 (h.count + 1);
  min_ns = lower_to ns seen_min h.min_ns;
  max_ns = raise_to ns seen_max h.max_ns;
}

unfoldable pub avg_ns : LatencyHistogram → ℕ
avg_ns h = if h.count == 0 then 0 else h.sum_ns / h.count

unfoldable pub least_ns : LatencyHistogram → ℕ
least_ns h = if h.min_ns == u64_max then 0 else h.min_ns

-- The loop of `percentile`, over the buckets with their upper bounds.
unfoldable pub percentile_from : ℕ → ℕ → List ℕ → List ℕ → ℕ
percentile_from target cumulative (n ∷ ns) (t ∷ ts) =
    let sum = u64 (cumulative + n) in
    let rest = percentile_from target sum ns ts in if leb target sum then t else rest
percentile_from target cumulative _ _ = u64_max

module _ (target : ℕ → ℕ) where
  unfoldable pub percentile : LatencyHistogram → ℕ
  unfolding percentile_from
  percentile h = if h.count == 0 then 0 else percentile_from (target h.count) 0 h.buckets thresholds

abbrev cleared : ℕ → ℕ
cleared n = 0

unfoldable pub reset_histogram : LatencyHistogram → LatencyHistogram
reset_histogram h = record {
  buckets = map cleared h.buckets;
  sum_ns = 0;
  count = 0;
  min_ns = u64_max;
  max_ns = 0;
}
