-- ===== src/Risk/Rate.antt =====
-- The rate limit: how many orders pass within a second.
use atomic_mesh.Base.{
  ◌&&◌, ltb, ◌+◌, ℕ, ◌^◌, ◌≤◌, ◌<◌, ◌≡◌, refl, sym, ◌∙◌, ap, ◌⊎◌, inl, inr, Bool, true, Option,
  none, some, List, [], ◌∷◌, ◌++◌, All, All-append, All-imp, filter, length, length-append,
  length-filter-le, arith, Bool-cases, leb, ltb_ℤ, Option-cases,
}
use atomic_mesh.Core.Types.{Side, Qty, Price, Position}
use atomic_mesh.Risk.{
  RiskLimits, RiskEngine, RiskError, rate_limit, max_loss_exceeded, new_risk, is_recent, check_rate,
  check_limits, check_order, activate_kill_switch,
}

-- An order to be checked.
pub record Request : Type 0 where
  pub side : Side
  pub qty : Qty
  pub price : Price
  pub position : Option Position
  pub ts : ℕ

-- The requests come in the order of their times, the first not before a given time.
abbrev pub InOrder : ℕ → List Request → Type 0
InOrder t [] = Unit
InOrder t (q ∷ qs) = (t ≤ q.ts) × (q.ts < 2 ^ 64) × InOrder q.ts qs

-- The time of the last request, or a given one.
abbrev pub last_time : ℕ → List Request → ℕ
last_time t [] = t
last_time t (q ∷ qs) = last_time q.ts qs

-- The times of the orders that pass, behind those of a log.
unfoldable pub accepted_from : RiskEngine → List ℕ → List Request → List ℕ
accepted_from r log [] = log
accepted_from r log (q ∷ qs) =
    let (r', result) = check_order r q.side q.qty q.price q.position q.ts in
    accepted_from r' (elim result [ none ↦ log ++ q.ts ∷ [] | some e ↦ log ]) qs

unfoldable pub accepted : RiskLimits → List Request → List ℕ
unfolding accepted_from
accepted limits qs = accepted_from (new_risk limits) [] qs

-- The engine remembers all orders that still count, at any time from `t` on.
record Remembers (limits : RiskLimits) (r : RiskEngine) (log : List ℕ) (t : ℕ) : Type 0 where
  same_limits : r.limits ≡ limits
  agrees :
      (u : ℕ)
      → t ≤ u
      → u < 2 ^ 64
      → filter (is_recent u) r.order_timestamps ≡ filter (is_recent u) log
  few : length (filter (is_recent t) log) ≤ limits.max_orders_per_second
  past : All (λ s. s ≤ t) log
  past' : All (λ s. s ≤ t) r.order_timestamps

is_recent_mono :
    (s t u : ℕ) → s ≤ t → t ≤ u → u < 2 ^ 64 → is_recent u s ≡ true → is_recent t s ≡ true
unfolding is_recent
is_recent_mono s t u a b c h = ground arith

filter-append {ℓ} :
    {A : Type ℓ} (p : A → Bool) (xs ys : List A) → filter p (xs ++ ys) ≡ filter p xs ++ filter p ys
filter-append p [] ys = refl
filter-append p (x ∷ xs) ys = ground (arith, filter-append p xs ys)

-- What is recent later is recent now.
filter_later :
    (t u : ℕ) (xs : List ℕ)
    → t ≤ u
    → u < 2 ^ 64
    → All (λ s. s ≤ t) xs
    → filter (is_recent u) (filter (is_recent t) xs) ≡ filter (is_recent u) xs
filter_later t u [] h b a = refl
filter_later t u (x ∷ xs) h b a =
    ground (arith, filter_later t u xs h b a.1, is_recent_mono x t u a.0 h b)

length_later :
    (t u : ℕ) (xs : List ℕ)
    → t ≤ u
    → u < 2 ^ 64
    → All (λ s. s ≤ t) xs
    → length (filter (is_recent u) xs) ≤ length (filter (is_recent t) xs)
length_later t u [] h b a = omega arith
length_later t u (x ∷ xs) h b a =
    ground (arith, length_later t u xs h b a.1, is_recent_mono x t u a.0 h b)

All-filter {κ} : (P : ℕ → Type κ) (p : ℕ → Bool) (xs : List ℕ) → All P xs → All P (filter p xs)
All-filter P p [] a = tt
All-filter P p (x ∷ xs) a = ground (arith, All-filter P p xs a.1)

-- What a check does to the remembered times.
abbrev Outcome : RiskEngine → ℕ → RiskEngine × Option RiskError → Type 0
Outcome r ts (r', result) =
    (r'.limits ≡ r.limits)
    × (((e : RiskError) × (result ≡ some e) × (r'.order_timestamps ≡ r.order_timestamps))
        ⊎ (((e : RiskError) × (result ≡ some e)
              × (r'.order_timestamps ≡ filter (is_recent ts) r.order_timestamps))
            ⊎ ((result ≡ none)
                × (r'.order_timestamps ≡ filter (is_recent ts) r.order_timestamps ++ ts ∷ [])
                × (length (filter (is_recent ts) r.order_timestamps)
                    < r.limits.max_orders_per_second))))

check_rate-Outcome : (r : RiskEngine) (ts : ℕ) → Outcome r ts (check_rate r ts)
unfolding check_rate activate_kill_switch
check_rate-Outcome r ts =
    elim (Bool-cases
      (leb r.limits.max_orders_per_second (length (filter (is_recent ts) r.order_timestamps)))) [
        | inl full ↦ rw full (refl, inr (inl (rate_limit, refl, refl)))
        | inr room ↦ rw room (elim (Bool-cases (ltb_ℤ r.total_pnl r.limits.max_loss)) [
          | inl lost ↦ rw lost (refl, inr (inl (max_loss_exceeded, refl, refl)))
          | inr fine ↦ rw fine (refl, inr (inr (refl, refl, ground arith)))
        ])
      ]

check_order-Outcome :
    (r : RiskEngine) (q : Request)
    → Outcome r q.ts (check_order r q.side q.qty q.price q.position q.ts)
unfolding check_order
check_order-Outcome r q = elim (Option-cases (check_limits r q.side q.qty q.price q.position)) [
  | inl n ↦ rw (n, check_order) (check_rate-Outcome r q.ts)
  | inr (e, s) ↦ rw (s, check_order) (refl, inl (e, refl, refl))
]

module _ (limits : RiskLimits) (r : RiskEngine) (log : List ℕ) (t : ℕ) (q : Request)
    (known : Remembers limits r log t) (later : t ≤ q.ts) (bound : q.ts < 2 ^ 64) where
  later-past : (xs : List ℕ) → All (λ s. s ≤ t) xs → All (λ s. s ≤ q.ts) xs
  later-past xs = All-imp (λ s h. omega arith) xs

  fewer : length (filter (is_recent q.ts) log) ≤ limits.max_orders_per_second
  fewer = omega (arith, known.few, length_later t q.ts log later bound known.past)

  kept_agrees :
      (u : ℕ)
      → q.ts ≤ u
      → u < 2 ^ 64
      → filter (is_recent u) (filter (is_recent q.ts) r.order_timestamps) ≡ filter (is_recent u) log
  kept_agrees u h b =
      filter_later q.ts u r.order_timestamps h b (later-past r.order_timestamps known.past')
      ∙ known.agrees u (omega arith) b

  Remembers-refused :
      (r' : RiskEngine)
      → r'.limits ≡ r.limits
      → (r'.order_timestamps ≡ r.order_timestamps)
        ⊎ (r'.order_timestamps ≡ filter (is_recent q.ts) r.order_timestamps)
      → Remembers limits r' log q.ts
  Remembers-refused r' l (inl e) = record {
    same_limits = l ∙ known.same_limits;
    agrees = λ u h b. ap (filter (is_recent u)) e ∙ known.agrees u (omega arith) b;
    few = fewer;
    past = later-past log known.past;
    past' = rw e (later-past r.order_timestamps known.past');
  }
  Remembers-refused r' l (inr e) = record {
    same_limits = l ∙ known.same_limits;
    agrees = λ u h b. ap (filter (is_recent u)) e ∙ kept_agrees u h b;
    few = fewer;
    past = later-past log known.past;
    past' = rw e (
        All-filter (λ s. s ≤ q.ts) (is_recent q.ts) r.order_timestamps
          (later-past r.order_timestamps known.past'));
  }

  Remembers-passed :
      (r' : RiskEngine)
      → r'.limits ≡ r.limits
      → r'.order_timestamps ≡ filter (is_recent q.ts) r.order_timestamps ++ q.ts ∷ []
      → length (filter (is_recent q.ts) r.order_timestamps) < r.limits.max_orders_per_second
      → Remembers limits r' (log ++ q.ts ∷ []) q.ts
  Remembers-passed r' l e room = record {
    same_limits = l ∙ known.same_limits;
    agrees = λ u h b.
        ap (filter (is_recent u)) e
        ∙ filter-append (is_recent u) (filter (is_recent q.ts) r.order_timestamps) (q.ts ∷ [])
        ∙ ap (λ xs. xs ++ filter (is_recent u) (q.ts ∷ [])) (kept_agrees u h b)
        ∙ sym (filter-append (is_recent u) log (q.ts ∷ []));
    few = omega (
      arith,
      ap length (filter-append (is_recent q.ts) log (q.ts ∷ [])),
      length-append (filter (is_recent q.ts) log) (filter (is_recent q.ts) (q.ts ∷ [])),
      length-filter-le (is_recent q.ts) (q.ts ∷ []),
      ap length (known.agrees q.ts later bound),
      ap (λ (x : RiskLimits). x.max_orders_per_second) known.same_limits,
    );
    past = All-append (λ s. s ≤ q.ts) log (q.ts ∷ []) (later-past log known.past) (omega arith);
    past' = rw e (
        All-append (λ s. s ≤ q.ts) _ (q.ts ∷ [])
          (All-filter (λ s. s ≤ q.ts) (is_recent q.ts) r.order_timestamps
            (later-past r.order_timestamps known.past'))
          (omega arith));
  }

  Remembers-step :
      (out : RiskEngine × Option RiskError)
      → Outcome r q.ts out
      → Remembers limits out.0 (elim out.1 [ none ↦ log ++ q.ts ∷ [] | some e ↦ log ]) q.ts
  Remembers-step (r', result) (l, inl (e, s, k)) = rw s (Remembers-refused r' l (inl k))
  Remembers-step (r', result) (l, inr (inl (e, s, k))) = rw s (Remembers-refused r' l (inr k))
  Remembers-step (r', result) (l, inr (inr (n, k, room))) = rw n (Remembers-passed r' l k room)

accepted_from-few :
    (limits : RiskLimits) (qs : List Request) (r : RiskEngine) (log : List ℕ) (t : ℕ)
    → Remembers limits r log t
    → InOrder t qs
    → (u : ℕ) → last_time t qs ≤ u
    → u < 2 ^ 64
    → length (filter (is_recent u) (accepted_from r log qs)) ≤ limits.max_orders_per_second
unfolding accepted_from
accepted_from-few limits [] r log t k o u h b =
    omega (arith, k.few, length_later t u log h b k.past)
accepted_from-few limits (q ∷ qs) r log t k o u h b =
    let out : RiskEngine × Option RiskError = check_order r q.side q.qty q.price q.position q.ts in
    accepted_from-few limits qs out.0 _ q.ts
      (Remembers-step limits r log t q k o.0 o.1 out (check_order-Outcome r q)) o.2 u h b

length-filter_imp {ℓ} :
    {A : Type ℓ} (p q : A → Bool) (xs : List A)
    → ((x : A) → p x ≡ true → q x ≡ true)
    → length (filter p xs) ≤ length (filter q xs)
length-filter_imp p q [] h = omega arith
length-filter_imp p q (x ∷ xs) h = elim (Bool-cases (p x)) [
  | inl t ↦ rw (t, h x t) (omega (arith, length-filter_imp p q xs h))
  | inr f ↦ rw f (ground (arith, length-filter_imp p q xs h))
]

-- A time in the second before `u`.
abbrev pub in_last_second : ℕ → ℕ → Bool
in_last_second u t = leb t u && ltb u (t + 1_000_000_000)

in_last_second-is_recent : (u t : ℕ) → u < 2 ^ 64 → in_last_second u t ≡ true → is_recent u t ≡ true
unfolding is_recent
in_last_second-is_recent u t b h = ground arith

-- Whatever requests come in the order of their times, at any time from the last of them on at most
-- `max_orders_per_second` of the orders that have passed are less than a second old.
pub accepted_few :
    (limits : RiskLimits) (qs : List Request) (u : ℕ)
    → InOrder 0 qs
    → last_time 0 qs ≤ u
    → u < 2 ^ 64
    → length (filter (in_last_second u) (accepted limits qs)) ≤ limits.max_orders_per_second
unfolding accepted new_risk
accepted_few limits qs u o h b =
    let few =
      accepted_from-few limits qs (new_risk limits) [] 0
        (record {
          same_limits = refl;
          agrees = λ v h' b'. refl;
          few = omega arith;
          past = tt;
          past' = tt;
        })
        o u h b in
    omega (
      arith,
      few,
      length-filter_imp (in_last_second u) (is_recent u) (accepted limits qs)
          (λ t. in_last_second-is_recent u t b),
    )
