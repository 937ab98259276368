-- ===== src/Bus/Ring/Capacity.antt =====
-- The capacity of a new ring.
use native.Mathlib.Nat.{pow-suc, mul_assoc}
use atomic_mesh.Base.{
  ℕ, zero, suc, ◌*◌, ◌^◌, ◌≤◌, ◌<◌, ◌≡◌, sym, ◌∙◌, ap, inl, inr, arith, leb, Bool-cases,
}
use atomic_mesh.Bus.Ring.{power_from, next_power_of_two}

pow_suc : (p k : ℕ) → p * 2 ^ suc k ≡ 2 * p * 2 ^ k
pow_suc p k =
    omega (arith, ap (λ a. p * a) (pow-suc 2 k), mul_assoc p (2 ^ k) 2, mul_assoc 2 p (2 ^ k))

power_from-bounds :
    (fuel p n : ℕ)
    → n ≤ p * 2 ^ fuel
    → p < 2 * n
    → (n ≤ power_from fuel p n) × (power_from fuel p n < 2 * n)
unfolding power_from
power_from-bounds zero p n h b = (omega (arith, h), b)
power_from-bounds (suc fuel) p n h b =
    ground (arith, power_from-bounds fuel (2 * p) n, pow_suc p fuel)

power_from-power : (fuel p n : ℕ) → (k : ℕ) × (power_from fuel p n ≡ p * 2 ^ k)
unfolding power_from
power_from-power zero p n = (0, omega arith)
power_from-power (suc fuel) p n = elim (Bool-cases (leb n p)) [
  | inl enough ↦ (0, rw enough (omega arith))
  | inr more ↦
      let (k, power) = power_from-power fuel (2 * p) n in
      (suc k, rw more (power ∙ sym (pow_suc p k)))
]

power_from-positive : (fuel p n : ℕ) → 0 < p → 0 < power_from fuel p n
unfolding power_from
power_from-positive zero p n h = h
power_from-positive (suc fuel) p n h = ground (arith, power_from-positive fuel (2 * p) n)

pub next_power_of_two-positive : (n : ℕ) → 0 < next_power_of_two n
unfolding next_power_of_two
next_power_of_two-positive n = power_from-positive 64 1 n (omega arith)

-- For a positive capacity up to 2 ^ 63 the ring gets a power of two that is at least the capacity
-- and less than twice that.
pub next_power_of_two_lem :
    (n : ℕ)
    → 0 < n
    → n ≤ 2 ^ 63
    → (n ≤ next_power_of_two n)
      × (next_power_of_two n < 2 * n)
      × ((k : ℕ) × (next_power_of_two n ≡ 2 ^ k))
unfolding next_power_of_two
next_power_of_two_lem n h b =
    let (low, high) = power_from-bounds 64 1 n (omega arith) (omega arith) in
    let (k, power) = power_from-power 64 1 n in (low, high, (k, power ∙ omega arith))
