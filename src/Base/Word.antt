-- ===== src/Base/Word.antt =====
-- Rust's `u64` and `i64` in a release build: a `u64` is a number below 2 ^ 64 and an `i64` an
-- integer in [-2 ^ 63, 2 ^ 63); every operation wraps around, and `as` reinterprets the bits.
use atomic_mesh.Base.{
  ℕ, ◌+◌, ◌-◌, ◌%◌, ◌^◌, ◌≤◌, ◌<◌, ◌≡◌, arith, ltb, lt→ltb, if◌then◌else◌, ℤ, pos, negsuc, pos_part,
  neg_part, ◌+ℤ◌, ◌-ℤ◌, ◌*ℤ◌, leb_ℤ, quot_ℤ, sub_ℕ, List, [], ◌∷◌, ◌∙◌, min, ◌/◌, ◌*◌,
}
use native.Mathlib.Nat.{add-zero}

abbrev pub u64 : ℕ → ℕ
u64 n = n % 2 ^ 64

-- `a - b` of two `u64`.
abbrev pub sub_u64 : ℕ → ℕ → ℕ
sub_u64 a b = (a + 2 ^ 64 - b) % 2 ^ 64

unfoldable pub i64 : ℤ → ℤ
i64 (pos n) = let r = n % 2 ^ 64 in if ltb r (2 ^ 63) then pos r else negsuc (2 ^ 64 - r - 1)
i64 (negsuc n) = let r = n % 2 ^ 64 in if ltb r (2 ^ 63) then negsuc r else pos (2 ^ 64 - 1 - r)

-- `x as i64` for a `u64`.
abbrev pub u64_as_i64 : ℕ → ℤ
u64_as_i64 n = i64 (pos n)

-- `x as u64` for an `i64`.
unfoldable pub i64_as_u64 : ℤ → ℕ
i64_as_u64 (pos n) = n % 2 ^ 64
i64_as_u64 (negsuc n) = 2 ^ 64 - 1 - n % 2 ^ 64

abbrev pub add_i64 : ℤ → ℤ → ℤ
add_i64 a b = i64 (a +ℤ b)

abbrev pub sub_i64 : ℤ → ℤ → ℤ
sub_i64 a b = i64 (a -ℤ b)

abbrev pub mul_i64 : ℤ → ℤ → ℤ
mul_i64 a b = i64 (a *ℤ b)

abbrev pub div_i64 : ℤ → ℤ → ℤ
div_i64 a b = i64 (quot_ℤ a b)

abbrev pub min_i64 : ℤ → ℤ → ℤ
min_i64 a b = if leb_ℤ a b then a else b

abbrev pub IsU64 : ℕ → Type 0
IsU64 n = n < 2 ^ 64

abbrev pub IsI64 : ℤ → Type 0
IsI64 z = (pos_part z < 2 ^ 63) × (neg_part z ≤ 2 ^ 63)

-- In range nothing wraps.
pub i64_of_IsI64 : (z : ℤ) → IsI64 z → i64 z ≡ z
unfolding i64
i64_of_IsI64 (pos n) h = ground arith
i64_of_IsI64 (negsuc n) h = ground arith

pub i64-IsI64 : (z : ℤ) → IsI64 (i64 z)
unfolding i64
i64-IsI64 (pos n) = ground arith
i64-IsI64 (negsuc n) = ground arith

-- The two casts are inverse to one another.
pub i64_as_u64-u64_as_i64 : (n : ℕ) → IsU64 n → i64_as_u64 (u64_as_i64 n) ≡ n
unfolding i64 i64_as_u64
i64_as_u64-u64_as_i64 n h = ground arith

pub u64_as_i64_small : (n : ℕ) → n < 2 ^ 63 → u64_as_i64 n ≡ pos n
u64_as_i64_small n h = i64_of_IsI64 (pos n) (omega arith)

-- Arithmetic of small numbers that are not negative.
pub min_i64_pos : (r q : ℕ) → min_i64 (pos r) (pos q) ≡ pos (min r q)
min_i64_pos r q = ground arith

pub sub_i64_pos : (r k : ℕ) → k ≤ r → r < 2 ^ 63 → sub_i64 (pos r) (pos k) ≡ pos (r - k)
unfolding i64 ◌-ℤ◌
sub_i64_pos r k h b = ground arith

pub add_i64_pos : (a b : ℕ) → a + b < 2 ^ 63 → add_i64 (pos a) (pos b) ≡ pos (a + b)
unfolding i64 ◌+ℤ◌
add_i64_pos a b h = ground arith

pub mul_i64_pos : (a b : ℕ) → a * b < 2 ^ 63 → mul_i64 (pos a) (pos b) ≡ pos (a * b)
unfolding i64 ◌*ℤ◌
mul_i64_pos a b h = ground arith

pub sub_i64_small : (r k : ℕ) → r < 2 ^ 63 → k < 2 ^ 63 → sub_i64 (pos r) (pos k) ≡ sub_ℕ r k
unfolding i64 ◌-ℤ◌
sub_i64_small r k h b = ground arith

pub u64-i64_as_u64 : (f k : ℕ) → f + k < 2 ^ 64 → u64 (f + i64_as_u64 (pos k)) ≡ f + k
unfolding i64_as_u64
u64-i64_as_u64 f k h = ground arith

quot_pos : (a b : ℕ) → quot_ℤ (pos a) (pos b) ≡ pos (a / b)
unfolding quot_ℤ
quot_pos a b = rw (lt→ltb (a * 0 + 0 * b) (a * b + 0 + 1) (omega arith)) (simp add-zero)

pub div_i64_pos : (a b : ℕ) → a < 2 ^ 63 → 0 < b → div_i64 (pos a) (pos b) ≡ pos (a / b)
div_i64_pos a b h k = rw (quot_pos a b) (i64_of_IsI64 (pos (a / b)) (omega arith))

-- `iter().sum::<u64>()`, which adds from the left.
unfoldable pub sum_u64_from : ℕ → List ℕ → ℕ
sum_u64_from acc [] = acc
sum_u64_from acc (x ∷ xs) = sum_u64_from (u64 (acc + x)) xs

unfoldable pub sum_u64 : List ℕ → ℕ
unfolding sum_u64_from
sum_u64 xs = sum_u64_from 0 xs

-- The sum without bound.
abbrev pub sum : List ℕ → ℕ
sum [] = 0
sum (x ∷ xs) = x + sum xs

pub sum_u64_from-sum :
    (acc : ℕ) (xs : List ℕ) → acc + sum xs < 2 ^ 64 → sum_u64_from acc xs ≡ acc + sum xs
unfolding sum_u64_from
sum_u64_from-sum acc [] h = omega arith
sum_u64_from-sum acc (x ∷ xs) h = omega (arith, sum_u64_from-sum (u64 (acc + x)) xs (omega arith))

pub sum_u64-sum : (xs : List ℕ) → sum xs < 2 ^ 64 → sum_u64 xs ≡ sum xs
unfolding sum_u64
sum_u64-sum xs h = sum_u64_from-sum 0 xs (omega arith) ∙ omega arith

pub sum_u64-lt : (xs : List ℕ) → sum_u64 xs < 2 ^ 64
unfolding sum_u64
sum_u64-lt xs = bounded 0 xs (omega arith)
  where
    bounded : (acc : ℕ) (ys : List ℕ) → acc < 2 ^ 64 → sum_u64_from acc ys < 2 ^ 64
    bounded acc [] h = h
    bounded acc (y ∷ ys) h = bounded (u64 (acc + y)) ys (omega arith)

-- `i128` in the same way.
unfoldable pub i128 : ℤ → ℤ
i128 (pos n) = let r = n % 2 ^ 128 in if ltb r (2 ^ 127) then pos r else negsuc (2 ^ 128 - r - 1)
i128 (negsuc n) = let r = n % 2 ^ 128 in if ltb r (2 ^ 127) then negsuc r else pos (2 ^ 128 - 1 - r)

abbrev pub add_i128 : ℤ → ℤ → ℤ
add_i128 a b = i128 (a +ℤ b)

abbrev pub mul_i128 : ℤ → ℤ → ℤ
mul_i128 a b = i128 (a *ℤ b)

pub i128_pos : (n : ℕ) → n < 2 ^ 127 → i128 (pos n) ≡ pos n
unfolding i128
i128_pos n h = ground arith

pub add_i128_pos : (a b : ℕ) → a + b < 2 ^ 127 → add_i128 (pos a) (pos b) ≡ pos (a + b)
unfolding ◌+ℤ◌
add_i128_pos a b h = ground (arith, i128_pos (a + b))

pub mul_i128_pos : (a b : ℕ) → a * b < 2 ^ 127 → mul_i128 (pos a) (pos b) ≡ pos (a * b)
unfolding ◌*ℤ◌
mul_i128_pos a b h = ground (arith, i128_pos (a * b))

-- A quotient of `i128`s that fits into an `i64`.
pub quot_i128_pos :
    (a b : ℕ) → a < 2 ^ 127 → a / b < 2 ^ 63 → i64 (i128 (quot_ℤ (pos a) (pos b))) ≡ pos (a / b)
quot_i128_pos a b h k =
    rw (quot_pos a b, i128_pos (a / b) (omega arith)) (i64_of_IsI64 (pos (a / b)) (omega arith))

-- `unsigned_abs`, and `abs`, which is the least `i64` at the least `i64`.
abbrev pub unsigned_abs : ℤ → ℕ
unsigned_abs z = pos_part z + neg_part z

abbrev pub abs_i64 : ℤ → ℤ
abs_i64 z = i64 (pos (unsigned_abs z))

-- `max` of an integer and 0.
abbrev pub max_zero : ℤ → ℤ
max_zero z = pos (pos_part z)
