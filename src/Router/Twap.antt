-- ===== src/Router/Twap.antt =====
-- The slices of `route_twap`.
use native.Mathlib.Nat.{div-add-mod, mul-le-mul}
use atomic_mesh.Base.{
  ℕ, zero, suc, ◌+◌, ◌*◌, ◌/◌, ◌%◌, none, some, List, [], ◌∷◌, ◌++◌, ◌≡◌, refl, ◌∙◌, ap, arith,
  Bool-cases, Option-cases, All, false, length, ◌<◌, ◌≤◌, inl, inr, ◌==◌, nat_eq, ◌⊎◌,
}
use atomic_mesh.Core.Types.{Qty, Side, Symbol, pair}
use atomic_mesh.Router.{
  SmartOrderRouter, OrderSlice, slice, repeated, route_best_venue, route_twap, best_price,
}

-- What the slices ask for in all.
abbrev pub slices_total : List OrderSlice → ℕ
slices_total [] = 0
slices_total (s ∷ ss) = s.qty + slices_total ss

slices_total-append :
    (xs ys : List OrderSlice) → slices_total (xs ++ ys) ≡ slices_total xs + slices_total ys
slices_total-append [] ys = omega arith
slices_total-append (x ∷ xs) ys = omega (arith, slices_total-append xs ys)

slices_total-repeated :
    (n : ℕ) (xs : List OrderSlice) → slices_total (repeated n xs) ≡ n * slices_total xs
unfolding repeated
slices_total-repeated zero xs = omega arith
slices_total-repeated (suc n) xs =
    omega (arith, slices_total-append xs (repeated n xs), slices_total-repeated n xs)

repeated_nil : (n : ℕ) → repeated n [] ≡ []
unfolding repeated
repeated_nil zero = refl
repeated_nil (suc n) = repeated_nil n

repeated-All :
    (n : ℕ) (P : OrderSlice → Type 0) (s : OrderSlice) → P s → All P (repeated n (s ∷ []))
unfolding repeated
repeated-All zero P s p = tt
repeated-All (suc n) P s p = (p, repeated-All n P s p)

-- What repeating the route of a quantity gives, as one for another quantity is empty or not.
abbrev Repeats : List OrderSlice → List OrderSlice → ℕ → ℕ → Type 0
Repeats other xs n k =
    ((other ≡ []) × (repeated n xs ≡ []))
    ⊎ ((length (repeated n xs) ≡ n)
        × (slices_total (repeated n xs) ≡ n * k)
        × All (λ s. s.qty ≡ k) (repeated n xs))

length-repeated : (n : ℕ) (s : OrderSlice) → length (repeated n (s ∷ [])) ≡ n
unfolding repeated
length-repeated zero s = refl
length-repeated (suc n) s = ap suc (length-repeated n s)

-- The venue of `route_best_venue` does not depend on the quantity.
best-Repeats :
    (r : SmartOrderRouter) (symbol : Symbol) (side : Side) (q k : Qty) (n : ℕ)
    → Repeats (route_best_venue r symbol side q) (route_best_venue r symbol side k) n k
unfolding route_best_venue slice
best-Repeats r symbol side q k n =
    elim (Option-cases (best_price (pair symbol) side r.books none)) [
      | inl nowhere ↦ rw nowhere (inl (refl, repeated_nil n))
      | inr (b, there) ↦ rw there (
          inr (
            length-repeated n _,
            slices_total-repeated n _ ∙ omega arith,
            repeated-All n (λ s. s.qty ≡ k) _ refl,
          ))
    ]

many_units : (n qty : ℕ) → 0 < qty / suc n → suc n ≤ qty
many_units n qty h =
    let product : suc n * 1 ≤ suc n * (qty / suc n) = mul-le-mul {n₂ = suc n} (omega arith) h in
    omega (arith, product, div-add-mod qty (suc n))

-- `route_twap` panics for no slices, and only for them. Otherwise, either `route_best_venue` finds
-- no venue for the pair and there is nothing to send; or the quantity is less than the number of
-- slices and nothing is sent; or it is not less and there are as many slices as asked for, each of
-- the quantity divided by their number and rounded down, so that the remainder of the division is
-- never traded.
pub route_twap-total :
    (r : SmartOrderRouter) (symbol : Symbol) (side : Side) (qty : Qty) (n : ℕ)
    → (route_twap r symbol side qty 0 ≡ none)
      × ((xs : List OrderSlice) × (route_twap r symbol side qty (suc n) ≡ some xs)
          × (((route_best_venue r symbol side qty ≡ []) × (xs ≡ []))
              ⊎ ((qty < suc n) × (xs ≡ []))
              ⊎ ((suc n ≤ qty)
                  × (length xs ≡ suc n)
                  × All (λ s. s.qty ≡ qty / suc n) xs
                  × (slices_total xs + qty % suc n ≡ qty))))
unfolding route_twap
route_twap-total r symbol side qty n =
    let some_slices : (suc n == 0) ≡ false = ground arith in
    (
      refl,
      elim (Bool-cases (qty / suc n == 0)) [
        | inl small ↦
            rw (some_slices, small)
              ([], refl, inr (inl (ground (arith, small, div-add-mod qty (suc n)), refl)))
        | inr enough ↦
            rw (some_slices, enough)
              (
                repeated (suc n) (route_best_venue r symbol side (qty / suc n)),
                refl,
                elim (best-Repeats r symbol side qty (qty / suc n) (suc n)) [
                  | inl nowhere ↦ inl nowhere
                  | inr (many, total, each) ↦ inr (
                      inr (
                        many_units n qty (ground (arith, enough)),
                        many,
                        each,
                        omega (arith, total, div-add-mod qty (suc n)),
                      ))
                ],
              )
      ],
    )
