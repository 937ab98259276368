-- ===== src/Router/Sweep.antt =====
-- What `route_sweep` takes, and in which order.
use atomic_mesh.Base.{
  ℕ, zero, suc, ◌+◌, ◌-◌, ◌^◌, ◌<◌, min, false, List, [], ◌∷◌, All, All-imp, ◌≡◌, refl, ◌∙◌, ap,
  arith, Bool-cases, inl, inr, ℤ, pos, leb_ℤ,
}
use atomic_mesh.Base.Word.{u64_as_i64, u64_as_i64_small, i64_as_u64, min_i64_pos, sub_i64_pos}
use atomic_mesh.Core.Types.{Price, Qty, Side, Symbol, pair}
use atomic_mesh.Router.{
  SmartOrderRouter, OrderSlice, Offer, slice, is_better, all_levels, insert_offer, sort_offers,
  sweep, route_sweep,
}
use atomic_mesh.Router.BestVenue.{is_better_trans, is_better_asymm, NotBetter, is_better-NotBetter}
use atomic_mesh.Router.Twap.{slices_total}

-- What the offers hold in all.
abbrev pub offers_total : List Offer → ℕ
offers_total [] = 0
offers_total (o ∷ os) = o.1.qty + offers_total os

-- No later price is better than an earlier one.
abbrev pub IsBestFirst : Side → List OrderSlice → Type 0
IsBestFirst side [] = Unit
IsBestFirst side (s ∷ ss) = All (λ t. NotBetter side t.price s.price) ss × IsBestFirst side ss

abbrev IsOrdered : Side → List Offer → Type 0
IsOrdered side [] = Unit
IsOrdered side (o ∷ os) =
    All (λ x. is_better side x.1.price o.1.price ≡ false) os × IsOrdered side os

All-insert_offer :
    (P : Offer → Type 0) (side : Side) (x : Offer) (os : List Offer)
    → P x
    → All P os
    → All P (insert_offer side x os)
All-insert_offer P side x [] p a = (p, tt)
All-insert_offer P side x (o ∷ os) p a = ground (arith, All-insert_offer P side x os p a.1)

insert_offer-IsOrdered :
    (side : Side) (x : Offer) (os : List Offer)
    → IsOrdered side os
    → IsOrdered side (insert_offer side x os)
insert_offer-IsOrdered side x [] s = (tt, tt)
insert_offer-IsOrdered side x (o ∷ os) s = elim (Bool-cases (is_better side o.1.price x.1.price)) [
  | inl before ↦ rw before (
    All-insert_offer (λ y. is_better side y.1.price o.1.price ≡ false) side x os
        (is_better_asymm side o.1.price x.1.price before) s.0,
    insert_offer-IsOrdered side x os s.1,
  )
  | inr behind ↦ rw behind (
    (behind, All-imp (λ y a. is_better_trans side y.1.price o.1.price x.1.price a behind) os s.0),
    s,
  )
]

sort_offers-IsOrdered : (side : Side) (os : List Offer) → IsOrdered side (sort_offers side os)
unfolding sort_offers
sort_offers-IsOrdered side [] = tt
sort_offers-IsOrdered side (o ∷ os) =
    insert_offer-IsOrdered side o (sort_offers side os) (sort_offers-IsOrdered side os)

offers_total-insert_offer :
    (side : Side) (x : Offer) (os : List Offer)
    → offers_total (insert_offer side x os) ≡ x.1.qty + offers_total os
offers_total-insert_offer side x [] = refl
offers_total-insert_offer side x (o ∷ os) = elim (Bool-cases (is_better side o.1.price x.1.price)) [
  | inl before ↦ rw before (omega (arith, offers_total-insert_offer side x os))
  | inr behind ↦ rw behind refl
]

offers_total-sort_offers :
    (side : Side) (os : List Offer) → offers_total (sort_offers side os) ≡ offers_total os
unfolding sort_offers
offers_total-sort_offers side [] = refl
offers_total-sort_offers side (o ∷ os) = omega (
  arith,
  offers_total-insert_offer side o (sort_offers side os),
  offers_total-sort_offers side os,
)

-- Every quantity is an `i64` that is not negative.
abbrev pub Small : List Offer → Type 0
Small = All (λ o. o.1.qty < 2 ^ 63)

Small-sort_offers : (side : Side) (os : List Offer) → Small os → Small (sort_offers side os)
unfolding sort_offers
Small-sort_offers side [] a = tt
Small-sort_offers side (o ∷ os) a =
    All-insert_offer (λ o. o.1.qty < 2 ^ 63) side o (sort_offers side os) a.0
      (Small-sort_offers side os a.1)

i64_as_u64_small : (n : ℕ) → n < 2 ^ 63 → i64_as_u64 (pos n) ≡ n
unfolding i64_as_u64
i64_as_u64_small n h = omega arith

-- One round of the loop, where nothing wraps.
sweep_step :
    (symbol : Symbol) (side : Side) (o : Offer) (os : List Offer) (r : ℕ)
    → 0 < r
    → r < 2 ^ 63
    → o.1.qty < 2 ^ 63
    → sweep symbol side (o ∷ os) (pos r)
      ≡ slice symbol side o.0 o.1.price (min r o.1.qty)
        ∷ sweep symbol side os (pos (r - min r o.1.qty))
unfolding sweep slice
sweep_step symbol side o os r h b q =
    let fill : ℕ = min r o.1.qty in
    let more : leb_ℤ (pos r) (pos 0) ≡ false = ground arith in
    rw
      (
        u64_as_i64_small o.1.qty q,
        min_i64_pos r o.1.qty,
        i64_as_u64_small fill (omega arith),
        u64_as_i64_small fill (omega arith),
        sub_i64_pos r fill (omega arith) b,
        more,
      )
      refl

sweep-total :
    (symbol : Symbol) (side : Side) (os : List Offer) (r : ℕ)
    → r < 2 ^ 63
    → Small os
    → slices_total (sweep symbol side os (pos r)) ≡ min r (offers_total os)
unfolding sweep slice
sweep-total symbol side [] r b a = omega arith
sweep-total symbol side (o ∷ os) zero b a = omega arith
sweep-total symbol side (o ∷ os) (suc r) b a =
    ap slices_total (sweep_step symbol side o os (suc r) (omega arith) b a.0)
    ∙ omega (arith, sweep-total symbol side os (suc r - min (suc r) o.1.qty) (omega arith) a.1)

All-sweep :
    (P : Price → Type 0) (symbol : Symbol) (side : Side) (os : List Offer) (r : ℤ)
    → All (λ o. P o.1.price) os
    → All (λ s. P s.price) (sweep symbol side os r)
unfolding sweep slice
All-sweep P symbol side [] r a = tt
All-sweep P symbol side (o ∷ os) r a = elim (Bool-cases (leb_ℤ r (pos 0))) [
  | inl done ↦ rw done tt
  | inr more ↦ rw more (a.0, All-sweep P symbol side os _ a.1)
]

sweep-IsBestFirst :
    (symbol : Symbol) (side : Side) (os : List Offer) (r : ℤ)
    → IsOrdered side os
    → IsBestFirst side (sweep symbol side os r)
unfolding sweep slice
sweep-IsBestFirst symbol side [] r s = tt
sweep-IsBestFirst symbol side (o ∷ os) r s = elim (Bool-cases (leb_ℤ r (pos 0))) [
  | inl done ↦ rw done tt
  | inr more ↦ rw more (
    All-sweep (λ p. NotBetter side p o.1.price) symbol side os _
        (All-imp (λ x a. is_better-NotBetter side x.1.price o.1.price a) os s.0),
    sweep-IsBestFirst symbol side os _ s.1,
  )
]

-- The slices of `route_sweep` ask for the smaller one of the order's quantity and of all that the
-- twenty best levels of each book of the pair hold, the best prices first, whichever order the map of
-- books has; the order's quantity and that of every level are below 2 ^ 63.
pub route_sweep-total :
    (r : SmartOrderRouter) (symbol : Symbol) (side : Side) (qty : Qty)
    → qty < 2 ^ 63
    → Small (all_levels (pair symbol) side r.books)
    → (slices_total (route_sweep r symbol side qty)
        ≡ min qty (offers_total (all_levels (pair symbol) side r.books)))
      × IsBestFirst side (route_sweep r symbol side qty)
unfolding route_sweep
route_sweep-total r symbol side qty b a =
    let offers = all_levels (pair symbol) side r.books in
    (
      ap (λ q. slices_total (sweep symbol side (sort_offers side offers) q))
            (u64_as_i64_small qty b)
          ∙ sweep-total symbol side (sort_offers side offers) qty b
              (Small-sort_offers side offers a)
          ∙ ap (min qty) (offers_total-sort_offers side offers),
      sweep-IsBestFirst symbol side (sort_offers side offers) (u64_as_i64 qty)
          (sort_offers-IsOrdered side offers),
    )
