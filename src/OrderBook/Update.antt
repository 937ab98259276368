-- ===== src/OrderBook/Update.antt =====
-- What updates of the book leave under each price.
use atomic_mesh.Base.{
  ℕ, ◌≡◌, refl, sym, ◌∙◌, ap, ap₂, ◌⊎◌, inl, inr, Option, none, some, List, [], ◌∷◌, arith, ◌==◌,
  nat_eq, if◌then◌else◌, ℤ, int_beq, Bool-cases,
}
use atomic_mesh.Base.BTreeMap.{BTreeMap, get, get-insert, get-remove, ext}
use atomic_mesh.Core.Types.{Level, Qty}
use atomic_mesh.OrderBook.{OrderBook, update_levels, apply_delta}
use atomic_mesh.OrderBook.WellFormed.{
  IsWellFormed, IsSide, insert-IsSide, remove-IsSide, update_levels-IsSide,
}

-- What a list of updates says of one price, given what was quoted before: the last update of that
-- price counts, and a quantity of 0 ends the quote.
abbrev pub quoted : List Level → ℤ → Option Qty → Option Qty
quoted [] p old = old
quoted (l ∷ ls) p old =
    quoted ls p (if int_beq l.price p then (if l.qty == 0 then none else some l.qty) else old)

get-update_levels :
    (ls : List Level) (side : BTreeMap Qty) (p : ℤ)
    → IsSide side
    → get p (update_levels ls side) ≡ quoted ls p (get p side)
unfolding update_levels
get-update_levels [] side p s = refl
get-update_levels (l ∷ ls) side p s = elim (Bool-cases (l.qty == 0)) [
  | inl t ↦ rw t (
      get-update_levels ls _ p (remove-IsSide l.price side s)
      ∙ ap (quoted ls p) (get-remove l.price p side s.sorted))
  | inr f ↦ rw f (
      get-update_levels ls _ p (insert-IsSide l.price l.qty side (ground arith) s)
      ∙ ap (quoted ls p) (get-insert l.price p l.qty side s.sorted))
]

-- After a delta on a well-formed book, each price of each side is quoted as the updates of that
-- side say.
pub get-apply_delta :
    (b : OrderBook) (bids asks : List Level) (seq ts : ℕ) (p : ℤ)
    → IsWellFormed b
    → (get p (apply_delta b bids asks seq ts).bids ≡ quoted bids p (get p b.bids))
      × (get p (apply_delta b bids asks seq ts).asks ≡ quoted asks p (get p b.asks))
unfolding apply_delta
get-apply_delta b bids asks seq ts p w =
    (get-update_levels bids b.bids p w.bids_ok, get-update_levels asks b.asks p w.asks_ok)

-- A price is either set by the updates, or left alone.
quoted_cases :
    (ls : List Level) (p : ℤ)
    → ((x y : Option Qty) → quoted ls p x ≡ quoted ls p y) ⊎ ((x : Option Qty) → quoted ls p x ≡ x)
quoted_cases [] p = inr (λ x. refl)
quoted_cases (l ∷ ls) p = elim (quoted_cases ls p) [
  | inl const ↦ inl (λ x y. const _ _)
  | inr same ↦ elim (Bool-cases (int_beq l.price p)) [
    | inl t ↦ inl (λ x y. rw t)
    | inr f ↦ inr (λ x. rw f (same x))
  ]
]

quoted_twice :
    (ls : List Level) (p : ℤ) (x : Option Qty) → quoted ls p (quoted ls p x) ≡ quoted ls p x
quoted_twice ls p x = elim (quoted_cases ls p) [ inl const ↦ const _ _ | inr same ↦ same _ ]

update_levels_twice :
    (ls : List Level) (side : BTreeMap Qty)
    → IsSide side
    → update_levels ls (update_levels ls side) ≡ update_levels ls side
update_levels_twice ls side s =
    let once = update_levels-IsSide ls side s in
    let twice = update_levels-IsSide ls (update_levels ls side) once in
    ext _ _ twice.sorted once.sorted (λ p.
      get-update_levels ls _ p once
      ∙ ap (quoted ls p) (get-update_levels ls side p s)
      ∙ quoted_twice ls p (get p side)
      ∙ sym (get-update_levels ls side p s))

-- A delta that is delivered twice to a well-formed book has the effect of one.
pub apply_delta_idempotent :
    (b : OrderBook) (bids asks : List Level) (seq ts : ℕ)
    → IsWellFormed b
    → apply_delta (apply_delta b bids asks seq ts) bids asks seq ts ≡ apply_delta b bids asks seq ts
unfolding apply_delta
apply_delta_idempotent b bids asks seq ts w =
    ap₂ (λ x y. record b { bids = x; asks = y; last_update_seq = seq; last_update_ts = ts })
      (update_levels_twice bids b.bids w.bids_ok) (update_levels_twice asks b.asks w.asks_ok)
