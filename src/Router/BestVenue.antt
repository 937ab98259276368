-- ===== src/Router/BestVenue.antt =====
-- The venue that `route_best_venue` picks.
use atomic_mesh.Base.{
  subst, All-imp, ◌≤ℤ◌, Bool, true, false, Option, none, some, String, string_eq, List, [], ◌∷◌,
  All, ◌==◌, ◌≡◌, refl, ap₂, ◌⊎◌, inl, inr, arith, if◌then◌else◌, Bool-cases,
}
use atomic_mesh.Core.Types.{Price, Qty, Side, Symbol, Venue, Level, buy, sell, pair}
use atomic_mesh.OrderBook.{OrderBook}
use atomic_mesh.Router.{
  Books, SmartOrderRouter, OrderSlice, slice, facing_level, is_better, better_of, best_price,
  one_slice, route_best_venue,
}

abbrev pub Any {ℓ} : {A : Type ℓ} → (A → Type 0) → List A → Type 0
Any P [] = ⊥
Any P (x ∷ xs) = P x ⊎ Any P xs

-- The entry is the venue's book of the pair, and the level that meets the order has this price.
abbrev pub Offers : String → Side → Venue → Price → (String × Venue) × OrderBook → Type 0
Offers p side venue price e =
    (e.0 ≡ (p, venue)) × ((l : Level) × (facing_level e.1 side ≡ some l) × (l.price ≡ price))

-- A book of the pair offers nothing to the order.
abbrev pub Silent : String → Side → (String × Venue) × OrderBook → Type 0
Silent p side e = e.0.0 ≡ p → facing_level e.1 side ≡ none

-- What is offered is no better than this price.
abbrev Below : Side → Price → Option Level → Type 0
Below side x none = Unit
Below side x (some l) = is_better side l.price x ≡ false

abbrev NoBetter : String → Side → Price → (String × Venue) × OrderBook → Type 0
NoBetter p side price e = e.0.0 ≡ p → Below side price (facing_level e.1 side)

-- One round of the loop, where `b` says whether the book is of the pair and `o` is what it offers.
abbrev step : Side → Venue → Bool → Option Level → Option (Venue × Price) → Option (Venue × Price)
step side venue b o best = if b then better_of side venue o best else best

step-none :
    (side : Side) (venue : Venue) (b : Bool) (o : Option Level) (best : Option (Venue × Price))
    → step side venue b o best ≡ none
    → (best ≡ none) × (b ≡ true → o ≡ none)
step-none side venue false o best h = (h, λ t. ground arith)
step-none side venue true none best h = (h, λ t. refl)
step-none side venue true (some l) none h = ground arith
step-none side venue true (some l) (some k) h = elim (Bool-cases (is_better side l.price k.1)) [
  | inl wins ↦ ground (arith, wins)
  | inr loses ↦ ground (arith, loses)
]

step-some :
    (side : Side) (venue v : Venue) (x : Price) (b : Bool) (o : Option Level)
    (best : Option (Venue × Price))
    → step side venue b o best ≡ some (v, x)
    → (best ≡ some (v, x))
      ⊎ ((b ≡ true) × (venue ≡ v) × ((l : Level) × (o ≡ some l) × (l.price ≡ x)))
step-some side venue v x false o best h = inl h
step-some side venue v x true none best h = inl h
step-some side venue v x true (some l) none h = inr (refl, ground arith, (l, refl, ground arith))
step-some side venue v x true (some l) (some k) h = elim (Bool-cases (is_better side l.price k.1)) [
  | inl wins ↦ inr (refl, ground (arith, wins), (l, refl, ground (arith, wins)))
  | inr loses ↦ inl (ground (arith, loses))
]

is_better_irrefl : (side : Side) (x : Price) → is_better side x x ≡ false
is_better_irrefl buy x = ground arith
is_better_irrefl sell x = ground arith

pub is_better_asymm :
    (side : Side) (x y : Price) → is_better side x y ≡ true → is_better side y x ≡ false
is_better_asymm buy x y h = ground arith
is_better_asymm sell x y h = ground arith

pub is_better_trans :
    (side : Side) (x y z : Price)
    → is_better side x y ≡ false
    → is_better side y z ≡ false
    → is_better side x z ≡ false
is_better_trans buy x y z h k = ground arith
is_better_trans sell x y z h k = ground arith

abbrev Bounded : Side → Price → Option (Venue × Price) → Type 0
Bounded side x none = Unit
Bounded side x (some k) = is_better side k.1 x ≡ false

-- What bounds the price after a round bounds what was there and what the book offers.
step-Bounded :
    (side : Side) (venue : Venue) (x : Price) (b : Bool) (o : Option Level)
    (best : Option (Venue × Price))
    → Bounded side x (step side venue b o best)
    → Bounded side x best × (b ≡ true → Below side x o)
step-Bounded side venue x false o best h = (h, λ t. ground arith)
step-Bounded side venue x true none best h = (h, λ t. tt)
step-Bounded side venue x true (some l) none h = (tt, λ t. h)
step-Bounded side venue x true (some l) (some k) h =
    elim (Bool-cases (is_better side l.price k.1)) [
      | inl wins ↦
          let below : is_better side l.price x ≡ false = ground (arith, wins) in
          (
            is_better_trans side k.1 l.price x (is_better_asymm side l.price k.1 wins) below,
            λ t. below,
          )
      | inr loses ↦
          let below : is_better side k.1 x ≡ false = ground (arith, loses) in
          (below, λ t. is_better_trans side l.price k.1 x loses below)
    ]

-- What the loop finds, from what it has.
abbrev Found : String → Side → Books → Option (Venue × Price) → Option (Venue × Price) → Type 0
Found p side books best none = (best ≡ none) × All (Silent p side) books
Found p side books best (some (venue, price)) =
    ((best ≡ some (venue, price)) ⊎ Any (Offers p side venue price) books)
    × All (NoBetter p side price) books
    × Bounded side price best

Found-cons :
    (p : String) (side : Side) (sym : String) (venue : Venue) (book : OrderBook) (books : Books)
    (best r : Option (Venue × Price))
    → Found p side books (step side venue (sym == p) (facing_level book side) best) r
    → Found p side (((sym, venue), book) ∷ books) best r
Found-cons p side sym venue book books best none (same, silent) =
    let (was, offers) = step-none side venue (sym == p) (facing_level book side) best same in
    (was, ((λ e. offers ((string_eq.beq_decides sym p).1 e)), silent))
Found-cons p side sym venue book books best (some (v, x)) (from, beaten, bounded) =
    let (was, below) = step-Bounded side venue x (sym == p) (facing_level book side) best bounded in
    (
      elim from [
        | inl now ↦ elim (step-some side venue v x (sym == p) (facing_level book side) best now) [
          | inl before ↦ inl before
          | inr (same, here, l) ↦
              inr (inl (ap₂ (λ a b. (a, b)) ((string_eq.beq_decides sym p).0 same) here, l))
        ]
        | inr later ↦ inr (inr later)
      ],
      ((λ e. below ((string_eq.beq_decides sym p).1 e)), beaten),
      was,
    )

best_price-Found :
    (p : String) (side : Side) (books : Books) (best : Option (Venue × Price))
    → Found p side books best (best_price p side books best)
unfolding best_price
best_price-Found p side [] none = (refl, tt)
best_price-Found p side [] (some (v, x)) = (inl refl, tt, is_better_irrefl side x)
best_price-Found p side (((sym, venue), book) ∷ books) best =
    Found-cons p side sym venue book books best _
      (best_price-Found p side books (step side venue (sym == p) (facing_level book side) best))

-- A price is no better than another one: not below it for a buy, and not above it for a sale.
abbrev pub NotBetter : Side → Price → Price → Type 0
NotBetter buy p best = best ≤ℤ p
NotBetter sell p best = p ≤ℤ best

pub is_better-NotBetter :
    (side : Side) (p best : Price) → is_better side p best ≡ false → NotBetter side p best
is_better-NotBetter buy p best h = ground (arith, h)
is_better-NotBetter sell p best h = ground (arith, h)

-- A book of the pair offers no better price than this one.
abbrev pub Beaten : String → Side → Price → (String × Venue) × OrderBook → Type 0
Beaten p side price e =
    e.0.0 ≡ p → (l : Level) → facing_level e.1 side ≡ some l → NotBetter side l.price price

NoBetter-Beaten :
    (p : String) (side : Side) (price : Price) (e : (String × Venue) × OrderBook)
    → NoBetter p side price e
    → Beaten p side price e
NoBetter-Beaten p side price e h same l offered =
    is_better-NotBetter side l.price price (subst (Below side price) offered (h same))

abbrev pub Outcome : Symbol → Side → Qty → Books → List OrderSlice → Type 0
Outcome symbol side qty books slices =
    ((slices ≡ []) × All (Silent (pair symbol) side) books)
    ⊎ ((venue : Venue) × (price : Price) × (slices ≡ slice symbol side venue price qty ∷ [])
        × Any (Offers (pair symbol) side venue price) books
        × All (Beaten (pair symbol) side price) books)

outcome :
    (symbol : Symbol) (side : Side) (qty : Qty) (books : Books) (r : Option (Venue × Price))
    → Found (pair symbol) side books none r
    → Outcome symbol side qty books (one_slice symbol side qty r)
outcome symbol side qty books none f = inl (refl, f.1)
outcome symbol side qty books (some (v, x)) (inl empty, f, b) = ground arith
outcome symbol side qty books (some (v, x)) (inr there, f, b) =
    inr (v, x, refl, there, All-imp (NoBetter-Beaten (pair symbol) side x) books f)

-- `route_best_venue` sends nothing just where no book of the pair offers anything to the order;
-- otherwise it sends the whole quantity in one slice, to a venue and at a price that a book of the
-- pair offers first, and no book of the pair offers a better one: the lowest ask for a buy and the
-- highest bid for a sale.
pub route_best_venue_lem :
    (r : SmartOrderRouter) (symbol : Symbol) (side : Side) (qty : Qty)
    → Outcome symbol side qty r.books (route_best_venue r symbol side qty)
unfolding route_best_venue
route_best_venue_lem r symbol side qty =
    outcome symbol side qty r.books _ (best_price-Found (pair symbol) side r.books none)
