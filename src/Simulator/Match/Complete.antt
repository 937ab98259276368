-- ===== src/Simulator/Match/Complete.antt =====
-- `match_order` takes all that the book offers within the limit, up to the order's quantity.
use mathlib.Core.List.{reverse-cons, map-append}
use atomic_mesh.Base.{
  ℕ, ◌+◌, ◌-◌, min, ◌≡◌, refl, ◌∙◌, ap, true, false, not, Option, none, some, List, [], ◌∷◌, ◌++◌,
  map, reverse, filter, All, All-imp, All-append, arith, if◌then◌else◌, nat_eq, ℤ, int_beq, ◌<ℤ◌,
  Bool-cases, inl, inr,
}
use atomic_mesh.Base.Word.{sum}
use atomic_mesh.Base.BTreeMap.{
  BTreeMap, get, IsSorted, Above, insert-IsSorted, remove-IsSorted, get-insert, get-remove,
}
use atomic_mesh.Core.Types.{Side, buy, sell}
use atomic_mesh.Simulator.Match.{
  Matching, is_beyond, consume_at, match_prices, prices_for, match_order,
}

abbrev qty_at : Option ℕ → ℕ
qty_at none = 0
qty_at (some q) = q

-- What the prices offer until one of them is beyond the limit.
abbrev crossing : Side → Option ℤ → List ℤ → BTreeMap ℕ → ℕ
crossing side limit [] book = 0
crossing side limit (p ∷ ps) book =
    if is_beyond side limit p then 0 else qty_at (get p book) + crossing side limit ps book

abbrev Distinct : List ℤ → Type 0
Distinct [] = Unit
Distinct (p ∷ ps) = All (λ q. int_beq p q ≡ false) ps × Distinct ps

consume_at-IsSorted :
    (p : ℤ) (r : Option ℕ) (m : Matching)
    → IsSorted m.book_side
    → IsSorted (consume_at p r m).book_side
unfolding consume_at
consume_at-IsSorted p none m s = s
consume_at-IsSorted p (some avail) m s = ground (
  arith,
  remove-IsSorted p m.book_side s,
  insert-IsSorted p (avail - min m.remaining avail) m.book_side s,
)

get-consume_at :
    (p q : ℤ) (r : Option ℕ) (m : Matching)
    → IsSorted m.book_side
    → int_beq p q ≡ false
    → get q (consume_at p r m).book_side ≡ get q m.book_side
unfolding consume_at
get-consume_at p q none m s h = refl
get-consume_at p q (some avail) m s h = ground (
  arith,
  get-remove p q m.book_side s,
  get-insert p q (avail - min m.remaining avail) m.book_side s,
)

remaining-consume_at :
    (p : ℤ) (r : Option ℕ) (m : Matching) → (consume_at p r m).remaining ≡ m.remaining - qty_at r
unfolding consume_at
remaining-consume_at p none m = omega arith
remaining-consume_at p (some avail) m = ground arith

crossing-consume_at :
    (side : Side) (limit : Option ℤ) (p : ℤ) (r : Option ℕ) (m : Matching) (ps : List ℤ)
    → IsSorted m.book_side
    → All (λ q. int_beq p q ≡ false) ps
    → crossing side limit ps (consume_at p r m).book_side ≡ crossing side limit ps m.book_side
crossing-consume_at side limit p r m [] s a = refl
crossing-consume_at side limit p r m (q ∷ ps) s a =
    rw (get-consume_at p q r m s a.0, crossing-consume_at side limit p r m ps s a.1)

remaining-match_prices :
    (side : Side) (limit : Option ℤ) (ps : List ℤ) (m : Matching)
    → Distinct ps
    → IsSorted m.book_side
    → (match_prices side limit ps m).remaining ≡ m.remaining - crossing side limit ps m.book_side
unfolding match_prices
remaining-match_prices side limit [] m d s = omega arith
remaining-match_prices side limit (p ∷ ps) m d s =
    let next : Matching = consume_at p (get p m.book_side) m in
    ground (
      arith,
      remaining-match_prices side limit ps next d.1 (consume_at-IsSorted p (get p m.book_side) m s),
      remaining-consume_at p (get p m.book_side) m,
      crossing-consume_at side limit p (get p m.book_side) m ps s d.0,
    )

-- The same sum over entries.
abbrev prefix : Side → Option ℤ → BTreeMap ℕ → ℕ
prefix side limit [] = 0
prefix side limit (e ∷ es) = if is_beyond side limit e.0 then 0 else e.1 + prefix side limit es

crossing-prefix :
    (side : Side) (limit : Option ℤ) (es book : BTreeMap ℕ)
    → All (λ e. get e.0 book ≡ some e.1) es
    → crossing side limit (map (λ e. e.0) es) book ≡ prefix side limit es
crossing-prefix side limit [] book a = refl
crossing-prefix side limit (e ∷ es) book a = rw (a.0, crossing-prefix side limit es book a.1)

-- Behind a price beyond the limit all prices are.
abbrev Ends : Side → Option ℤ → BTreeMap ℕ → Type 0
Ends side limit [] = Unit
Ends side limit (e ∷ es) =
    (is_beyond side limit e.0 ≡ true → All (λ d. is_beyond side limit d.0 ≡ true) es)
    × Ends side limit es

-- The quantities of the entries within the limit.
abbrev pub within : Side → Option ℤ → BTreeMap ℕ → List ℕ
within side limit es = map (λ e. e.1) (filter (λ e. not (is_beyond side limit e.0)) es)

within_beyond :
    (side : Side) (limit : Option ℤ) (es : BTreeMap ℕ)
    → All (λ d. is_beyond side limit d.0 ≡ true) es
    → sum (within side limit es) ≡ 0
within_beyond side limit [] a = refl
within_beyond side limit (e ∷ es) a = rw a.0 (within_beyond side limit es a.1)

prefix-within :
    (side : Side) (limit : Option ℤ) (es : BTreeMap ℕ)
    → Ends side limit es
    → prefix side limit es ≡ sum (within side limit es)
prefix-within side limit [] n = refl
prefix-within side limit (e ∷ es) n = elim (Bool-cases (is_beyond side limit e.0)) [
  | inl t ↦ rw (t, within_beyond side limit es (n.0 t))
  | inr f ↦ rw (f, prefix-within side limit es n.1)
]

sum-append : (xs ys : List ℕ) → sum (xs ++ ys) ≡ sum xs + sum ys
sum-append [] ys = omega arith
sum-append (x ∷ xs) ys = omega (arith, sum-append xs ys)

within-append :
    (side : Side) (limit : Option ℤ) (es ds : BTreeMap ℕ)
    → sum (within side limit (es ++ ds)) ≡ sum (within side limit es) + sum (within side limit ds)
within-append side limit [] ds = omega arith
within-append side limit (e ∷ es) ds = ground (arith, within-append side limit es ds)

within-reverse :
    (side : Side) (limit : Option ℤ) (es : BTreeMap ℕ)
    → sum (within side limit (reverse es)) ≡ sum (within side limit es)
within-reverse side limit [] = refl
within-reverse side limit (e ∷ es) =
    ap (λ ds. sum (within side limit ds)) (reverse-cons e es)
    ∙ within-append side limit (reverse es) (e ∷ [])
    ∙ ground (arith, within-reverse side limit es)

All-reverse {κ} : (P : ℤ × ℕ → Type κ) (es : BTreeMap ℕ) → All P es → All P (reverse es)
All-reverse P [] a = tt
All-reverse P (e ∷ es) a =
    rw (reverse-cons e es) (All-append P (reverse es) (e ∷ []) (All-reverse P es a.1) (a.0, tt))

-- Each entry of a sorted map is found under its key.
entries_found : (es book : BTreeMap ℕ) → IsSorted es → All (λ e. get e.0 es ≡ some e.1) es
unfolding get
entries_found [] book s = tt
entries_found (e ∷ es) book s = (ground arith, found es (entries_found es book s.1) s.0)
  where
    found :
        (ds : BTreeMap ℕ)
        → All (λ d. get d.0 es ≡ some d.1) ds
        → Above e.0 ds
        → All (λ d. get d.0 (e ∷ es) ≡ some d.1) ds
    found [] a b = tt
    found (d ∷ ds) a b = (ground (arith, a.0, b.0), found ds a.1 b.1)

buy_beyond :
    (limit : Option ℤ) (p q : ℤ)
    → p <ℤ q
    → is_beyond buy limit p ≡ true
    → is_beyond buy limit q ≡ true
unfolding is_beyond
buy_beyond none p q h t = cc
buy_beyond (some l) p q h t = ground arith

sell_beyond :
    (limit : Option ℤ) (p q : ℤ)
    → p <ℤ q
    → is_beyond sell limit q ≡ true
    → is_beyond sell limit p ≡ true
unfolding is_beyond
sell_beyond none p q h t = cc
sell_beyond (some l) p q h t = ground arith

Ends-buy : (limit : Option ℤ) (es : BTreeMap ℕ) → IsSorted es → Ends buy limit es
Ends-buy limit [] s = tt
Ends-buy limit (e ∷ es) s =
    (λ t. All-imp (λ d h. buy_beyond limit e.0 d.0 h t) es s.0, Ends-buy limit es s.1)

Ends-snoc :
    (side : Side) (limit : Option ℤ) (e : ℤ × ℕ) (es : BTreeMap ℕ)
    → Ends side limit es
    → All (λ d. is_beyond side limit d.0 ≡ true → is_beyond side limit e.0 ≡ true) es
    → Ends side limit (es ++ e ∷ [])
Ends-snoc side limit e [] n a = (λ t. tt, tt)
Ends-snoc side limit e (d ∷ es) n a = (
  λ t. All-append (λ x. is_beyond side limit x.0 ≡ true) es (e ∷ []) (n.0 t) (a.0 t, tt),
  Ends-snoc side limit e es n.1 a.1,
)

Ends-sell : (limit : Option ℤ) (es : BTreeMap ℕ) → IsSorted es → Ends sell limit (reverse es)
Ends-sell limit [] s = tt
Ends-sell limit (e ∷ es) s = rw (reverse-cons e es) (
    Ends-snoc sell limit e (reverse es) (Ends-sell limit es s.1)
      (All-reverse _ es (All-imp (λ d h. sell_beyond limit e.0 d.0 h) es s.0)))

-- The prices of a sorted side are distinct, in either order.
apart :
    (e : ℤ × ℕ) (es : BTreeMap ℕ)
    → Above e.0 es
    → All (λ q. int_beq e.0 q ≡ false) (map (λ d. d.0) es)
apart e [] a = tt
apart e (d ∷ es) a = (ground arith, apart e es a.1)

Distinct-keys : (es : BTreeMap ℕ) → IsSorted es → Distinct (map (λ e. e.0) es)
Distinct-keys [] s = tt
Distinct-keys (e ∷ es) s = (apart e es s.0, Distinct-keys es s.1)

Distinct-snoc :
    (p : ℤ) (ps : List ℤ)
    → Distinct ps
    → All (λ q. int_beq q p ≡ false) ps
    → Distinct (ps ++ p ∷ [])
Distinct-snoc p [] d a = (tt, tt)
Distinct-snoc p (q ∷ ps) d a =
    (All-append (λ x. int_beq q x ≡ false) ps (p ∷ []) d.0 (a.0, tt), Distinct-snoc p ps d.1 a.1)

All-keys : (P : ℤ → Type 0) (es : BTreeMap ℕ) → All (λ e. P e.0) es → All P (map (λ e. e.0) es)
All-keys P [] a = tt
All-keys P (e ∷ es) a = (a.0, All-keys P es a.1)

Distinct-reverse : (es : BTreeMap ℕ) → IsSorted es → Distinct (map (λ e. e.0) (reverse es))
Distinct-reverse [] s = tt
Distinct-reverse (e ∷ es) s =
    rw (reverse-cons e es, map-append)
      (Distinct-snoc e.0 _ (Distinct-reverse es s.1) (
        All-keys (λ q. int_beq q e.0 ≡ false) (reverse es)
          (All-reverse _ es (All-imp (λ d h. ground arith) es s.0))))

-- On a side with rising prices a match leaves of the order's quantity what exceeds the quantities
-- of the entries within the limit.
pub remaining-match_order :
    (book : BTreeMap ℕ) (side : Side) (qty : ℕ) (limit : Option ℤ)
    → IsSorted book
    → (match_order book side qty limit).remaining ≡ qty - sum (within side limit book)
unfolding match_order prices_for
remaining-match_order book buy qty limit s =
    remaining-match_prices buy limit (map (λ e. e.0) book) _ (Distinct-keys book s) s
    ∙ ap (λ n. qty - n)
        (crossing-prefix buy limit book book (entries_found book book s)
          ∙ prefix-within buy limit book (Ends-buy limit book s))
remaining-match_order book sell qty limit s =
    remaining-match_prices sell limit (map (λ e. e.0) (reverse book)) _ (Distinct-reverse book s) s
    ∙ ap (λ n. qty - n)
        (crossing-prefix sell limit (reverse book) book
            (All-reverse _ book (entries_found book book s))
          ∙ prefix-within sell limit (reverse book) (Ends-sell limit book s)
          ∙ within-reverse sell limit book)
