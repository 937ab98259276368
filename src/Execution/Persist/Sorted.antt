-- ===== src/Execution/Persist/Sorted.antt =====
-- The sorted list of the orders is known by what stands under each id.
use atomic_mesh.Base.{
  ◌≡◌, refl, sym, ◌∙◌, ap, ap₂, subst, true, Option, none, some, String, List, [], ◌∷◌, All,
  All-imp, arith, if◌then◌else◌, ◌==◌, string_eq, Bool-cases, inl, inr, beq_refl,
}
use atomic_mesh.Base.HashMap.{HashMap, get, insert, get-insert, values, IsUnique}
use atomic_mesh.Base.Text.{str_ltb, str_ltb_irrefl, str_ltb_trans, str_ltb_total}
use atomic_mesh.Execution.Order.{LiveOrder}
use atomic_mesh.Execution.Persist.{insert_sorted, sort_orders, insert_all}

abbrev pub find : String → List LiveOrder → Option LiveOrder
find k [] = none
find k (o ∷ os) = if o.order_id == k then some o else find k os

abbrev pub Distinct : List LiveOrder → Type 0
Distinct [] = Unit
Distinct (o ∷ os) = (find o.order_id os ≡ none) × Distinct os

abbrev pub Below : LiveOrder → List LiveOrder → Type 0
Below o = All (λ x. str_ltb o.order_id x.order_id ≡ true)

abbrev pub IsSorted : List LiveOrder → Type 0
IsSorted [] = Unit
IsSorted (o ∷ os) = Below o os × IsSorted os

find-insert_sorted :
    (k : String) (o : LiveOrder) (xs : List LiveOrder)
    → find k (insert_sorted o xs) ≡ (if o.order_id == k then some o else find k xs)
unfolding insert_sorted
find-insert_sorted k o [] = refl
find-insert_sorted k o (x ∷ xs) = ground (
  arith,
  find-insert_sorted k o xs,
  string_eq.beq_decides o.order_id k,
  string_eq.beq_decides x.order_id k,
  str_ltb_irrefl k,
)

pub find-sort_orders : (k : String) (xs : List LiveOrder) → find k (sort_orders xs) ≡ find k xs
unfolding sort_orders
find-sort_orders k [] = refl
find-sort_orders k (x ∷ xs) =
    find-insert_sorted k x (sort_orders xs)
    ∙ ap (λ r. if x.order_id == k then some x else r) (find-sort_orders k xs)

Below-insert_sorted :
    (o p : LiveOrder) (xs : List LiveOrder)
    → str_ltb o.order_id p.order_id ≡ true
    → Below o xs
    → Below o (insert_sorted p xs)
unfolding insert_sorted
Below-insert_sorted o p [] h b = (h, tt)
Below-insert_sorted o p (x ∷ xs) h b = ground (arith, Below-insert_sorted o p xs h b.1)

Below-trans :
    (o p : LiveOrder) (xs : List LiveOrder)
    → str_ltb o.order_id p.order_id ≡ true
    → Below p xs
    → Below o xs
Below-trans o p xs h = All-imp (λ x. str_ltb_trans o.order_id p.order_id x.order_id h) xs

insert_sorted-IsSorted :
    (o : LiveOrder) (xs : List LiveOrder)
    → find o.order_id xs ≡ none
    → IsSorted xs
    → IsSorted (insert_sorted o xs)
unfolding insert_sorted
insert_sorted-IsSorted o [] f s = (tt, tt)
insert_sorted-IsSorted o (x ∷ xs) f s = ground (
  arith,
  insert_sorted-IsSorted o xs,
  string_eq.beq_decides x.order_id o.order_id,
  str_ltb_total o.order_id x.order_id,
  Below-trans o x xs,
  Below-insert_sorted x o xs,
)

pub sort_orders-IsSorted : (xs : List LiveOrder) → Distinct xs → IsSorted (sort_orders xs)
unfolding sort_orders
sort_orders-IsSorted [] d = tt
sort_orders-IsSorted (x ∷ xs) d =
    insert_sorted-IsSorted x (sort_orders xs) (find-sort_orders x.order_id xs ∙ d.0)
      (sort_orders-IsSorted xs d.1)

find-Below : (o : LiveOrder) (xs : List LiveOrder) → Below o xs → find o.order_id xs ≡ none
find-Below o [] b = refl
find-Below o (x ∷ xs) b = ground (
  arith,
  find-Below o xs b.1,
  string_eq.beq_decides x.order_id o.order_id,
  str_ltb_irrefl o.order_id,
)

find_first : (x : LiveOrder) (xs : List LiveOrder) → find x.order_id (x ∷ xs) ≡ some x
find_first x xs = rw (beq_refl x.order_id)

find_lower :
    (x y : LiveOrder) (ys : List LiveOrder)
    → str_ltb x.order_id y.order_id ≡ true
    → Below y ys
    → find x.order_id (y ∷ ys) ≡ none
find_lower x y ys l b = find-Below x (y ∷ ys) (l, Below-trans x y ys l b)

tails_agree :
    (x : LiveOrder) (xs ys : List LiveOrder)
    → Below x xs
    → Below x ys
    → ((k : String) → find k (x ∷ xs) ≡ find k (x ∷ ys))
    → (k : String) → find k xs ≡ find k ys
tails_agree x xs ys a b h k = elim (Bool-cases (x.order_id == k)) [
  | inl t ↦
      subst (λ j. find j xs ≡ find j ys) ((string_eq.beq_decides x.order_id k).0 t)
        (find-Below x xs a ∙ sym (find-Below x ys b))
  | inr f ↦ ground (arith, h k)
]

-- Sorted lists with the same order under each id are the same.
pub sorted_ext :
    (xs ys : List LiveOrder)
    → IsSorted xs
    → IsSorted ys
    → ((k : String) → find k xs ≡ find k ys)
    → xs ≡ ys
sorted_ext [] [] s t h = refl
sorted_ext [] (y ∷ ys) s t h = cc (h y.order_id, find_first y ys)
sorted_ext (x ∷ xs) [] s t h = cc (h x.order_id, find_first x xs)
sorted_ext (x ∷ xs) (y ∷ ys) s t h = elim (str_ltb_total x.order_id y.order_id) [
  | inl l ↦ cc (h x.order_id, find_first x xs, find_lower x y ys l t.0)
  | inr (inl g) ↦ cc (h y.order_id, find_first y ys, find_lower y x xs g s.0)
  | inr (inr e) ↦
      let same : x ≡ y =
        ap {A = Option LiveOrder} (λ o. elim o [ none ↦ x | some z ↦ z ])
          (sym (find_first x xs) ∙ h x.order_id ∙ ap (λ k. find k (y ∷ ys)) e ∙ find_first y ys) in
      let h' : (k : String) → find k (x ∷ xs) ≡ find k (x ∷ ys) =
        subst (λ z. (k : String) → find k (x ∷ xs) ≡ find k (z ∷ ys)) (sym same) h in
      let below : Below x ys = subst (λ z. Below z ys) (sym same) t.0 in
      ap₂ (◌∷◌) same (sorted_ext xs ys s.1 t.1 (tails_agree x xs ys s.0 below h'))
]

-- What the list and the map say of an id.
abbrev pub IsKeyed : HashMap String LiveOrder → Type 0
IsKeyed = All (λ e. e.1.order_id ≡ e.0)

pub find-values :
    (k : String) (m : HashMap String LiveOrder) → IsKeyed m → find k (values m) ≡ get k m
unfolding get
find-values k [] a = refl
find-values k ((j, o) ∷ m) a = rw (a.0, find-values k m a.1)

pub values-Distinct : (m : HashMap String LiveOrder) → IsKeyed m → IsUnique m → Distinct (values m)
values-Distinct [] a u = tt
values-Distinct ((j, o) ∷ m) a u =
    (find-values o.order_id m a.1 ∙ ap (λ k. get k m) a.0 ∙ u.0, values-Distinct m a.1 u.1)

pub sorted-Distinct : (xs : List LiveOrder) → IsSorted xs → Distinct xs
sorted-Distinct [] s = tt
sorted-Distinct (x ∷ xs) s = (find-Below x xs s.0, sorted-Distinct xs s.1)

-- Inserting a list of orders into a map.
pub get-insert_all :
    (k : String) (xs : List LiveOrder) (m : HashMap String LiveOrder)
    → Distinct xs
    → get k (insert_all xs m) ≡ elim (find k xs) [ none ↦ get k m | some o ↦ some o ]
unfolding insert_all
get-insert_all k [] m d = refl
get-insert_all k (x ∷ xs) m d = ground (
  arith,
  get-insert_all k xs (insert x.order_id x m) d.1,
  string_eq.beq_decides x.order_id k,
  get-insert x.order_id k x m,
)
