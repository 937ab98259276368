-- ===== src/Base/BTreeMap.antt =====
-- `std::collections::BTreeMap` with `i64` keys as the list of its entries, the least key first.
use atomic_mesh.Base.{
  ◌≡◌, refl, sym, subst, ◌⊎◌, inl, inr, Bool-cases, Option, none, some, List, [], ◌∷◌, arith,
  if◌then◌else◌, All, All-imp, ℤ, ltb_ℤ, int_beq, eq_of_parts, ◌<ℤ◌,
}

abbrev pub BTreeMap {ℓ} : Type ℓ → Type ℓ
BTreeMap V = List (ℤ × V)

module _ {ℓ} {V : Type ℓ} where
  unfoldable pub get : ℤ → BTreeMap V → Option V
  get k [] = none
  get k ((j, v) ∷ m) = if int_beq j k then some v else get k m

  unfoldable pub insert : ℤ → V → BTreeMap V → BTreeMap V
  insert k v [] = (k, v) ∷ []
  insert k v ((j, w) ∷ m) =
      if ltb_ℤ k j
      then (k, v) ∷ (j, w) ∷ m
      else if int_beq j k
      then (k, v) ∷ m
      else (j, w) ∷ insert k v m

  unfoldable pub remove : ℤ → BTreeMap V → BTreeMap V
  remove k [] = []
  remove k ((j, w) ∷ m) = if int_beq j k then m else (j, w) ∷ remove k m

  -- `iter().next()` and `iter().next_back()`.
  abbrev pub first : BTreeMap V → Option (ℤ × V)
  first [] = none
  first (e ∷ m) = some e

  unfoldable pub last : BTreeMap V → Option (ℤ × V)
  last [] = none
  last (e ∷ []) = some e
  last (e ∷ d ∷ m) = last (d ∷ m)

  abbrev pub Above : ℤ → BTreeMap V → Type 0
  Above k = All (λ e. k <ℤ e.0)

  -- The keys rise strictly.
  abbrev pub IsSorted : BTreeMap V → Type 0
  IsSorted [] = Unit
  IsSorted ((k, v) ∷ m) = Above k m × IsSorted m

  Above-mono : (j k : ℤ) (m : BTreeMap V) → j <ℤ k → Above k m → Above j m
  Above-mono j k m h = All-imp (λ e a. omega arith) m

  pub All-insert {μ} :
      (P : ℤ × V → Type μ) (k : ℤ) (v : V) (m : BTreeMap V)
      → P (k, v)
      → All P m
      → All P (insert k v m)
  unfolding insert
  All-insert P k v [] p a = (p, tt)
  All-insert P k v ((j, w) ∷ m) p a = ground (arith, All-insert P k v m p a.1)

  pub All-remove {μ} : (P : ℤ × V → Type μ) (k : ℤ) (m : BTreeMap V) → All P m → All P (remove k m)
  unfolding remove
  All-remove P k [] a = tt
  All-remove P k ((j, w) ∷ m) a = ground (arith, All-remove P k m a.1)

  pub insert-IsSorted : (k : ℤ) (v : V) (m : BTreeMap V) → IsSorted m → IsSorted (insert k v m)
  unfolding insert
  insert-IsSorted k v [] s = (tt, tt)
  insert-IsSorted k v ((j, w) ∷ m) s = ground (
    arith,
    insert-IsSorted k v m s.1,
    eq_of_parts j k,
    Above-mono k j m,
    All-insert (λ e. j <ℤ e.0) k v m,
  )

  pub remove-IsSorted : (k : ℤ) (m : BTreeMap V) → IsSorted m → IsSorted (remove k m)
  unfolding remove
  remove-IsSorted k [] s = tt
  remove-IsSorted k ((j, w) ∷ m) s =
      ground (arith, remove-IsSorted k m s.1, All-remove (λ e. j <ℤ e.0) k m s.0)

three_ways : (j k : ℤ) → (j <ℤ k) ⊎ ((k <ℤ j) ⊎ (j ≡ k))
three_ways j k = ground (arith, eq_of_parts j k)

-- Entries in `Type 0`, where `ground` splits on the order of keys.
module _ {V : Type 0} where
  pub get-Above : (k : ℤ) (m : BTreeMap V) → Above k m → get k m ≡ none
  unfolding get
  get-Above k [] a = refl
  get-Above k ((j, w) ∷ m) a = ground (arith, get-Above k m a.1)

  pub get-insert :
      (k j : ℤ) (v : V) (m : BTreeMap V)
      → IsSorted m
      → get j (insert k v m) ≡ (if int_beq k j then some v else get j m)
  unfolding get insert
  get-insert k j v [] s = refl
  get-insert k j v ((i, w) ∷ m) s =
      ground (arith, get-insert k j v m s.1, eq_of_parts i k, eq_of_parts k j)

  pub get-remove :
      (k j : ℤ) (m : BTreeMap V)
      → IsSorted m
      → get j (remove k m) ≡ (if int_beq k j then none else get j m)
  unfolding get remove
  get-remove k j [] s = ground arith
  get-remove k j ((i, w) ∷ m) s =
      ground (arith, get-remove k j m s.1, eq_of_parts i k, eq_of_parts k j, get-Above i m s.0)

-- A map is known by what it holds under each key.
tails_agree :
    {V : Type 0} (k : ℤ) (v w : V) (m n : BTreeMap V)
    → Above k m
    → Above k n
    → ((p : ℤ) → get p ((k, v) ∷ m) ≡ get p ((k, w) ∷ n))
    → (p : ℤ) → get p m ≡ get p n
unfolding get
tails_agree k v w m n a b h p = elim (Bool-cases (int_beq k p)) [
  | inl t ↦ ground (arith, eq_of_parts k p, get-Above k m a, get-Above k n b)
  | inr f ↦ ground (arith, h p)
]

pub ext :
    {V : Type 0} (m n : BTreeMap V)
    → IsSorted m
    → IsSorted n
    → ((p : ℤ) → get p m ≡ get p n)
    → m ≡ n
unfolding get
ext [] [] s t h = refl
ext [] ((k, w) ∷ n) s t h = ground (arith, h k)
ext ((j, v) ∷ m) [] s t h = ground (arith, h j)
ext ((j, v) ∷ m) ((k, w) ∷ n) s t h = elim (three_ways j k) [
  | inl below ↦ ground (arith, h j, get-Above j n (Above-mono j k n below t.0))
  | inr (inl above) ↦ ground (arith, h k, get-Above k m (Above-mono k j m above s.0))
  | inr (inr same) ↦
      let h' : (p : ℤ) → get p ((j, v) ∷ m) ≡ get p ((j, w) ∷ n) =
        subst (λ x. (p : ℤ) → get p ((j, v) ∷ m) ≡ get p ((x, w) ∷ n)) (sym same) h in
      let above : Above j n = subst (λ x. Above x n) (sym same) t.0 in
      ground (arith, h' j, same, ext m n s.1 t.1 (tails_agree j v w m n s.0 above h'))
]
