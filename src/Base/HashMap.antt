-- ===== src/Base/HashMap.antt =====
-- `std::collections::HashMap` as the list of its entries, in the order in which an iterator of the
-- map would visit them; no property of the development picks that order.
use atomic_mesh.Base.{
  ◌≡◌, refl, Bool, true, false, Option, none, some, List, [], ◌∷◌, arith, Eq, ◌==◌, if◌then◌else◌,
  map, All, Bool-cases, inl, inr,
}

abbrev pub HashMap {ℓ κ} : Type ℓ → Type κ → Type (ℓ ⊔ κ)
HashMap K V = List (K × V)

abbrev pub keys {ℓ κ} : {K : Type ℓ} {V : Type κ} → HashMap K V → List K
keys = map (λ e. e.0)

abbrev pub values {ℓ κ} : {K : Type ℓ} {V : Type κ} → HashMap K V → List V
values = map (λ e. e.1)

abbrev pub retain {ℓ κ} : {K : Type ℓ} {V : Type κ} → (V → Bool) → HashMap K V → HashMap K V
retain p [] = []
retain p (e ∷ m) = if p e.1 then e ∷ retain p m else retain p m

module _ {ℓ κ} {K : Type ℓ} {V : Type κ} ⦃e : Eq K⦄ where
  unfoldable pub get : K → HashMap K V → Option V
  get k [] = none
  get k ((j, v) ∷ m) = if j == k then some v else get k m

  abbrev pub contains_key : K → HashMap K V → Bool
  contains_key k m = elim (get k m) [ none ↦ false | some _ ↦ true ]

  -- A key that is there keeps its place.
  unfoldable pub insert : K → V → HashMap K V → HashMap K V
  insert k v [] = (k, v) ∷ []
  insert k v ((j, w) ∷ m) = if j == k then (j, v) ∷ m else (j, w) ∷ insert k v m

  unfoldable pub remove : K → HashMap K V → HashMap K V
  remove k [] = []
  remove k ((j, w) ∷ m) = if j == k then remove k m else (j, w) ∷ remove k m

  pub get_of_contains_key : (k : K) (m : HashMap K V) → contains_key k m ≡ false → get k m ≡ none
  get_of_contains_key k m h = ground arith

  pub get-insert :
      (k j : K) (v : V) (m : HashMap K V)
      → get j (insert k v m) ≡ (if k == j then some v else get j m)
  unfolding get insert
  get-insert k j v [] = refl
  get-insert k j v ((i, w) ∷ m) =
      ground (arith, e.beq_decides k j, e.beq_decides i k, e.beq_decides i j, get-insert k j v m)

  pub get-remove :
      (k j : K) (m : HashMap K V) → get j (remove k m) ≡ (if k == j then none else get j m)
  unfolding get remove
  get-remove k j [] = ground arith
  get-remove k j ((i, w) ∷ m) =
      ground (arith, e.beq_decides k j, e.beq_decides i k, e.beq_decides i j, get-remove k j m)

  -- What holds of every entry survives an insertion of such an entry, and a removal.
  pub All-insert {μ} :
      (P : K × V → Type μ) (k : K) (v : V) (m : HashMap K V)
      → P (k, v)
      → All P m
      → All P (insert k v m)
  unfolding insert
  All-insert P k v [] p a = (p, tt)
  All-insert P k v ((j, w) ∷ m) p a = elim (Bool-cases (j == k)) [
    | inl t ↦ ground (arith, e.beq_decides j k)
    | inr f ↦ rw f (a.0, All-insert P k v m p a.1)
  ]

  -- No key has two entries.
  abbrev pub IsUnique : HashMap K V → Type κ
  IsUnique [] = Unit
  IsUnique ((k, v) ∷ m) = (get k m ≡ none) × IsUnique m

  pub insert-IsUnique : (k : K) (v : V) (m : HashMap K V) → IsUnique m → IsUnique (insert k v m)
  unfolding get insert
  insert-IsUnique k v [] u = (refl, tt)
  insert-IsUnique k v ((j, w) ∷ m) u =
      ground
        (arith, e.beq_decides j k, e.beq_decides k j, get-insert k j v m, insert-IsUnique k v m u.1)

  pub All-remove {μ} : (P : K × V → Type μ) (k : K) (m : HashMap K V) → All P m → All P (remove k m)
  unfolding remove
  All-remove P k [] a = tt
  All-remove P k ((j, w) ∷ m) a = ground (arith, All-remove P k m a.1)

  pub All-get {μ} :
      (P : K × V → Type μ) (k : K) (m : HashMap K V) (v : V) → All P m → get k m ≡ some v → P (k, v)
  unfolding get
  All-get P k [] v a h = cc
  All-get P k ((j, w) ∷ m) v a h = elim (Bool-cases (j == k)) [
    | inl t ↦ ground (arith, e.beq_decides j k)
    | inr f ↦ All-get P k m v a.1 (ground arith)
  ]

pub All-retain {ℓ κ μ} :
    {K : Type ℓ} {V : Type κ} (P : K × V → Type μ) (p : V → Bool) (m : HashMap K V)
    → All P m
    → All P (retain p m)
All-retain P p [] a = tt
All-retain P p (e ∷ m) a = ground (arith, All-retain P p m a.1)
