-- ===== src/Replay/Player/Batches.antt =====
-- Batches leave out nothing.
use atomic_mesh.Base.{
  ℕ, zero, suc, ◌+◌, ◌-◌, ◌^◌, ◌≤◌, ◌<◌, ◌≡◌, refl, sym, ◌∙◌, ap, ap₂, inl, inr, List, [], ◌∷◌,
  ◌++◌, length, take, drop, min, arith, leb, leb→le, Bool-cases,
}
use atomic_mesh.Base.Word.{u64, sum}
use atomic_mesh.Core.Event.{Event}
use atomic_mesh.Replay.Player.{ReplayPlayer, next_batch}

zero-add : (n : ℕ) → zero + n ≡ n
zero-add n = omega arith

suc-add : (m n : ℕ) → suc m + n ≡ suc (m + n)
suc-add m n = omega arith

module _ {ℓ} {A : Type ℓ} where
  take_le : (n : ℕ) (xs : List A) → length xs ≤ n → take n xs ≡ xs
  take_le zero [] h = refl
  take_le zero (x ∷ xs) h = absurd (omega (arith, h))
  take_le (suc n) [] h = refl
  take_le (suc n) (x ∷ xs) h = ap (◌∷◌ x) (take_le n xs (omega (arith, h)))

  drop_le : (n : ℕ) (xs : List A) → length xs ≤ n → drop n xs ≡ []
  drop_le zero [] h = refl
  drop_le zero (x ∷ xs) h = absurd (omega (arith, h))
  drop_le (suc n) [] h = refl
  drop_le (suc n) (x ∷ xs) h = drop_le n xs (omega (arith, h))

  length-drop : (n : ℕ) (xs : List A) → length (drop n xs) ≡ length xs - n
  length-drop zero xs = omega arith
  length-drop (suc n) [] = omega arith
  length-drop (suc n) (x ∷ xs) = omega (arith, length-drop n xs)

  take_add : (m n : ℕ) (xs : List A) → take (m + n) xs ≡ take m xs ++ take n (drop m xs)
  take_add zero n xs = ap (λ k. take k xs) (zero-add n)
  take_add (suc m) n [] = ap (λ k. take k []) (suc-add m n) ∙ sym (take_le n [] (omega arith))
  take_add (suc m) n (x ∷ xs) =
      ap (λ k. take k (x ∷ xs)) (suc-add m n) ∙ ap (◌∷◌ x) (take_add m n xs)

  drop_add : (m n : ℕ) (xs : List A) → drop (m + n) xs ≡ drop n (drop m xs)
  drop_add zero n xs = ap (λ k. drop k xs) (zero-add n)
  drop_add (suc m) n [] = ap (λ k. drop k []) (suc-add m n) ∙ sym (drop_le n [] (omega arith))
  drop_add (suc m) n (x ∷ xs) = ap (λ k. drop k (x ∷ xs)) (suc-add m n) ∙ drop_add m n xs

-- The events of a number of batches of the sizes given, one behind the other.
abbrev pub batches : ReplayPlayer → List ℕ → List Event
batches p [] = []
batches p (n ∷ ns) = (next_batch p n).1 ++ batches (next_batch p n).0 ns

next_batch_lem :
    (p : ReplayPlayer) (n : ℕ)
    → p.current_index ≤ length p.events
    → p.current_index + n < 2 ^ 64
    → ((next_batch p n).1 ≡ take n (drop p.current_index p.events))
      × (drop (next_batch p n).0.current_index p.events ≡ drop n (drop p.current_index p.events))
      × ((next_batch p n).0.current_index ≤ length p.events)
      × ((next_batch p n).0.current_index ≤ p.current_index + n)
unfolding next_batch
next_batch_lem p n i b =
    let at = p.current_index in
    let rest : List Event = drop at p.events in
    let left : length rest ≡ length p.events - at = length-drop at p.events in
    elim (Bool-cases (leb (at + n) (length p.events))) [
      | inl inside ↦
          let end : min (u64 (at + n)) (length p.events) ≡ at + n =
            omega (arith, leb→le (at + n) (length p.events) inside) in
          (
            ap (λ k. take (k - at) rest) end ∙ ap (λ k. take k rest) (omega arith),
            ap (λ k. drop k p.events) end ∙ drop_add at n p.events,
            omega arith,
            omega arith,
          )
      | inr beyond ↦
          let past : length p.events < at + n = ground arith in
          let end : min (u64 (at + n)) (length p.events) ≡ length p.events = omega arith in
          (
            ap (λ k. take (k - at) rest) end
                ∙ take_le (length p.events - at) rest (omega arith)
                ∙ sym (take_le n rest (omega arith)),
            ap (λ k. drop k p.events) end
                ∙ drop_le (length p.events) p.events (omega arith)
                ∙ sym (drop_le n rest (omega arith)),
            omega arith,
            omega arith,
          )
    ]

-- Batches leave out no event and give none twice: whatever their sizes, one behind the other they
-- are the events from the player's position on, as many as the sizes sum up to; the position is
-- within the events, and stays below 2 ^ 64.
pub batches_lem :
    (p : ReplayPlayer) (ns : List ℕ)
    → p.current_index ≤ length p.events
    → p.current_index + sum ns < 2 ^ 64
    → batches p ns ≡ take (sum ns) (drop p.current_index p.events)
batches_lem p [] i b = refl
batches_lem p (n ∷ ns) i b =
    let rest : List Event = drop p.current_index p.events in
    let (batch, later, within, near) = next_batch_lem p n i (omega arith) in
    let same : (next_batch p n).0.events ≡ p.events = unfold next_batch in refl in
    let ih : batches (next_batch p n).0 ns
        ≡ take (sum ns) (drop (next_batch p n).0.current_index (next_batch p n).0.events) =
      batches_lem (next_batch p n).0 ns (unfold next_batch in within) (omega arith) in
    ap₂ (◌++◌) batch (
      ih
      ∙ ap (λ es. take (sum ns) (drop (next_batch p n).0.current_index es)) same
      ∙ ap (take (sum ns)) later)
    ∙ sym (take_add n (sum ns) rest)
