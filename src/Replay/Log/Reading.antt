-- ===== src/Replay/Log/Reading.antt =====
-- Reading a file of events to its end.
use atomic_mesh.Base.{
  string_eq, ℕ, zero, suc, ◌≤◌, ◌<◌, ◌≡◌, refl, Option, none, some, Option-cases, List, [], ◌∷◌,
  ◌++◌, length, take, drop, ltb, arith, Bool-cases, inl, inr,
}
use atomic_mesh.Base.HashMap.{get}
use atomic_mesh.Core.Event.{Event}
use atomic_mesh.Core.Snapshot.{Bytes}
use atomic_mesh.Replay.Log.{
  Files, EventLog, IoResult, ok, err, unexpected_eof, from_le_bytes, read_events, read_all,
  read_file,
}

length-drop-le {ℓ} : {A : Type ℓ} (n : ℕ) (xs : List A) → length (drop n xs) ≤ length xs
length-drop-le zero xs = omega arith
length-drop-le (suc n) [] = omega arith
length-drop-le (suc n) (x ∷ xs) = omega (arith, length-drop-le n xs)

module _ (deserialize : Bytes → Option Event) where
  read_events-some :
      (fuel : ℕ) (bytes : Bytes) (events : List Event)
      → length bytes < fuel
      → (r : IoResult (List Event)) × (read_events deserialize fuel bytes events ≡ some r)
  unfolding read_events
  read_events-some zero bytes events h = absurd (omega arith)
  read_events-some (suc fuel) [] events h = (ok events, refl)
  read_events-some (suc fuel) (a ∷ []) events h = (ok events, refl)
  read_events-some (suc fuel) (a ∷ b ∷ []) events h = (ok events, refl)
  read_events-some (suc fuel) (a ∷ b ∷ c ∷ []) events h = (ok events, refl)
  read_events-some (suc fuel) (a ∷ b ∷ c ∷ d ∷ rest) events h =
      let len : ℕ = from_le_bytes a b c d in
      elim (Bool-cases (ltb (length rest) len)) [
        | inl torn ↦ rw torn (err unexpected_eof, refl)
        | inr whole ↦ rw whole (elim (Option-cases (deserialize (take len rest))) [
          | inl bad ↦ rw bad (_, refl)
          | inr (e, good) ↦ rw good (
              read_events-some fuel (drop len rest) (events ++ e ∷ [])
                (omega (arith, length-drop-le len rest)))
        ])
      ]

  -- Reading a log ends for every file, whatever bytes it holds: the fuel, one more than the file's
  -- length, is enough.
  pub read_all-some :
      (files : Files) (log : EventLog)
      → (r : IoResult (List Event)) × (read_all deserialize files log ≡ some r)
  unfolding read_all
  read_all-some files log = read_file-some (get log.path files)
    where
      read_file-some :
          (file : Option Bytes)
          → (r : IoResult (List Event)) × (read_file deserialize file ≡ some r)
      read_file-some none = (_, refl)
      read_file-some (some bytes) = read_events-some (suc (length bytes)) bytes [] (omega arith)
