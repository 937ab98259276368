-- ===== src/Recovery/Saved.antt =====
-- Saving a snapshot, interrupted at any point.
use atomic_mesh.Base.{
  ℕ, zero, suc, ◌≤◌, ◌<◌, ◌≡◌, ◌≢◌, refl, sym, ◌∙◌, ap, ◌⊎◌, inl, inr, true, false, Option, some,
  String, string_eq, List, [], ◌∷◌, take, arith, ◌==◌, str_append, beq_refl, Bool-cases,
}
use atomic_mesh.Base.HashMap.{get, insert, remove, get-insert, get-remove}
use atomic_mesh.Base.Decimal.{show_u64, head_code, head_code-show_u64}
use atomic_mesh.Core.Event.{Event}
use atomic_mesh.Core.Snapshot.{Bytes, EngineSnapshot, verify}
use atomic_mesh.Replay.Log.{Files, ok}
use atomic_mesh.Recovery.Plan.{
  RecoveryCoordinator, FileOp, write, rename, run_op, run_ops, and_run, renamed, save_ops,
  numbered_path, latest_path, tmp, load_file, load_latest_snapshot,
}

-- The names of the files.
append-cancel : (d s t : String) → str_append d s ≡ str_append d t → s ≡ t
append-cancel String.[] s t e = e
append-cancel (String.◌∷◌ c d) s t e = append-cancel d s t (ap tail_of e)
  where
    tail_of : String → String
    tail_of String.[] = String.[]
    tail_of (String.◌∷◌ c s) = s

append_assoc : (s t u : String) → str_append (str_append s t) u ≡ str_append s (str_append t u)
append_assoc String.[] t u = refl
append_assoc (String.◌∷◌ c s) t u = ap (String.◌∷◌ c) (append_assoc s t u)

numbered_other :
    (dir : String) (seq : ℕ) (ending : String)
    → head_code ending < 58
    → str_append dir (str_append "/snapshot_" (str_append (show_u64 seq) ending)) ≢ latest_path dir
unfolding latest_path
numbered_other dir seq ending h e =
    let same : str_append (show_u64 seq) ending ≡ "latest.bin" =
      append-cancel "/snapshot_" (str_append (show_u64 seq) ending) "latest.bin"
        (append-cancel dir _ _ e) in
    omega (arith, head_code-show_u64 seq ending h, ap head_code same)

numbered_path-other : (dir : String) (seq : ℕ) → numbered_path dir seq ≢ latest_path dir
unfolding numbered_path
numbered_path-other dir seq = numbered_other dir seq ".bin" (omega arith)

tmp-numbered_path-other : (dir : String) (seq : ℕ) → tmp (numbered_path dir seq) ≢ latest_path dir
unfolding numbered_path
tmp-numbered_path-other dir seq e = numbered_other dir seq ".bin.tmp" (omega arith) (
    sym (
      append_assoc dir (str_append "/snapshot_" (str_append (show_u64 seq) ".bin")) ".tmp"
      ∙ ap (λ s. str_append dir (str_append "/snapshot_" s))
          (append_assoc (show_u64 seq) ".bin" ".tmp"))
    ∙ e)

tmp-latest_path-other : (dir : String) → tmp (latest_path dir) ≢ latest_path dir
unfolding latest_path
tmp-latest_path-other dir e =
    let same : ".tmp" ≡ String.[] =
      append-cancel "/snapshot_latest.bin" ".tmp" String.[]
        (append-cancel dir _ _ (sym (append_assoc dir "/snapshot_latest.bin" ".tmp") ∙ e)) in
    omega (arith, ap head_code same)

beq_other : (a b : String) → a ≢ b → (a == b) ≡ false
beq_other a b h = elim (Bool-cases (a == b)) [
  | inl same ↦ absurd (h ((string_eq.beq_decides a b).0 same))
  | inr other ↦ other
]

-- The first `n` operations, and of the next one, where it writes a file, its first `k` bytes.
abbrev pub interrupted : ℕ → ℕ → List FileOp → List FileOp
interrupted n k [] = []
interrupted zero k (write path bytes ∷ ops) = write path (take k bytes) ∷ []
interrupted zero k (rename from to ∷ ops) = []
interrupted (suc n) k (op ∷ ops) = op ∷ interrupted n k ops

get-insert_other :
    (path other : String) (bytes : Bytes) (files : Files)
    → path ≢ other
    → get other (insert path bytes files) ≡ get other files
get-insert_other path other bytes files h =
    get-insert path other bytes files ∙ rw (beq_other path other h) refl

get-insert_same :
    (path : String) (bytes : Bytes) (files : Files)
    → get path (insert path bytes files) ≡ some bytes
get-insert_same path bytes files = get-insert path path bytes files ∙ rw (beq_refl path) refl

-- A file that is written under another name and then given a third one.
moved : String → String → Bytes → Files → Files
moved from to bytes files = insert to bytes (remove from (insert from bytes files))

run_rename :
    (from to : String) (bytes : Bytes) (files : Files)
    → run_op (rename from to) (insert from bytes files) ≡ ok (moved from to bytes files)
unfolding run_op moved
run_rename from to bytes files =
    ap (renamed from to (insert from bytes files)) (get-insert_same from bytes files)

get-moved_other :
    (from to other : String) (bytes : Bytes) (files : Files)
    → from ≢ other
    → to ≢ other
    → get other (moved from to bytes files) ≡ get other files
unfolding moved
get-moved_other from to other bytes files h k =
    get-insert_other to other bytes (remove from (insert from bytes files)) k
    ∙ get-remove from other (insert from bytes files)
    ∙ rw (beq_other from other h) (get-insert_other from other bytes files h)

module _ (latest t n t' : String) (a : t ≢ latest) (b : n ≢ latest) (c : t' ≢ latest)
    (bytes : Bytes) where
  ops : List FileOp
  ops = write t bytes ∷ rename t n ∷ write t' bytes ∷ rename t' latest ∷ []

  -- The first two operations, and what they leave.
  first_file : Files → Files
  first_file files = moved t n bytes files

  get-first_file : (files : Files) → get latest (first_file files) ≡ get latest files
  unfolding first_file
  get-first_file files = get-moved_other t n latest bytes files a b

  run_first :
      (rest : List FileOp) (files : Files)
      → run_ops (write t bytes ∷ rename t n ∷ rest) files ≡ run_ops rest (first_file files)
  unfolding run_ops run_op first_file moved
  run_first rest files = ap (λ r. and_run r (run_ops rest)) (run_rename t n bytes files)

  run_last :
      (files : Files)
      → run_ops (rename t' latest ∷ []) (insert t' bytes files) ≡ ok (moved t' latest bytes files)
  unfolding run_ops run_op moved
  run_last files = ap (λ r. and_run r (run_ops [])) (run_rename t' latest bytes files)

  -- What is under the name of the latest snapshot after an interruption: what was there, or the new
  -- bytes, and these once all is done.
  abbrev Kept : ℕ → Files → Files → Type 0
  Kept done files files' =
      ((get latest files' ≡ get latest files) ⊎ (get latest files' ≡ some bytes))
      × (4 ≤ done → get latest files' ≡ some bytes)

  interrupted-Kept :
      (done k : ℕ) (files : Files)
      → (files' : Files) × (run_ops (interrupted done k ops) files ≡ ok files')
        × Kept done files files'
  unfolding ops run_ops run_op
  interrupted-Kept zero k files =
      (_, refl, (inl (get-insert_other t latest (take k bytes) files a), λ m. absurd (omega arith)))
  interrupted-Kept (suc zero) k files =
      (_, refl, (inl (get-insert_other t latest bytes files a), λ m. absurd (omega arith)))
  interrupted-Kept (suc (suc zero)) k files = (
    _,
    run_first (write t' (take k bytes) ∷ []) files,
    (
      inl (get-insert_other t' latest (take k bytes) (first_file files) c ∙ get-first_file files),
      λ m. absurd (omega arith),
    ),
  )
  interrupted-Kept (suc (suc (suc zero))) k files = (
    _,
    run_first (write t' bytes ∷ []) files,
    (
      inl (get-insert_other t' latest bytes (first_file files) c ∙ get-first_file files),
      λ m. absurd (omega arith),
    ),
  )
  interrupted-Kept (suc (suc (suc (suc done)))) k files =
      let latest_is : get latest (moved t' latest bytes (first_file files)) ≡ some bytes =
        unfold moved in
        get-insert_same latest bytes (remove t' (insert t' bytes (first_file files))) in
      (
        moved t' latest bytes (first_file files),
        run_first (write t' bytes ∷ rename t' latest ∷ []) files ∙ run_last (first_file files),
        (inr latest_is, λ m. latest_is),
      )

module _ (deserialize : Bytes → Option EngineSnapshot) (compute_hash : Bytes → Bytes) where
  -- Wherever saving a snapshot is interrupted, after any number of its operations and in the middle of
  -- a write, `load_latest_snapshot` gives what it gave before or the new snapshot, and it gives the new
  -- one after all four operations. The bytes that are saved are read back as the snapshot, whose hash
  -- is that of its data.
  pub save_ops-atomic :
      (deserialize_event : Bytes → Option Event) (serialize : EngineSnapshot → Option Bytes)
      (r : RecoveryCoordinator) (snapshot : EngineSnapshot) (bytes : Bytes) (done k : ℕ)
      (files : Files)
      → deserialize bytes ≡ some snapshot
      → verify compute_hash snapshot ≡ true
      → let load = load_latest_snapshot serialize deserialize compute_hash deserialize_event r in
        (files' : Files) × (run_ops
            (interrupted done k (save_ops r.snapshot_dir snapshot.seq bytes))
            files
          ≡ ok files')
        × ((load files' ≡ load files) ⊎ (load files' ≡ ok (some snapshot)))
        × (4 ≤ done → load files' ≡ ok (some snapshot))
  unfolding load_latest_snapshot save_ops ops
  save_ops-atomic deserialize_event serialize r snapshot bytes done k files d v =
      let dir = r.snapshot_dir in
      let latest = latest_path dir in
      let (files', run, (kept, whole)) =
        interrupted-Kept latest (tmp (numbered_path dir snapshot.seq))
          (numbered_path dir snapshot.seq) (tmp latest) (tmp-numbered_path-other dir snapshot.seq)
          (numbered_path-other dir snapshot.seq) (tmp-latest_path-other dir) bytes done k files in
      let loads = load_file serialize deserialize compute_hash deserialize_event in
      let new : loads (some bytes) ≡ ok (some snapshot) = rw (d, v) refl in
      (
        files',
        run,
        elim kept [ inl old ↦ inl (ap loads old) | inr saved ↦ inr (ap loads saved ∙ new) ],
        λ m. ap loads (whole m) ∙ new,
      )
