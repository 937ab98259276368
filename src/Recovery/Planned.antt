-- ===== src/Recovery/Planned.antt =====
-- The plan that `plan_recovery` makes of the files.
use mathlib.Core.List.{append-nil}
use atomic_mesh.Base.{
  ◌≡◌, refl, sym, ◌∙◌, ap, ap₂, true, Option, some, String, string_eq, List, [], All,
}
use atomic_mesh.Base.HashMap.{get}
use atomic_mesh.Core.Event.{Event}
use atomic_mesh.Core.Snapshot.{Bytes, EngineSnapshot, verify}
use atomic_mesh.Replay.Log.{Files, ok, read_all, read_only, read_file, read_events}
use atomic_mesh.Replay.Log.RoundTrip.{Entry, Encodes, frames, events_of, read_file-frames}
use atomic_mesh.Recovery.Plan.{
  RecoveryCoordinator, plan_of, plan_from, plan_recovery, load_file, load_latest_snapshot,
  log_or_empty, latest_path,
}

module _ (serialize : Event → Option Bytes) (deserialize : Bytes → Option Event) where
  pub read_all-frames :
      (files : Files) (path : String) (es : List Entry)
      → All (Encodes serialize deserialize) es
      → get path files ≡ some (frames es)
      → read_all deserialize files (read_only path) ≡ some (ok (events_of es))
  unfolding read_all read_only read_events
  read_all-frames files path es a g =
      let (fuel, _, same) = read_file-frames serialize deserialize es [] a in
      ap (read_file deserialize) (g ∙ ap some (sym (append-nil (frames es)))) ∙ same

  -- The files have a snapshot whose hash is that of its data, and a log of whole frames.
  pub plan_recovery-files :
      (serialize_snapshot : EngineSnapshot → Option Bytes)
      (deserialize_snapshot : Bytes → Option EngineSnapshot) (compute_hash : Bytes → Bytes)
      (r : RecoveryCoordinator) (files : Files) (saved : EngineSnapshot) (bytes : Bytes)
      (es : List Entry)
      → get (latest_path r.snapshot_dir) files ≡ some bytes
      → deserialize_snapshot bytes ≡ some saved
      → verify compute_hash saved ≡ true
      → get r.event_log_path files ≡ some (frames es)
      → All (Encodes serialize deserialize) es
      → plan_recovery serialize_snapshot deserialize_snapshot compute_hash deserialize r files
        ≡ some (ok (plan_of (some saved) (events_of es)))
  unfolding plan_recovery load_latest_snapshot
  plan_recovery-files ss ds h r files saved bytes es latest d v g a =
      let snapshot : load_file ss ds h deserialize (some bytes) ≡ ok (some saved) =
        rw (d, v) refl in
      ap₂ (plan_from ss ds h deserialize) (ap (load_file ss ds h deserialize) latest ∙ snapshot) (
        ap (log_or_empty ss ds h deserialize r files) g
        ∙ read_all-frames files r.event_log_path es a g)
