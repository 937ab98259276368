-- ===== src/Node/Followed.antt =====
-- A node that follows others: what it processes is what it logs.
use mathlib.Core.List.{append-nil, append_assoc}
use atomic_mesh.Base.{
  ◌≡◌, refl, sym, ◌∙◌, ap, subst, Option, some, String, List, [], ◌∷◌, ◌++◌, All,
}
use atomic_mesh.Core.Event.{Event}
use atomic_mesh.Core.Snapshot.{Bytes, EngineSnapshot}
use atomic_mesh.Execution.Engine.{process_event, process_all}
use atomic_mesh.Execution.Verifier.{StateVerifier}
use atomic_mesh.Recovery.Plan.{RecoveryCoordinator}
use atomic_mesh.Replay.Log.{append, frame}
use atomic_mesh.Replay.Log.RoundTrip.{Entry, Encodes, frames, events_of}
use atomic_mesh.Node.Mesh.{
  MeshMessage, event_replication, event_batch, heartbeat, sync_request, sync_response,
  snapshot_broadcast, hash_verify, consensus_vote, node_announce, Follower, apply_event,
  apply_events, log_or_keep, handle_mesh_message,
}

-- The events that a message carries.
abbrev pub received : MeshMessage → List Event
received (event_replication event) = event ∷ []
received (event_batch events) = events
received (sync_response events) = events
received _ = []

abbrev pub received_all : List MeshMessage → List Event
received_all [] = []
received_all (m ∷ ms) = received m ++ received_all ms

module _ (serialize : Event → Option Bytes) (deserialize : Bytes → Option Event) where
  -- What a follower has processed and logged after these events.
  record Applied (f f' : Follower) (pending : Bytes) (es : List Entry) : Type 0 where
    processed : f'.execution ≡ process_all f.execution (events_of es)
    logged : f'.event_log.writer ≡ some (pending ++ frames es)

  apply_event-logged :
      (f : Follower) (e : Entry) (pending : Bytes)
      → f.event_log.writer ≡ some pending
      → Encodes serialize deserialize e
      → (apply_event serialize f e.0).event_log.writer ≡ some (pending ++ frame e.1)
  unfolding apply_event append
  apply_event-logged f e pending w c = rw (w, c.0) refl

  apply_events-Applied :
      (es : List Entry) (f : Follower) (pending : Bytes)
      → f.event_log.writer ≡ some pending
      → All (Encodes serialize deserialize) es
      → Applied f (apply_events serialize f (events_of es)) pending es
  unfolding apply_events apply_event process_all
  apply_events-Applied [] f pending w a = record {
    processed = refl;
    logged = w ∙ ap some (sym (append-nil pending));
  }
  apply_events-Applied (e ∷ es) f pending w a =
      let rest =
        apply_events-Applied es (apply_event serialize f e.0) (pending ++ frame e.1)
          (apply_event-logged f e pending w a.0) a.1 in
      record {
        processed = rest.processed;
        logged = rest.logged ∙ ap some (append_assoc pending (frame e.1) (frames es));
      }

  module _ (serialize_snapshot : EngineSnapshot → Option Bytes)
      (deserialize_snapshot : Bytes → Option EngineSnapshot) (compute_hash : Bytes → Bytes)
      (hex : Bytes → String) (v : StateVerifier) (r : RecoveryCoordinator) where
    abbrev pub handle : MeshMessage → Follower → Follower
    handle m f =
        (handle_mesh_message serialize deserialize serialize_snapshot deserialize_snapshot
          compute_hash hex m f v r).0

    -- The messages one after the other.
    abbrev pub handle_all : List MeshMessage → Follower → Follower
    handle_all [] f = f
    handle_all (m ∷ ms) f = handle_all ms (handle m f)

    record Alike (f g : Follower) : Type 0 where
      execution : f.execution ≡ g.execution
      event_log : f.event_log ≡ g.event_log

    handle-received :
        (m : MeshMessage) (f : Follower)
        → Alike (handle m f) (apply_events serialize f (received m))
    unfolding handle_mesh_message apply_events
    handle-received (event_replication event) f = record { execution = refl; event_log = refl }
    handle-received (event_batch events) f = record { execution = refl; event_log = refl }
    handle-received (heartbeat _ _ _ _) f = record { execution = refl; event_log = refl }
    handle-received (sync_request _ _) f = record { execution = refl; event_log = refl }
    handle-received (sync_response events) f = record { execution = refl; event_log = refl }
    handle-received (snapshot_broadcast _) f = record { execution = refl; event_log = refl }
    handle-received (hash_verify _ _) f = record { execution = refl; event_log = refl }
    handle-received (consensus_vote _ _ _) f = record { execution = refl; event_log = refl }
    handle-received (node_announce _ _ _) f = record { execution = refl; event_log = refl }

    apply_events-Alike :
        (xs : List Event) (f g : Follower)
        → Alike f g
        → Alike (apply_events serialize f xs) (apply_events serialize g xs)
    unfolding apply_events apply_event
    apply_events-Alike [] f g a = a
    apply_events-Alike (x ∷ xs) f g a =
        apply_events-Alike xs (apply_event serialize f x) (apply_event serialize g x) (record {
          execution = ap (λ e. (process_event e x).0) a.execution;
          event_log = ap (λ l. log_or_keep serialize l (append serialize l x)) a.event_log;
        })

    apply_events-append :
        (xs ys : List Event) (f : Follower)
        → apply_events serialize f (xs ++ ys)
          ≡ apply_events serialize (apply_events serialize f xs) ys
    unfolding apply_events
    apply_events-append [] ys f = refl
    apply_events-append (x ∷ xs) ys f = apply_events-append xs ys (apply_event serialize f x)

    handle_all-received :
        (ms : List MeshMessage) (f : Follower)
        → Alike (handle_all ms f) (apply_events serialize f (received_all ms))
    handle_all-received [] f = unfold apply_events in record { execution = refl; event_log = refl }
    handle_all-received (m ∷ ms) f =
        let now = apply_events-Alike (received_all ms) _ _ (handle-received m f) in
        let later = handle_all-received ms (handle m f) in
        subst (Alike (handle_all ms (handle m f)))
          (sym (apply_events-append (received m) (received_all ms) f))
          (record {
            execution = later.execution ∙ now.execution;
            event_log = later.event_log ∙ now.event_log;
          })

    -- Whatever messages come from other nodes, in whatever order, the engine has processed the events
    -- that they carry, and the log has their encodings behind what it had, both in the order in which
    -- they came, and nothing else. The encoding of each event is read back as that event and is
    -- shorter than 2 ^ 32 bytes, and the log is open for writing.
    pub handle_all_lem :
        (ms : List MeshMessage) (f : Follower) (es : List Entry) (pending : Bytes)
        → received_all ms ≡ events_of es
        → All (Encodes serialize deserialize) es
        → f.event_log.writer ≡ some pending
        → ((handle_all ms f).execution ≡ process_all f.execution (received_all ms))
          × ((handle_all ms f).event_log.writer ≡ some (pending ++ frames es))
    handle_all_lem ms f es pending carried a w =
        let alike =
          subst (λ xs. Alike (handle_all ms f) (apply_events serialize f xs)) carried
            (handle_all-received ms f) in
        let done = apply_events-Applied es f pending w a in
        (
          alike.execution ∙ done.processed ∙ ap (process_all f.execution) (sym carried),
          ap (λ l. l.writer) alike.event_log ∙ done.logged,
        )
