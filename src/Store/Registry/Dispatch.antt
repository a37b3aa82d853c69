-- ===== src/Store/Registry/Dispatch.antt =====
-- src/store.rs: what a dispatch of a process manager's command has committed when it succeeds.
use eventfold_es.Prelude.{
  ℕ, String, ◌≡◌, refl, sym, ap, ◌∙◌, inl, inr, none, some, List, [], ◌∷◌, ok, Bool-cases,
  Result-cases,
}
use eventfold_es.Runtime.{Runtime, RuntimeLaws}
use eventfold_es.Command.{CommandContext, CommandEnvelope}
use eventfold_es.Aggregate.{Aggregate, IsAdjacentlyTagged}
use eventfold_es.Event.{stream_uuid}
use eventfold_es.Io.{FilePath}
use eventfold_es.Actor.Ops.{EventStoreOps}
use eventfold_es.Actor.Execute.{Actor, Request, Reply, execute_with_retry}
use eventfold_es.Actor.Lifecycle.{Context, Received, Task, answer_execute, serve}
use eventfold_es.Actor.Submit.{IsCommitted}
use eventfold_es.Actor.Commit.{execute_with_retry-IsCommitted}
use eventfold_es.Actor.Service.{answer_execute-actor}
use eventfold_es.Actor.Handle.{
  Cell, Fleet, at, is_running, receive, woken, handle_execute, executed_reply,
}
use eventfold_es.Actor.Fleet.{IsStore, All-at, IsCoherentCell, AreCoherent, receive-AreCoherent}
use eventfold_es.Store.Registry.{Registry, get, meanwhile, dispatch}
use eventfold_es.Store.Registry.Tidy.{IsTidy}
use eventfold_es.Store.Registry.Get.{IsLoadable, meanwhile-context, get-Names, get-AreCoherent}

module _ (X : Runtime) (A : Aggregate X) (S : EventStoreOps X) where
  -- A caller gets a result only from a task that has answered.
  answered :
      (reply : Reply X A S) (t : Task X A S) (es : List A.DomainEvent)
      → t.answers ≡ []
      → executed_reply X A S (answer_execute X A S reply t).answers ≡ ok es
      → reply ≡ some (ok es)
  unfolding answer_execute executed_reply
  answered none t es fresh h = cc (rw fresh at h)
  answered (some result) t es fresh h = cc (rw fresh at h)

  module _ (V : IsStore X S) (laws : RuntimeLaws X)
      (tagged : (e : A.DomainEvent) → IsAdjacentlyTagged X A e) where
    meanwhile-AreCoherent :
        (base_dir : FilePath) (between : List (ℕ × Received X A)) (r : Registry X A S)
        → AreCoherent X A S V r.fleet
        → AreCoherent X A S V (meanwhile X A S base_dir between r).fleet
    unfolding meanwhile
    meanwhile-AreCoherent base_dir [] r h = h
    meanwhile-AreCoherent base_dir ((handle, m) ∷ rest) r h =
        meanwhile-AreCoherent base_dir rest _
          (receive-AreCoherent X A S V laws tagged handle m r.fleet h)

    -- The run of a command on a stream.
    abbrev pub HasCommitted :
        X.Uuid → String → A.Command → CommandContext X → List A.DomainEvent → Actor X A S → Type 0
    HasCommitted stream id cmd ctx =
        IsCommitted X A S
          (record { stream_id = stream; instance_id = id; command = cmd; context = ctx })
          (V.one stream)

    HasCommitted-named :
        (stream other : X.Uuid) (id name : String) (cmd : A.Command) (ctx : CommandContext X)
        (es : List A.DomainEvent) (a : Actor X A S)
        → stream ≡ other
        → id ≡ name
        → HasCommitted stream id cmd ctx es a
        → HasCommitted other name cmd ctx es a
    HasCommitted-named stream other id name cmd ctx es a same called h = rw (← same, ← called) h

    -- A command that an actor answers with events has committed them.
    handle_execute-ok :
        (handle : ℕ) (cmd : A.Command) (ctx : CommandContext X) (f : Fleet X A S) (c : Cell X A)
        (es : List A.DomainEvent)
        → at handle f.cells ≡ some c
        → AreCoherent X A S V f
        → (handle_execute X A S handle cmd ctx f).0 ≡ ok es
        → (a : Actor X A S) × HasCommitted c.context.stream_id c.context.instance_id cmd ctx es a
          × (a.store ≡ (handle_execute X A S handle cmd ctx f).1.world)
    unfolding handle_execute receive serve woken executed_reply
    handle_execute-ok handle cmd ctx f c es e h done = elim (Bool-cases (is_running c.progress)) [
      | inr dead ↦ cc (rw (e, dead, receive, executed_reply) at done)
      | inl live ↦
          let r : Request X A = record {
            stream_id = c.context.stream_id;
            instance_id = c.context.instance_id;
            command = cmd;
            context = ctx;
          } in
          let t = woken X A S c f in
          let out = execute_with_retry X A S r t.actor in
          let replied =
            answered out.0 (record t { actor = out.1 }) es refl (rw (e, live, receive) at done) in
          let coherent = All-at (IsCoherentCell X A S V f.world) handle f.cells c h e in
          (
            out.1,
            execute_with_retry-IsCommitted X A S r (V.one c.context.stream_id) laws tagged es
                t.actor coherent replied,
            rw (e, live, receive)
                (sym (
                  ap (λ (a : Actor X A S). a.store)
                    (answer_execute-actor out.0 (record t { actor = out.1 })))),
          )
    ]

    -- If the instance's snapshot on disk can be trusted and the actors are coherent, then a dispatch
    -- that succeeds has decoded the envelope's command and committed it: some run of the command on
    -- the instance's own stream, with the envelope's context, leaves the store's server with what
    -- `IsCommitted` says, whatever the actors receive in the meantime. The aggregate's events are
    -- adjacently tagged, and their contents survive their JSON text.
    pub dispatch-IsCommitted :
        (base_dir : FilePath) (between : List (ℕ × Received X A)) (envelope : CommandEnvelope X)
        (r : Registry X A S)
        → IsTidy X A S base_dir r
        → IsLoadable X A S base_dir V envelope.instance_id r.fleet
        → AreCoherent X A S V r.fleet
        → (dispatch X A S base_dir between envelope r).0 ≡ ok tt
        → (cmd : A.Command) × (es : List A.DomainEvent) × (a : Actor X A S) × (A.command_from_value
              envelope.command
            ≡ ok cmd)
          × HasCommitted
              (stream_uuid X A.aggregate_type envelope.instance_id)
              envelope.instance_id
              cmd
              envelope.context
              es
              a
          × (a.store ≡ (dispatch X A S base_dir between envelope r).1.fleet.world)
    unfolding dispatch
    dispatch-IsCommitted base_dir between envelope r tidy loads coherent done =
        let id = envelope.instance_id in
        let got = get X A S base_dir id r in
        elim (Result-cases (A.command_from_value envelope.command)) [
          | inr (e, q) ↦ cc (rw (q, dispatch) at done)
          | inl (cmd, q) ↦ elim (Result-cases got.0) [
            | inr (status, g) ↦ cc (rw (q, g, dispatch) at done)
            | inl (handle, g) ↦
                let (c1, here1, live, named) = get-Names X A S base_dir id r handle tidy g in
                let (c, here, same) =
                  meanwhile-context X A S base_dir between handle got.1 c1 here1 in
                let r2 = meanwhile X A S base_dir between got.1 in
                let ready =
                  meanwhile-AreCoherent base_dir between got.1
                    (get-AreCoherent X A S base_dir V id r loads coherent) in
                let ran = handle_execute X A S handle cmd envelope.context r2.fleet in
                elim (Result-cases ran.0) [
                  | inr (e, x) ↦ cc (rw (q, g, x, dispatch) at done)
                  | inl (es, x) ↦
                      let (a, committed, stored) =
                        handle_execute-ok handle cmd envelope.context r2.fleet c es here ready x in
                      (
                        cmd,
                        es,
                        a,
                        q,
                        HasCommitted-named c.context.stream_id (stream_uuid X A.aggregate_type id)
                            c.context.instance_id id cmd envelope.context es a
                            (ap (λ (y : Context X). y.stream_id) same ∙ named.1)
                            (ap (λ (y : Context X). y.instance_id) same ∙ named.0) committed,
                        rw (q, g, x, dispatch) stored,
                      )
                ]
          ]
        ]
