-- ===== src/Actor/Handle.antt =====
-- src/actor.rs, `AggregateHandle`: the running tasks of one aggregate type, and the calls that send
-- a message over a task's channel and await its reply. A handle is the number of its task; messages
-- that are queued before a call's own are messages that the task receives before it.
use eventfold_es.Prelude.{
  ℕ, zero, suc, Bool, true, false, Option, none, some, List, [], ◌∷◌, Result, err,
}
use eventfold_es.Runtime.{Runtime}
use eventfold_es.Command.{CommandContext}
use eventfold_es.Aggregate.{Aggregate}
use eventfold_es.Event.{ProposedEventData}
use eventfold_es.Error.{ExecuteError, StateError}
use eventfold_es.Io.{Disk}
use eventfold_es.Actor.Ops.{EventStoreOps}
use eventfold_es.Actor.Lifecycle.{
  Context, Received, execute, get_state, inject, Answer, executed, state, injected, Progress,
  running, stopped, panicked, Task, serve,
}

-- What a task keeps between two messages.
pub record Cell (X : Runtime) (A : Aggregate X) : Type 0 where
  pub context : Context X
  pub state : A.State
  pub stream_version : Option ℕ
  pub progress : Progress

-- The tasks in the order of their spawning, with the server and the disk that they share.
pub record Fleet (X : Runtime) (A : Aggregate X) (S : EventStoreOps X) : Type 0 where
  pub cells : List (Cell X A)
  pub world : S.W
  pub disk : Disk X.Bytes

-- A list read and written at an index; nothing is written out of range.
unfoldable pub at {ℓ} : {B : Type ℓ} → ℕ → List B → Option B
at n [] = none
at zero (b ∷ bs) = some b
at (suc n) (b ∷ bs) = at n bs

unfoldable pub put {ℓ} : {B : Type ℓ} → ℕ → B → List B → List B
put n x [] = []
put zero x (b ∷ bs) = x ∷ bs
put (suc n) x (b ∷ bs) = b ∷ put n x bs

unfoldable pub is_running : Progress → Bool
is_running running = true
is_running stopped = false
is_running panicked = false

module _ (X : Runtime) (A : Aggregate X) (S : EventStoreOps X) where
  -- The task at work, with the shared parts in its hands.
  unfoldable pub woken : Cell X A → Fleet X A S → Task X A S
  woken c f = record {
    actor = record { store = f.world; state = c.state; stream_version = c.stream_version };
    disk = f.disk;
    answers = [];
    progress = running;
  }

  unfoldable pub asleep : Context X → Task X A S → Cell X A
  asleep c t = record {
    context = c;
    state = t.actor.state;
    stream_version = t.actor.stream_version;
    progress = t.progress;
  }

  -- The task of a handle receives a message and serves it; a task that has ended receives nothing.
  unfoldable pub receive : ℕ → Received X A → Fleet X A S → List (Answer X A) × Fleet X A S
  unfolding at put is_running woken asleep
  receive handle m f = elim (at handle f.cells) [
    | none ↦ ([], f)
    | some c ↦
        let t = serve X A S c.context m (woken c f) in
        elim (is_running c.progress) [
          | false ↦ ([], f)
          | true ↦ (
            t.answers,
            record {
              cells = put handle (asleep c.context t) f.cells;
              world = t.actor.store;
              disk = t.disk;
            },
          )
        ]
  ]

  -- What comes over the `oneshot` channel: a task that drops the sender leaves the caller an error.
  unfoldable pub executed_reply :
      List (Answer X A) → Result (List A.DomainEvent) (ExecuteError X A.Error)
  executed_reply (executed result ∷ rest) = result
  executed_reply _ = err ExecuteError.actor_gone

  state_reply : List (Answer X A) → Result A.State (StateError X)
  state_reply (state result ∷ rest) = result
  state_reply _ = err StateError.actor_gone

  injected_reply : List (Answer X A) → Result (Unit {0}) X.Status
  injected_reply (injected result ∷ rest) = result
  injected_reply _ = err (X.cancelled "actor gone")

  -- AggregateHandle::execute
  unfoldable pub handle_execute :
      ℕ
      → A.Command
      → CommandContext X
      → Fleet X A S
      → Result (List A.DomainEvent) (ExecuteError X A.Error) × Fleet X A S
  unfolding executed_reply
  handle_execute handle cmd ctx f =
      let (answers, f') = receive handle (execute cmd ctx) f in (executed_reply answers, f')

  -- AggregateHandle::state
  unfoldable pub handle_state : ℕ → Fleet X A S → Result A.State (StateError X) × Fleet X A S
  unfolding state_reply
  handle_state handle f =
      let (answers, f') = receive handle get_state f in (state_reply answers, f')

  -- AggregateHandle::inject_via_actor
  unfoldable pub inject_via_actor :
      ℕ → ProposedEventData X → Fleet X A S → Result (Unit {0}) X.Status × Fleet X A S
  unfolding injected_reply
  inject_via_actor handle proposed f =
      let (answers, f') = receive handle (inject proposed) f in (injected_reply answers, f')

  -- AggregateHandle::is_alive: the receiver lives as long as its task.
  unfoldable pub is_alive : ℕ → Fleet X A S → Bool
  unfolding at is_running
  is_alive handle f = elim (at handle f.cells) [ none ↦ false | some c ↦ is_running c.progress ]
