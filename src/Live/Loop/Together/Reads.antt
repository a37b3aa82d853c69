-- ===== src/Live/Loop/Together/Reads.antt =====
-- src/live.rs and src/store.rs: a projection that the live loop feeds and `projection` reads.
use eventfold_es.Prelude.{
  ℕ, zero, suc, ◌≡◌, refl, ap, ◌∙◌, inl, inr, false, List, [], ◌∷◌, ◌++◌, append_assoc, String,
  length, arith, ◌==◌, Bool-cases, Result-cases,
}
use eventfold_es.Runtime.{Runtime}
use eventfold_es.Event.{RecordedEvent}
use eventfold_es.Client.{Grpc}
use eventfold_es.Cursor.{Item, consume, events_of, from_position}
use eventfold_es.GlobalLog.{IsBehind-consume}
use eventfold_es.Io.{Disk}
use eventfold_es.Projection
use eventfold_es.Projection.{Projection, ProjectionRunner, ProjectionCheckpoint, default_checkpoint}
use eventfold_es.Projection.Exact.{catch_up-checkpoint, catch_up-unsubscribed}
use eventfold_es.Projection.Stream.{projection_cursor}
use eventfold_es.Store.{Dispatcher, DeadLetters}
use eventfold_es.Live.{DynProjection, LiveConfig, Live, erase_projection}
use eventfold_es.Live.Loop.{
  Phase, connecting, retrying, streaming, dispatching, sleeping, blocked, returned,
}
use eventfold_es.Live.Loop.Exact.{
  IsFed, IsBehindHistory, IsReadingHistory, Holds, Step-Holds, IsFed-IsBehind,
}
use eventfold_es.Live.Loop.Reading.{IsHistory, IsReading-jump}
use eventfold_es.Live.Loop.Together.{
  read_at, read, Joint, loop_steps, pulls, pull_fails, reads, elsewhere, JointRun, at_rest, then_on,
}
use eventfold_es.Live.Loop.Together.Pull.{events_of-prefix}

module _ (X : Runtime) (G : Grpc X) where
  -- A read of another projection leaves one where it is.
  read_at_other :
      (n : ℕ) (xs : List (DynProjection X G)) (y : DynProjection X G)
      (ys : List (DynProjection X G)) (w : G.W) (d : Disk X.Bytes)
      → (n == length xs) ≡ false
      → (us vs : List (DynProjection X G)) × ((read_at X G n (xs ++ y ∷ ys) w d).0.0 ≡ us ++ y ∷ vs)
  unfolding read_at
  read_at_other zero [] y ys w d h = absurd (ground arith)
  read_at_other zero (x ∷ xs) y ys w d h = (_ ∷ xs, ys, refl)
  read_at_other (suc n) [] y ys w d h = ([], (read_at X G n ys w d).0.0, refl)
  read_at_other (suc n) (x ∷ xs) y ys w d h =
      let (us, vs, e) = read_at_other n xs y ys w d (ground arith) in
      (x ∷ us, vs, ap (λ l. x ∷ l) e)

  read_at_self :
      (P : Projection X) (xs : List (DynProjection X G)) (runner : ProjectionRunner X P)
      (ys : List (DynProjection X G)) (w : G.W) (d : Disk X.Bytes)
      → (read_at X G (length xs) (xs ++ erase_projection X P G runner ∷ ys) w d).0.0
        ≡ xs ++ erase_projection X P G (Projection.catch_up X P G runner w d).0.0.1 ∷ ys
  unfolding read_at erase_projection
  read_at_self P [] runner ys w d = refl
  read_at_self P (x ∷ xs) runner ys w d = ap (λ l. x ∷ l) (read_at_self P xs runner ys w d)

module _ (X : Runtime) (G : Grpc X) (Actors : Type 0) (D : DeadLetters X G)
    (dispatchers : List (String × Dispatcher X G Actors)) (config : LiveConfig) (P : Projection X)
    (history : List (RecordedEvent X)) (H : IsHistory X G history) where
  abbrev Fed : Phase X → ProjectionCheckpoint X P → Type 0
  Fed = IsFed X G Actors D dispatchers config P history

  behind_jump :
      (c : ProjectionCheckpoint X P) (part beyond : List (RecordedEvent X))
      → from_position c.last_global_position history ≡ part ++ beyond
      → IsBehindHistory X G Actors D dispatchers config P history c
      → IsBehindHistory X G Actors D dispatchers config P history
          (consume (projection_cursor X P) c part)
  behind_jump c part beyond e f =
      IsBehind-consume (projection_cursor X P) (default_checkpoint X P) history c part beyond
        H.short f e

  reading_jump :
      (rest : List (Item X)) (c : ProjectionCheckpoint X P) (part beyond : List (RecordedEvent X))
      → from_position c.last_global_position history ≡ part ++ beyond
      → IsReadingHistory X G Actors D dispatchers config P history rest c
      → IsReadingHistory X G Actors D dispatchers config P history rest
          (consume (projection_cursor X P) c part)
  reading_jump rest c part beyond e f =
      IsReading-jump (projection_cursor X P) (default_checkpoint X P) history rest c part beyond
        H.short f e

  -- Whatever the loop is at, its projection may read on by itself.
  Fed-jump :
      (p : Phase X) (c : ProjectionCheckpoint X P) (part beyond : List (RecordedEvent X))
      → from_position c.last_global_position history ≡ part ++ beyond
      → Fed p c
      → Fed p (consume (projection_cursor X P) c part)
  Fed-jump connecting c part beyond e f = behind_jump c part beyond e f
  Fed-jump retrying c part beyond e f = behind_jump c part beyond e f
  Fed-jump sleeping c part beyond e f = behind_jump c part beyond e f
  Fed-jump returned c part beyond e f = behind_jump c part beyond e f
  Fed-jump blocked c part beyond e f = behind_jump c part beyond e f
  Fed-jump (streaming rest) c part beyond e f = reading_jump rest c part beyond e f
  Fed-jump (dispatching work r rest) c part beyond e f = reading_jump rest c part beyond e f

  catch_up-Fed :
      (p : Phase X) (runner : ProjectionRunner X P) (w : G.W) (d : Disk X.Bytes)
      → Fed p runner.checkpoint
      → Fed p (Projection.catch_up X P G runner w d).0.0.1.checkpoint
  catch_up-Fed p runner w d f =
      let from = runner.checkpoint.last_global_position in
      elim (Result-cases (G.subscribe_all from w).0) [
        | inr (status, e) ↦ rw (catch_up-unsubscribed X P G runner w d status e) f
        | inl (stream, e) ↦
            let (undelivered, selected) = H.delivers from w stream e in
            let (more, longer) = events_of-prefix stream in
            rw (catch_up-checkpoint X P G runner w d stream e) (
              Fed-jump p runner.checkpoint (events_of stream) (more ++ undelivered)
                (selected
                  ∙ ap (λ l. l ++ undelivered) longer
                  ∙ append_assoc (events_of stream) more undelivered)
                f)
      ]

  abbrev FedIn : Phase X → Live X G Actors → Type 1
  FedIn p = Holds X G Actors D dispatchers config P history (Fed p)

  read-FedIn :
      (p : Phase X) (s : Live X G Actors) (m : ℕ)
      → FedIn p s
      → FedIn p (read X G Actors D dispatchers config m s)
  read-FedIn p s m (xs, ys, runner, e, f) =
      let w = s.outside.world in
      let d = s.outside.disk in
      elim (Bool-cases (m == length xs)) [
        | inr other ↦
            let (us, vs, moved) =
              read_at_other X G m xs (erase_projection X P G runner) ys w d other in
            (us, vs, runner, rw e moved, f)
        | inl own ↦
            let here : m ≡ length xs = ground arith in
            (
              xs,
              ys,
              (Projection.catch_up X P G runner w d).0.0.1,
              rw (e, here) (read_at_self X G P xs runner ys w d),
              catch_up-Fed p runner w d f,
            )
      ]

  Joint-FedIn :
      {p : Phase X} {d : ℕ} {s : Live X G Actors} {q : Phase X} {e : ℕ} {t : Live X G Actors}
      → Joint X G Actors D dispatchers config p d s q e t
      → FedIn p s
      → FedIn q t
  Joint-FedIn (loop_steps step) h = Step-Holds X G Actors D dispatchers config P history H step h
  Joint-FedIn (pulls p d s m envelopes got) h = h
  Joint-FedIn (pull_fails p d s m error x) h = h
  Joint-FedIn (reads p d s m) h = read-FedIn p s m h
  Joint-FedIn (elsewhere p d s o) h = h

  JointRun-FedIn :
      {p : Phase X} {d : ℕ} {s : Live X G Actors} {q : Phase X} {e : ℕ} {t : Live X G Actors}
      → JointRun X G Actors D dispatchers config p d s q e t
      → FedIn p s
      → FedIn q t
  JointRun-FedIn at_rest h = h
  JointRun-FedIn (then_on step run) h = JointRun-FedIn run (Joint-FedIn step h)

  -- While the live loop runs, other tasks may read its projections at any point, each read catching
  -- up from where the projection stands and succeeding or failing, and change the server, the disk
  -- and the actors: a projection that is the fold, each event once, of a prefix of the log is so in
  -- every state that is reached, if each subscription delivers the log in order from where it was
  -- asked to.
  pub JointRun-IsBehind :
      {d : ℕ} {s : Live X G Actors} {q : Phase X} {e : ℕ} {t : Live X G Actors}
      → JointRun X G Actors D dispatchers config connecting d s q e t
      → Holds X G Actors D dispatchers config P history
          (IsBehindHistory X G Actors D dispatchers config P history)
          s
      → Holds X G Actors D dispatchers config P history
          (IsBehindHistory X G Actors D dispatchers config P history)
          t
  JointRun-IsBehind {q = q} {t = t} run h =
      IsFed-IsBehind X G Actors D dispatchers config P history H q t (JointRun-FedIn run h)
