-- ===== src/Actor/Replay.antt =====
-- src/actor.rs: the state that a log stands for, and the re-reading loop over a log's tail.
use eventfold_es.Prelude.{
  ℕ, suc, ◌+◌, ◌<◌, ◌≡◌, refl, Option, none, some, List, [], ◌∷◌, ◌++◌, arith, length, u64_mod,
  next_u64-eq,
}
use eventfold_es.Runtime.{Runtime}
use eventfold_es.Aggregate.{Aggregate}
use eventfold_es.Event.{RecordedEvent}
use eventfold_es.Actor.Execute.{apply_recorded, catch_up, read_from}
use eventfold_es.Actor.Server.{IsNumbered}

-- How many events a version says are applied.
abbrev pub applied : Option ℕ → ℕ
applied none = 0
applied (some v) = suc v

pub read_from-applied : (v : Option ℕ) → applied v < u64_mod → read_from v ≡ applied v
unfolding read_from
read_from-applied none h = refl
read_from-applied (some v) h = omega (arith, next_u64-eq v)

module _ (X : Runtime) (A : Aggregate X) where
  -- The specification: every event of a log in order, those that do not decode skipped.
  unfoldable pub replay : A.State → List (RecordedEvent X) → A.State
  replay state [] = state
  replay state (r ∷ rs) = replay (apply_recorded X A state r) rs

  pub replay-append :
      (state : A.State) (rs ts : List (RecordedEvent X))
      → replay state (rs ++ ts) ≡ replay (replay state rs) ts
  unfolding replay
  replay-append state [] ts = refl
  replay-append state (r ∷ rs) ts = replay-append (apply_recorded X A state r) rs ts

  -- The loop of the actor computes the specification.
  pub catch_up-replay :
      (state : A.State) (v : Option ℕ) (rs : List (RecordedEvent X))
      → (catch_up X A state v rs).0 ≡ replay state rs
  unfolding replay catch_up
  catch_up-replay state v [] = refl
  catch_up-replay state v (r ∷ rs) =
      catch_up-replay (apply_recorded X A state r) (some r.stream_version) rs

  -- The version that it ends with counts the events, when they carry their numbers.
  pub applied-catch_up :
      (state : A.State) (v : Option ℕ) (rs : List (RecordedEvent X))
      → IsNumbered X (applied v) rs
      → applied (catch_up X A state v rs).1 ≡ applied v + length rs
  unfolding catch_up
  applied-catch_up state v [] h = omega arith
  applied-catch_up state v (r ∷ rs) h =
      let e : IsNumbered X (suc r.stream_version) rs = rw h.0 h.1 in
      omega (arith, h.0, applied-catch_up (apply_recorded X A state r) (some r.stream_version) rs e)

module _ (X : Runtime) where
  pub IsNumbered-append_right :
      (n : ℕ) (xs ys : List (RecordedEvent X))
      → IsNumbered X n (xs ++ ys)
      → IsNumbered X (n + length xs) ys
  IsNumbered-append_right n [] ys h = let e : n + 0 ≡ n = omega arith in rw e h
  IsNumbered-append_right n (x ∷ xs) ys h =
      let e : n + suc (length xs) ≡ suc n + length xs = omega arith in
      rw e (IsNumbered-append_right (suc n) xs ys h.1)

  pub IsNumbered-append_left :
      (n : ℕ) (xs ys : List (RecordedEvent X)) → IsNumbered X n (xs ++ ys) → IsNumbered X n xs
  IsNumbered-append_left n [] ys h = tt
  IsNumbered-append_left n (x ∷ xs) ys h = (h.0, IsNumbered-append_left (suc n) xs ys h.1)
