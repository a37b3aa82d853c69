-- ===== src/Actor/Server.antt =====
-- What the actor relies on of the event store: a server that keeps one append-only, numbered log
-- for each stream. Other clients may write at any time, so every call may find the log longer. The
-- server drops an event whose id it has already recorded, so an append records what was sent only
-- when its ids are new.
use eventfold_es.Prelude.{
  ℕ, zero, suc, Bool, true, ◌<◌, ◌≡◌, List, [], ◌∷◌, ◌++◌, ok, err, drop, length, u64_mod,
}
use eventfold_es.Runtime.{Runtime}
use eventfold_es.Event.{ProposedEventData, RecordedEvent}
use eventfold_es.Client.{ExpectedVersionArg, any, no_stream, exact}
use eventfold_es.Client.Proto.{AppendResponse}
use eventfold_es.Actor.Ops.{EventStoreOps}
use eventfold_es.Actor.Codec.{IsRecorded}
use eventfold_es.Actor.Execute.{u64_max}

-- The ids that a number of draws in a row give.
unfoldable pub draw : {X : Runtime} (S : EventStoreOps X) → ℕ → S.W → List X.Uuid × S.W
draw S zero w = ([], w)
draw S (suc n) w = let (id, w') = S.new_v4 w in let (ids, w'') = draw S n w' in (id ∷ ids, w'')

module _ (X : Runtime) where
  abbrev pub ids_of : List (ProposedEventData X) → List X.Uuid
  ids_of [] = []
  ids_of (p ∷ ps) = p.event_id ∷ ids_of ps

  -- The events from number `n` on carry their numbers.
  abbrev pub IsNumbered : ℕ → List (RecordedEvent X) → Type 0
  IsNumbered n [] = Unit {0}
  IsNumbered n (r ∷ rs) = (r.stream_version ≡ n) × IsNumbered (suc n) rs

  abbrev pub AreRecorded : List (ProposedEventData X) → List (RecordedEvent X) → Type 0
  AreRecorded [] [] = Unit {0}
  AreRecorded (p ∷ ps) (r ∷ rs) = IsRecorded X p r × AreRecorded ps rs
  AreRecorded [] (r ∷ rs) = ⊥
  AreRecorded (p ∷ ps) [] = ⊥

-- The optimistic check on a stream of `n` events.
abbrev pub Permits : ExpectedVersionArg → ℕ → Type 0
Permits any n = Unit {0}
Permits no_stream n = n ≡ 0
Permits (exact v) n = n ≡ suc v

-- The documented behaviour of the server on one stream.
pub record IsLogServer (X : Runtime) (S : EventStoreOps X) (stream : X.Uuid) : Type 0 where
  pub log : S.W → List (RecordedEvent X)
  pub numbered : (w : S.W) → IsNumbered X 0 (log w)
  -- Versions are `uint64`.
  pub short : (w : S.W) → length (log w) < u64_mod
  pub after_new_v4 :
      (w : S.W) → (more : List (RecordedEvent X)) × (log (S.new_v4 w).1 ≡ log w ++ more)
  -- The ids are distinct, and of no event that the server has recorded or will record for another
  -- client. A version 4 UUID is drawn to be so.
  pub are_new : List X.Uuid → S.W → Bool
  pub drawn-new : (n : ℕ) (w : S.W) → are_new (draw S n w).0 (draw S n w).1 ≡ true
  -- A successful append of events with new ids.
  pub after_append :
      (expected : ExpectedVersionArg) (ps : List (ProposedEventData X)) (w : S.W)
      (resp : AppendResponse)
      → are_new (ids_of X ps) w ≡ true
      → (S.append stream expected ps w).0 ≡ ok resp
      → (before own later : List (RecordedEvent X)) × (log (S.append stream expected ps w).1
          ≡ ((log w ++ before) ++ own) ++ later)
        × Permits expected (length (log w ++ before))
        × AreRecorded X ps own
        × (suc resp.last_stream_version ≡ length ((log w ++ before) ++ own))
  -- Whatever is appended and answered, the log may only have grown: an append that repeats an id may
  -- succeed and record nothing, and one that is refused or broken may be followed by other events,
  -- or even have recorded its own.
  pub append_grows :
      (expected : ExpectedVersionArg) (ps : List (ProposedEventData X)) (w : S.W)
      → (more : List (RecordedEvent X)) × (log (S.append stream expected ps w).1 ≡ log w ++ more)
  pub after_read :
      (from : ℕ) (w : S.W) (events : List (RecordedEvent X))
      → (S.read_stream stream from u64_max w).0 ≡ ok events
      → (before later : List (RecordedEvent X)) × (log (S.read_stream stream from u64_max w).1
          ≡ (log w ++ before) ++ later)
        × (events ≡ drop from (log w ++ before))
  pub after_failed_read :
      (from : ℕ) (w : S.W) (status : X.Status)
      → (S.read_stream stream from u64_max w).0 ≡ err status
      → (more : List (RecordedEvent X)) × (log (S.read_stream stream from u64_max w).1
          ≡ log w ++ more)
