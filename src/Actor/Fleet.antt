-- ===== src/Actor/Fleet.antt =====
-- src/actor.rs: many actors over one server, each coherent with the log of its own stream.
use eventfold_es.Prelude.{
  ℕ, zero, suc, ◌≡◌, sym, ap, ◌∙◌, inl, inr, some, List, [], ◌∷◌, ◌++◌, append-nil, append_assoc,
  All, Bool-cases, Option-cases,
}
use eventfold_es.Runtime.{Runtime, RuntimeLaws}
use eventfold_es.Aggregate.{Aggregate, IsAdjacentlyTagged}
use eventfold_es.Event.{ProposedEventData, RecordedEvent}
use eventfold_es.Client.{ExpectedVersionArg}
use eventfold_es.Actor.Ops.{EventStoreOps}
use eventfold_es.Actor.Execute.{Actor, u64_max}
use eventfold_es.Actor.Server.{IsLogServer}
use eventfold_es.Actor.Coherence.{IsCoherent, IsCoherent-grow}
use eventfold_es.Actor.Lifecycle.{Received}
use eventfold_es.Actor.Service.{serve-IsCoherent}
use eventfold_es.Actor.Worlds.{IsFollowed, serve-follows}
use eventfold_es.Actor.Handle.{Cell, Fleet, at, put, is_running, woken, asleep, receive}

-- A server of many streams: one log for each, and a call for one stream may find any log longer.
pub record IsStore (X : Runtime) (S : EventStoreOps X) : Type 0 where
  pub one : (stream : X.Uuid) → IsLogServer X S stream
  pub appends :
      (other stream : X.Uuid) (expected : ExpectedVersionArg) (ps : List (ProposedEventData X))
      (w : S.W)
      → (more : List (RecordedEvent X)) × ((one other).log (S.append stream expected ps w).1
          ≡ (one other).log w ++ more)
  pub reads :
      (other stream : X.Uuid) (from : ℕ) (w : S.W)
      → (more : List (RecordedEvent X)) × ((one other).log (S.read_stream stream from u64_max w).1
          ≡ (one other).log w ++ more)

module _ (X : Runtime) (S : EventStoreOps X) (V : IsStore X S) where
  -- Every log of the second world extends its log of the first.
  abbrev pub Extends : S.W → S.W → Type 0
  Extends u v =
      (stream : X.Uuid)
      → (more : List (RecordedEvent X)) × ((V.one stream).log v ≡ (V.one stream).log u ++ more)

  pub Extends-IsFollowed : IsFollowed X S Extends
  Extends-IsFollowed = record {
    stays = λ w stream. ([], sym (append-nil ((V.one stream).log w)));
    follows = λ u v w uv vw stream. (
      (uv stream).0 ++ (vw stream).0,
      (vw stream).1
          ∙ ap (λ l. l ++ (vw stream).0) (uv stream).1
          ∙ append_assoc ((V.one stream).log u) (uv stream).0 (vw stream).0,
    );
    appends = λ target expected ps w stream. V.appends stream target expected ps w;
    reads = λ target from w stream. V.reads stream target from w;
    draws = λ w stream. (V.one stream).after_new_v4 w;
  }

pub All-put {ℓ κ} :
    {B : Type ℓ} (P : B → Type κ) (n : ℕ) (x : B) (bs : List B)
    → P x
    → All P bs
    → All P (put n x bs)
unfolding put
All-put P n x [] p h = h
All-put P zero x (b ∷ bs) p h = (p, h.1)
All-put P (suc n) x (b ∷ bs) p h = (h.0, All-put P n x bs p h.1)

pub All-at {ℓ κ} :
    {B : Type ℓ} (P : B → Type κ) (n : ℕ) (bs : List B) (b : B) → All P bs → at n bs ≡ some b → P b
unfolding at
All-at P n [] b h e = cc
All-at P zero (x ∷ bs) b h e = let same : x ≡ b = cc in rw (← same) h.0
All-at P (suc n) (x ∷ bs) b h e = All-at P n bs b h.1 e

pub All-map {ℓ κ} :
    {B : Type ℓ} (P Q : B → Type κ) (bs : List B) → ((b : B) → P b → Q b) → All P bs → All Q bs
All-map P Q [] f h = tt
All-map P Q (b ∷ bs) f h = (f b h.0, All-map P Q bs f h.1)

module _ (X : Runtime) (A : Aggregate X) (S : EventStoreOps X) (V : IsStore X S) where
  -- The actor that a cell stands for in a world.
  abbrev pub actor_in : S.W → Cell X A → Actor X A S
  actor_in w c = record { store = w; state = c.state; stream_version = c.stream_version }

  abbrev pub IsCoherentCell : S.W → Cell X A → Type 0
  IsCoherentCell w c = IsCoherent X A S (V.one c.context.stream_id) (actor_in w c)

  abbrev pub AreCoherent : Fleet X A S → Type 0
  AreCoherent f = All (IsCoherentCell f.world) f.cells

  pub AreCoherent-Extends :
      (cells : List (Cell X A)) (u v : S.W)
      → Extends X S V u v
      → All (IsCoherentCell u) cells
      → All (IsCoherentCell v) cells
  AreCoherent-Extends cells u v g = All-map (IsCoherentCell u) (IsCoherentCell v) cells λ c h.
      let (more, e) = g c.context.stream_id in
      IsCoherent-grow X A S (V.one c.context.stream_id) (actor_in u c) v more e h

  module _ (laws : RuntimeLaws X) (tagged : (e : A.DomainEvent) → IsAdjacentlyTagged X A e) where
    -- Whichever actor of a process receives whichever message, and however the server answers, if
    -- every actor's state and version are those of a prefix of its own stream's log, then they are
    -- so for every actor afterwards.
    pub receive-AreCoherent :
        (handle : ℕ) (m : Received X A) (f : Fleet X A S)
        → AreCoherent f
        → AreCoherent (receive X A S handle m f).1
    unfolding receive woken asleep
    receive-AreCoherent handle m f h = elim (Option-cases (at handle f.cells)) [
      | inl e ↦ rw (e, receive) h
      | inr (c, e) ↦ elim (Bool-cases (is_running c.progress)) [
        | inr q ↦ rw (e, q, receive) h
        | inl q ↦
            let mine = All-at (IsCoherentCell f.world) handle f.cells c h e in
            let t = woken X A S c f in
            let served =
              serve-IsCoherent X A S c.context (V.one c.context.stream_id) laws tagged m t mine in
            let grown = serve-follows X A S (Extends-IsFollowed X S V) c.context m t in
            rw (e, q, receive)
              (All-put (IsCoherentCell _) handle _ f.cells served
                (AreCoherent-Extends f.cells f.world _ grown h))
      ]
    ]
