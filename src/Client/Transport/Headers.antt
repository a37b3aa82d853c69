-- ===== src/Client/Transport/Headers.antt =====
-- src/client.rs and src/auth.rs: the metadata that the requests of an authenticated client carry.
use Prim.Native.String.{◌++◌ as str_append}
use eventfold_es.Prelude.{
  ℕ, String, ◌≡◌, refl, sym, ◌∙◌, inl, inr, Option, none, some, List, [], ◌∷◌, ◌++◌, append-nil,
  append_assoc, Result, str_eq, Bool-cases, Option-cases, if◌then◌else◌,
}
use eventfold_es.Runtime.{Runtime}
use eventfold_es.Map.{insert, without}
use eventfold_es.Auth.{Metadata, passed, rejected, call}
use eventfold_es.Client
use eventfold_es.Client.Proto.{AppendRequest, ReadStreamRequest}
use eventfold_es.Client.Transport.{
  Channel, InterceptedService, auth, Session, within, bearer, sent, Op, refresh, append,
  read_stream, subscribe, perform, perform_all,
}

-- The metadata that have gone out over a channel, as an observer of the channel sees them.
pub record IsObserved (X : Runtime) (C : Channel X) : Type 0 where
  pub seen : C.W → List Metadata
  pub appends :
      (m : Metadata) (q : AppendRequest X) (w : C.W) → seen (C.append m q w).1 ≡ seen w ++ m ∷ []
  pub reads :
      (m : Metadata) (q : ReadStreamRequest) (w : C.W)
      → seen (C.read_stream m q w).1 ≡ seen w ++ m ∷ []
  pub subscribes :
      (m : Metadata) (p : ℕ) (w : C.W) → seen (C.subscribe_all m p w).1 ≡ seen w ++ m ∷ []

module _ (X : Runtime) (parse : String → Option String) (C : Channel X)
    (I : InterceptedService X C.W) where
  -- What goes out for one call under a token: nothing but the message if the token is empty, the
  -- bearer token if it makes a header, and no request if it does not.
  abbrev pub headers : String → List Metadata
  headers token = if str_eq token "" then [] ∷ [] else elim (parse (str_append "Bearer " token)) [
    | none ↦ []
    | some value ↦ (("authorization", value) ∷ []) ∷ []
  ]

  -- What goes out for a sequence of calls and refreshes.
  abbrev pub expected : String → List (Op X parse C I) → List Metadata
  expected token [] = []
  expected token (refresh token' ∷ ops) = expected token' ops
  expected token (append _ _ _ ∷ ops) = headers token ++ expected token ops
  expected token (read_stream _ _ _ ∷ ops) = headers token ++ expected token ops
  expected token (subscribe _ ∷ ops) = headers token ++ expected token ops

  module _ (O : IsObserved X C) where
    sent-seen :
        {Q R : Type 0} (send : Metadata → Q → C.W → Result R X.Status × C.W) (q : Q)
        (s : Session X parse C I)
        → ((m : Metadata) (w : C.W) → O.seen (send m q w).1 ≡ O.seen w ++ m ∷ [])
        → O.seen (sent X parse C I auth send q s).1.world ≡ O.seen s.world ++ headers s.token
    unfolding sent within bearer call insert without
    sent-seen send q s law = elim (Bool-cases (str_eq s.token "")) [
      | inl e ↦
          let goes : bearer X parse C I s [] ≡ passed [] = rw (e, call) refl in
          rw (I.sends (bearer X parse C I s) send q s.world [] goes, e) (law [] s.world)
      | inr e ↦ elim (Option-cases (parse (str_append "Bearer " s.token))) [
        | inl p ↦
            let stays : bearer X parse C I s [] ≡ rejected (X.internal "invalid token characters") =
              rw (e, p, call) refl in
            rw (I.refuses (bearer X parse C I s) send q s.world _ stays, e, p)
              (sym (append-nil (O.seen s.world)))
        | inr (value, p) ↦
            let header = ("authorization", value) ∷ [] in
            let goes : bearer X parse C I s [] ≡ passed header = rw (e, p, call) refl in
            rw (I.sends (bearer X parse C I s) send q s.world header goes, e, p)
              (law header s.world)
      ]
    ]

    -- After one call, the rest.
    sent_then :
        (s t : Session X parse C I) (ops : List (Op X parse C I)) (out : List Metadata)
        → t.token ≡ s.token
        → O.seen t.world ≡ O.seen s.world ++ headers s.token
        → out ≡ O.seen t.world ++ expected t.token ops
        → out ≡ O.seen s.world ++ (headers s.token ++ expected s.token ops)
    sent_then s t ops out same one rest =
        rest
        ∙ rw (one, same) refl
        ∙ append_assoc (O.seen s.world) (headers s.token) (expected s.token ops)

    -- The calls of an authenticated client and the writes to its token, in any order: the requests
    -- that reach the channel carry, each in its turn, the bearer token that was in the lock when the
    -- call was made, no metadata while the token is empty, and none goes out under a token that makes
    -- no header.
    pub perform_all-seen :
        (ops : List (Op X parse C I)) (s : Session X parse C I)
        → O.seen (perform_all X parse C I auth ops s).world ≡ O.seen s.world ++ expected s.token ops
    unfolding perform_all perform sent within Client.append Client.read_stream
        Client.subscribe_all_from
    perform_all-seen [] s = sym (append-nil (O.seen s.world))
    perform_all-seen (refresh token ∷ ops) s = perform_all-seen ops (record s { token = token })
    perform_all-seen (append stream version events ∷ ops) s =
        sent_then s _ ops _ refl (sent-seen C.append _ s (λ m w. O.appends m _ w))
          (perform_all-seen ops (perform X parse C I auth (append stream version events) s))
    perform_all-seen (read_stream stream from count ∷ ops) s =
        sent_then s _ ops _ refl (sent-seen C.read_stream _ s (λ m w. O.reads m _ w))
          (perform_all-seen ops (perform X parse C I auth (read_stream stream from count) s))
    perform_all-seen (subscribe from ∷ ops) s =
        sent_then s _ ops _ refl (sent-seen C.subscribe_all from s (λ m w. O.subscribes m from w))
          (perform_all-seen ops (perform X parse C I auth (subscribe from) s))
