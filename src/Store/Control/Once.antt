-- ===== src/Store/Control/Once.antt =====
-- src/store.rs and src/live.rs: the calls of `start_live` and `shutdown` over the life of a store.
use eventfold_es.Prelude.{
  ℕ, ◌≤◌, ◌≡◌, refl, sym, ap, ◌∙◌, append-nil, String, Bool, Option, none, some, List, [], ◌∷◌,
  ◌++◌, Result, ok, err, arith, length,
}
use eventfold_es.Io.{IoError}
use eventfold_es.Live.Handle.{LiveHandle, started, shutdown}
use eventfold_es.Store.Control.{start_live}

-- What happens to the store's handle: a call of `start_live`, with the task that it would spawn, a
-- call of `shutdown` on the handle or a clone of it, and a signal of the loop.
pub data Call : Type 0 where
  start : ℕ → Call
  stop : Call
  signal : Bool → ℕ → Call

-- The tasks that a sequence of calls spawns, and those that it awaits.
pub record Tasks : Type 0 where
  pub spawned : List ℕ
  pub awaited : List ℕ

nil-left {ℓ} : {A : Type ℓ} (xs ys : List A) → [] ≡ xs ++ ys → xs ≡ []
nil-left [] ys h = refl
nil-left (x ∷ xs) ys h = cc

module _ (joined : ℕ → Result (Result (Unit {0}) IoError) String) where
  -- What a call of `shutdown` takes out of the handle and awaits.
  abbrev taken : Option ℕ → List ℕ
  taken none = []
  taken (some task) = task ∷ []

  abbrev spawned_by : ℕ → Result LiveHandle IoError → List ℕ
  spawned_by task (ok h) = task ∷ []
  spawned_by task (err e) = []

  abbrev pub one : Call → Option LiveHandle → Tasks × Option LiveHandle
  one (start task) store =
      let (result, store') = start_live task store in
      (record { spawned = spawned_by task result; awaited = [] }, store')
  one stop none = (record { spawned = []; awaited = [] }, none)
  one stop (some h) = (record { spawned = []; awaited = taken h.task }, some (shutdown joined h).1)
  one (signal caught_up position) none = (record { spawned = []; awaited = [] }, none)
  one (signal caught_up position) (some h) = (
    record { spawned = []; awaited = [] },
    some (record h { caught_up = caught_up; position_tx = position }),
  )

  abbrev pub calls : List Call → Option LiveHandle → Tasks
  calls [] store = record { spawned = []; awaited = [] }
  calls (c ∷ cs) store =
      let (tasks, store') = one c store in
      let later = calls cs store' in
      record { spawned = tasks.spawned ++ later.spawned; awaited = tasks.awaited ++ later.awaited }

  -- Once there is a handle, nothing more is spawned, and only its task is awaited.
  calls-some :
      (cs : List Call) (h : LiveHandle)
      → ((calls cs (some h)).spawned ≡ [])
        × ((rest : List ℕ) × (taken h.task ≡ (calls cs (some h)).awaited ++ rest))
  unfolding start_live shutdown
  calls-some [] h = (refl, (taken h.task, refl))
  calls-some (start task ∷ cs) h = calls-some cs h
  calls-some (signal caught_up position ∷ cs) h = calls-some cs _
  calls-some (stop ∷ cs) h =
      let (quiet, (rest, e)) = calls-some cs (shutdown joined h).1 in
      let gone : (calls cs (some (shutdown joined h).1)).awaited ≡ [] = nil-left _ rest e in
      (
        quiet,
        ([], sym (append-nil _ ∙ ap (λ l. taken h.task ++ l) gone ∙ append-nil (taken h.task))),
      )

  -- Whatever sequence of `start_live`, `shutdown` and signals a store meets, at most one live loop is
  -- ever spawned, no other task is awaited, and that one at most once.
  pub calls-once :
      (cs : List Call)
      → (length (calls cs none).spawned ≤ 1)
        × ((rest : List ℕ) × ((calls cs none).spawned ≡ (calls cs none).awaited ++ rest))
  unfolding start_live started
  calls-once [] = (omega arith, ([], refl))
  calls-once (stop ∷ cs) = calls-once cs
  calls-once (signal caught_up position ∷ cs) = calls-once cs
  calls-once (start task ∷ cs) =
      let (quiet, (rest, e)) = calls-some cs (started task) in
      let one_task : (calls (start task ∷ cs) none).spawned ≡ task ∷ [] =
        ap (λ l. task ∷ l) quiet in
      (rw quiet (omega arith), (rest, one_task ∙ e))
