-- ===== src/Tests/Counter.antt =====
-- The counter of src/aggregate.rs's test fixtures, as an aggregate over the JSON runtime.
use eventfold_es.Prelude.{
  ℕ, ◌+◌, ◌-◌, String, refl, Option, none, some, List, [], ◌∷◌, Result, ok, err, ◌==◌, str_eq,
  if◌then◌else◌,
}
use eventfold_es.Aggregate.{Aggregate, IsAdjacentlyTagged, is_unit, is_data}
use eventfold_es.Tests.Json.{
  Json, Fields, Document, num, text, obj, nil, cons, checkpoint, json_runtime, json-ReadsBack,
}

pub data CounterCommand : Type 0 where
  increment decrement : CounterCommand
  add : ℕ → CounterCommand

pub data CounterEvent : Type 0 where
  incremented decremented : CounterEvent
  added : ℕ → CounterEvent

pub data CounterError : Type 0 where
  already_zero : CounterError

abbrev pub handle : ℕ → CounterCommand → Result (List CounterEvent) CounterError
handle value increment = ok (incremented ∷ [])
handle value decrement = if value == 0 then err already_zero else ok (decremented ∷ [])
handle value (add n) = ok (added n ∷ [])

abbrev pub apply : ℕ → CounterEvent → ℕ
apply value incremented = value + 1
apply value decremented = value - 1
apply value (added amount) = value + amount

abbrev tag : String → Fields → Json
tag t rest = obj (cons "type" (text t) rest)

abbrev pub to_value : CounterEvent → Result Json String
to_value incremented = ok (tag "Incremented" nil)
to_value decremented = ok (tag "Decremented" nil)
to_value (added n) = ok (tag "Added" (cons "data" (obj (cons "amount" (num n) nil)) nil))

abbrev pub variant : String → Fields → Option CounterEvent
variant t nil =
    if str_eq t "Incremented"
    then some incremented
    else if str_eq t "Decremented"
    then some decremented
    else none
variant t (cons k (obj (cons j (num n) nil)) nil) =
    if str_eq t "Added" then some (added n) else none
variant t _ = none

abbrev pub from_value : Json → Option CounterEvent
from_value (obj (cons k (text t) rest)) = variant t rest
from_value _ = none

abbrev read_command : Json → Result CounterCommand String
read_command (text t) = if str_eq t "Increment" then ok increment else err "unknown variant"
read_command _ = err "invalid type"

abbrev pub parse_checkpoint : Document → Option (ℕ × ℕ)
parse_checkpoint (checkpoint s p) = some (s, p)
parse_checkpoint _ = none

abbrev pub counter : Aggregate json_runtime
counter = record {
  aggregate_type = "counter";
  State = ℕ;
  Command = CounterCommand;
  DomainEvent = CounterEvent;
  Error = CounterError;
  default = 0;
  handle = handle;
  apply = apply;
  to_value = to_value;
  from_value = from_value;
  command_from_value = read_command;
  snapshot_to_vec = λ s v. ok (checkpoint s v);
  snapshot_from_slice = parse_checkpoint;
  show_error = λ _. "cannot decrement: counter is already zero";
}

pub counter-tagged : (e : CounterEvent) → IsAdjacentlyTagged json_runtime counter e
counter-tagged incremented = is_unit "Incremented" refl refl
counter-tagged decremented = is_unit "Decremented" refl refl
counter-tagged (added n) =
    is_data "Added" (obj (cons "amount" (num n) nil)) refl refl (json-ReadsBack _) refl
