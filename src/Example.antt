-- ===== src/Example.antt =====
-- examples/counter.rs: the counter aggregate and the projection over all counters. What serde
-- derives for their types is a parameter.
pub mod Int64
pub mod Balance
pub mod Totals
use eventfold_es.Prelude.{
  ℕ, String, Bool, true, false, ◌≡◌, Option, List, [], ◌∷◌, Result, ok, err, str_eq, next_u64, not,
  if◌then◌else◌,
}
use eventfold_es.Runtime.{Runtime}
use eventfold_es.Aggregate.{Aggregate}
use eventfold_es.Event.{StoredEvent}
use eventfold_es.Projection.{Projection}
use Int64.{ℤ, pos, add_one, sub_one, is_zero, is_at_most_zero}

pub record Counter : Type 0 where
  pub value : ℤ

abbrev pub default : Counter
default = record { value = pos 0 }

pub data CounterCommand : Type 0 where
  increment decrement reset : CounterCommand

pub data CounterEvent : Type 0 where
  incremented decremented : CounterEvent
  was_reset : ℤ → CounterEvent

pub data CounterError : Type 0 where
  already_zero nothing_to_reset : CounterError

abbrev pub show_error : CounterError → String
show_error already_zero = "counter is already zero, cannot decrement"
show_error nothing_to_reset = "counter is already zero, nothing to reset"

-- Aggregate::handle
unfoldable pub handle : Counter → CounterCommand → Result (List CounterEvent) CounterError
handle counter increment = ok (incremented ∷ [])
handle counter decrement =
    if is_at_most_zero counter.value then err already_zero else ok (decremented ∷ [])
handle counter reset =
    if is_zero counter.value then err nothing_to_reset else ok (was_reset counter.value ∷ [])

-- Aggregate::apply
unfoldable pub apply : Counter → CounterEvent → Counter
apply counter incremented = record { value = add_one counter.value }
apply counter decremented = record { value = sub_one counter.value }
apply counter (was_reset previous) = record { value = pos 0 }

pub record TotalCounter : Type 0 where
  pub total_increments : ℕ
  pub total_decrements : ℕ
  pub total_resets : ℕ

abbrev pub no_totals : TotalCounter
no_totals = record { total_increments = 0; total_decrements = 0; total_resets = 0 }

-- The `match` on the type of an event.
unfoldable pub count_event : TotalCounter → String → TotalCounter
count_event t event_type =
    if str_eq event_type "Incremented"
    then record t { total_increments = next_u64 t.total_increments }
    else if str_eq event_type "Decremented"
    then record t { total_decrements = next_u64 t.total_decrements }
    else if str_eq event_type "WasReset"
    then record t { total_resets = next_u64 t.total_resets }
    else t

module _ (X : Runtime) where
  -- Projection::apply
  unfoldable pub count : TotalCounter → StoredEvent X → TotalCounter
  unfolding count_event
  count t event =
      if not (str_eq event.aggregate_type "counter") then t else count_event t event.event_type

-- The derived implementations of Serialize and Deserialize, alone and in a snapshot or checkpoint.
pub record Serde (X : Runtime) : Type 0 where
  pub event_to_value : CounterEvent → Result X.Value String
  pub event_from_value : X.Value → Option CounterEvent
  pub command_from_value : X.Value → Result CounterCommand String
  pub snapshot_to_vec : Counter → ℕ → Result X.Bytes String
  pub snapshot_from_slice : X.Bytes → Option (Counter × ℕ)
  pub totals_to_string : TotalCounter → ℕ → Result X.Bytes String
  pub totals_from_str : X.Bytes → Option (TotalCounter × ℕ)

module _ (X : Runtime) (E : Serde X) where
  -- impl Aggregate for Counter
  abbrev pub counter : Aggregate X
  counter = record {
    aggregate_type = "counter";
    State = Counter;
    Command = CounterCommand;
    DomainEvent = CounterEvent;
    Error = CounterError;
    default = default;
    handle = handle;
    apply = apply;
    to_value = E.event_to_value;
    from_value = E.event_from_value;
    command_from_value = E.command_from_value;
    snapshot_to_vec = E.snapshot_to_vec;
    snapshot_from_slice = E.snapshot_from_slice;
    show_error = show_error;
  }

  -- impl Projection for TotalCounter
  abbrev pub total_counter : Projection X
  total_counter = record {
    name = "total-counter";
    State = TotalCounter;
    default = no_totals;
    apply = count X;
    to_string_pretty = E.totals_to_string;
    from_str = E.totals_from_str;
  }
