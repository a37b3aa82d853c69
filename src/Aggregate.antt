-- ===== src/Aggregate.antt =====
-- src/aggregate.rs: the trait that a user's domain model implements, with the serde
-- implementations that its bounds ask for.
use eventfold_es.Prelude.{ℕ, String, ◌≡◌, Option, some, List, ◌∷◌, [], false, Result, ok}
use eventfold_es.Runtime.{Runtime, ReadsBack}

pub record Aggregate (X : Runtime) : Type 1 where
  pub aggregate_type : String
  pub State : Type 0
  pub Command : Type 0
  pub DomainEvent : Type 0
  pub Error : Type 0
  pub default : State
  pub handle : State → Command → Result (List DomainEvent) Error
  pub apply : State → DomainEvent → State
  -- Serialize and DeserializeOwned of the domain events and of the commands; an error is its text.
  pub to_value : DomainEvent → Result X.Value String
  pub from_value : X.Value → Option DomainEvent
  pub command_from_value : X.Value → Result Command String
  -- serde_json of `Snapshot<A>`: the state with its stream version.
  pub snapshot_to_vec : State → ℕ → Result X.Bytes String
  pub snapshot_from_slice : X.Bytes → Option (State × ℕ)
  -- Display of the domain error.
  pub show_error : Error → String

-- The JSON forms of an adjacently tagged event, `{"type": t}` and `{"type": t, "data": d}`.
abbrev pub unit_variant : (X : Runtime) → String → X.Value
unit_variant X t = X.object (("type", X.text t) ∷ [])

abbrev pub data_variant : (X : Runtime) → String → X.Value → X.Value
data_variant X t d = X.object (("type", X.text t) ∷ ("data", d) ∷ [])

-- What `#[serde(tag = "type", content = "data")]` documents: an event is written as one of the
-- two forms, the content of a data variant is not null, and either form is read as the event. The
-- content must also survive its JSON text, which no serde attribute promises: it is what the
-- program asks of the user's events.
pub data IsAdjacentlyTagged (X : Runtime) (A : Aggregate X) (e : A.DomainEvent) : Type 0 where
  is_unit :
      (t : String)
      → A.to_value e ≡ ok (unit_variant X t)
      → A.from_value (unit_variant X t) ≡ some e
      → IsAdjacentlyTagged X A e
  is_data :
      (t : String) (d : X.Value)
      → A.to_value e ≡ ok (data_variant X t d)
      → X.is_null d ≡ false
      → ReadsBack X d
      → A.from_value (data_variant X t d) ≡ some e
      → IsAdjacentlyTagged X A e
