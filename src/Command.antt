-- ===== src/Command.antt =====
-- src/command.rs: the cross-cutting metadata of a command, its builders, and the type-erased
-- envelope that process managers emit.
use eventfold_es.Prelude.{String, Option, none, some}
use eventfold_es.Runtime.{Runtime}

pub record CommandContext (X : Runtime) : Type 0 where
  pub actor : Option String
  pub correlation_id : Option String
  pub metadata : Option X.Value
  pub source_device : Option String

-- CommandContext::default()
abbrev pub default : (X : Runtime) → CommandContext X
default X = record { actor = none; correlation_id = none; metadata = none; source_device = none }

module _ {X : Runtime} where
  abbrev with_actor : CommandContext X → String → CommandContext X
  with_actor c actor = record c { actor = some actor }

  abbrev with_correlation_id : CommandContext X → String → CommandContext X
  with_correlation_id c id = record c { correlation_id = some id }

  abbrev with_metadata : CommandContext X → X.Value → CommandContext X
  with_metadata c meta = record c { metadata = some meta }

  abbrev with_source_device : CommandContext X → String → CommandContext X
  with_source_device c device_id = record c { source_device = some device_id }

pub record CommandEnvelope (X : Runtime) : Type 0 where
  pub aggregate_type : String
  pub instance_id : String
  pub command : X.Value
  pub context : CommandContext X
