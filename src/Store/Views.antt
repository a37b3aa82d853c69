-- ===== src/Store/Views.antt =====
-- src/store.rs and the trait `ProjectionCatchUp` of src/projection.rs: the projections of a store,
-- behind their type-erased interface, and reading one's state by its type.
pub mod Rebuild
use Prim.Native.String.{◌++◌ as str_append}
use eventfold_es.Prelude.{
  ℕ, String, Bool, true, false, Option, none, some, List, [], ◌∷◌, Result, ok, err, str_eq,
  if◌then◌else◌,
}
use eventfold_es.Runtime.{Runtime, entry}
use eventfold_es.Event.{RecordedEvent}
use eventfold_es.Client.{Grpc}
use eventfold_es.Io.{IoError, not_found, other_error, Disk, Io}
use eventfold_es.Projection
use eventfold_es.Projection.{Projection, ProjectionRunner, save_checkpoint}
use eventfold_es.Live.{apply_event}

-- std::any for one type: `Box::new(..) as Box<dyn Any>` and `downcast::<P>()`.
pub record AnyOf (Any B : Type 0) : Type 0 where
  pub into : B → Any
  pub downcast : Any → Option B

-- Box<dyn ProjectionCatchUp>
pub record ProjectionCatchUp (X : Runtime) (G : Grpc X) (Any : Type 0) : Type 1 where
  pub Self : Type 0
  pub self : Self
  pub catch_up :
      Self → G.W → Disk X.Bytes → ((Result (Unit {0}) IoError × Self) × G.W) × Disk X.Bytes
  pub apply_event : Self → RecordedEvent X → Self
  pub position : Self → ℕ
  pub save : Self → Io X.Bytes (Unit {0})
  pub state_any : Self → Any

module _ (X : Runtime) (G : Grpc X) (Any : Type 0) where
  -- impl ProjectionCatchUp for ProjectionRunner<P>
  unfoldable pub erase :
      (P : Projection X) → AnyOf Any P.State → ProjectionRunner X P → ProjectionCatchUp X G Any
  erase P any runner = record {
    Self = ProjectionRunner X P;
    self = runner;
    catch_up = Projection.catch_up X P G;
    apply_event = apply_event X P;
    position = λ r. r.checkpoint.last_global_position;
    save = λ r. save_checkpoint X P r.checkpoint_dir r.checkpoint;
    state_any = λ r. any.into r.checkpoint.state;
  }

  unfoldable pub with_self : (p : ProjectionCatchUp X G Any) → p.Self → ProjectionCatchUp X G Any
  with_self p self = record {
    Self = p.Self;
    self = self;
    catch_up = p.catch_up;
    apply_event = p.apply_event;
    position = p.position;
    save = p.save;
    state_any = p.state_any;
  }

  -- What the methods on projections act on.
  pub record Views : Type 1 where
    pub projections : List (String × ProjectionCatchUp X G Any)
    pub world : G.W
    pub disk : Disk X.Bytes

  -- The runner behind a name's mutex after it has changed.
  unfoldable pub update :
      String
      → ProjectionCatchUp X G Any
      → List (String × ProjectionCatchUp X G Any)
      → List (String × ProjectionCatchUp X G Any)
  update k p [] = []
  update k p ((j, q) ∷ rest) =
      let others = update k p rest in if str_eq j k then (j, p) ∷ rest else (j, q) ∷ others

  unfoldable pub not_registered : String → IoError
  not_registered name = record {
    kind = not_found;
    message = str_append "projection '" (str_append name "' not registered");
  }

  module _ (P : Projection X) (any : AnyOf Any P.State) where
    unfoldable pub downcast_state : Any → Result P.State IoError
    downcast_state boxed = elim (any.downcast boxed) [
      | some state ↦ ok state
      | none ↦ err (other_error "projection type mismatch")
    ]

    -- AggregateStore::projection
    unfoldable pub projection : Views → Result P.State IoError × Views
    unfolding not_registered downcast_state with_self update
    projection v = elim (entry P.name v.projections) [
      | none ↦ (err (not_registered P.name), v)
      | some runner ↦
          let (((caught, self), w), d) = runner.catch_up runner.self v.world v.disk in
          let v' : Views = record {
            projections = update P.name (with_self runner self) v.projections;
            world = w;
            disk = d;
          } in
          elim caught [ err e ↦ (err e, v') | ok _ ↦ (downcast_state (runner.state_any self), v') ]
    ]

    -- AggregateStore::live_projection; the flag says whether a live handle is there.
    unfoldable pub live_projection : Bool → Views → Result P.State IoError × Views
    unfolding projection
    live_projection false v = projection v
    live_projection true v = elim (entry P.name v.projections) [
      | none ↦ (err (not_registered P.name), v)
      | some runner ↦ (downcast_state (runner.state_any runner.self), v)
    ]
