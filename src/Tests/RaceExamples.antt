-- ===== src/Tests/RaceExamples.antt =====
-- Calls of `get` that take turns, at the counter on the one-event server.
use eventfold_es.Prelude.{◌≡◌, refl, none, List, ok}
use eventfold_es.Runtime.{entry}
use eventfold_es.Io.{read}
use eventfold_es.Snapshot.{load_snapshot}
use eventfold_es.Actor.Execute.{Actor, catch_up}
use eventfold_es.Actor.Handle.{at, put}
use eventfold_es.Actor.Lifecycle.{spawn_actor_with_store, catch_up_from, start_from}
use eventfold_es.Actor.Fleet.{AreCoherent}
use eventfold_es.Store.Registry.{Registry, get, cached, spawn, evict, keep, cell_of}
use eventfold_es.Store.Registry.Race.{Turn, State, play, turn, proceed, looked, spawned}
use eventfold_es.Store.Registry.Race.Named.{IsSound, play-IsSound}
use eventfold_es.Store.Registry.Race.Coherent.{AreReadable, play-AreCoherent}
use eventfold_es.Store.Registry.Race.TwoActors.{
  side_by_side, two_calls, HasTwo, side_by_side-HasTwo,
}
use eventfold_es.Tests.Json.{json_runtime, json_laws}
use eventfold_es.Tests.Counter.{counter, counter-tagged}
use eventfold_es.Tests.Server.{one_event_ops, one_event_store}
use eventfold_es.Tests.RegistryExamples.{no_actors, data_dir, empty-IsLoadable}

abbrev got : Registry json_runtime counter one_event_ops
got = (get json_runtime counter one_event_ops data_dir "c-1" no_actors).1

abbrev at_once : State json_runtime counter one_event_ops
at_once = two_calls json_runtime counter one_event_ops data_dir "c-1" no_actors

abbrev alternating : List (Turn json_runtime counter)
alternating = side_by_side json_runtime counter one_event_ops data_dir

at_once-IsSound : IsSound json_runtime counter one_event_ops data_dir at_once
unfolding entry
at_once-IsSound = record { named = λ id handle e. cc; holds = (tt, (tt, tt)) }

play-IsSound_example :
    IsSound json_runtime counter one_event_ops data_dir
      (play json_runtime counter one_event_ops data_dir alternating at_once)
play-IsSound_example =
    play-IsSound json_runtime counter one_event_ops data_dir alternating at_once at_once-IsSound

alternating-AreReadable :
    AreReadable json_runtime counter one_event_ops data_dir one_event_store alternating at_once
unfolding turn proceed at put looked spawned cached entry spawn evict keep cell_of
    spawn_actor_with_store load_snapshot read catch_up_from start_from catch_up
alternating-AreReadable = (
  λ e. cc,
  (
    λ e. cc,
    (
      λ e. cc,
      (λ e. cc, (λ e. empty-IsLoadable, (λ e. empty-IsLoadable, (λ e. cc, (λ e. cc, tt))))),
    ),
  ),
)

play-AreCoherent_example :
    AreCoherent json_runtime counter one_event_ops one_event_store
      (play json_runtime counter one_event_ops data_dir alternating at_once).registry.fleet
play-AreCoherent_example =
    play-AreCoherent json_runtime counter one_event_ops data_dir one_event_store json_laws
      counter-tagged alternating at_once alternating-AreReadable tt

abbrev fresh : Actor json_runtime counter one_event_ops
fresh = record { store = none; state = counter.default; stream_version = none }

nothing-cached : cached json_runtime counter one_event_ops data_dir "c-1" no_actors ≡ none
unfolding cached entry
nothing-cached = refl

fresh-spawned :
    (spawn_actor_with_store json_runtime counter one_event_ops "c-1" data_dir none
      no_actors.fleet.disk).0.0
    ≡ ok fresh
unfolding spawn_actor_with_store load_snapshot read catch_up_from start_from catch_up
fresh-spawned = refl

fresh-again :
    (spawn_actor_with_store json_runtime counter one_event_ops "c-1" data_dir
      (spawn_actor_with_store json_runtime counter one_event_ops "c-1" data_dir none
        no_actors.fleet.disk).0.1
      (spawn_actor_with_store json_runtime counter one_event_ops "c-1" data_dir none
        no_actors.fleet.disk).1).0.0
    ≡ ok fresh
unfolding spawn_actor_with_store load_snapshot read catch_up_from start_from catch_up
fresh-again = refl

side_by_side-HasTwo_example :
    HasTwo json_runtime counter one_event_ops data_dir "c-1"
      (play json_runtime counter one_event_ops data_dir alternating at_once)
side_by_side-HasTwo_example =
    side_by_side-HasTwo json_runtime counter one_event_ops data_dir "c-1" no_actors fresh fresh
      nothing-cached fresh-spawned fresh-again
