-- ===== src/Tests/OrderExamples.antt =====
-- Two projections of the live loop, in either order.
use mathlib.Core.List.{Perm}
use mathlib.Core.List.Perm
use mathlib.Core.Quot
use mathlib.Core.Quot.{Quot}
use eventfold_es.Prelude.{true, ◌≡◌, ap, List, [], ◌∷◌}
use eventfold_es.Projection.{ProjectionRunner}
use eventfold_es.Live.{
  DynProjection, Live, erase_projection, min_global_position, process_stream_with_dispatch,
}
use eventfold_es.Live.Order.{View, view, order_is_irrelevant}
use eventfold_es.Tests.Json.{json_runtime}
use eventfold_es.Tests.Readers.{two_event_grpc, counting, dead_letters}
use eventfold_es.Tests.LiveExamples.{reader, live_start, both_events}

abbrev newcomer : ProjectionRunner json_runtime counting
newcomer = record {
  checkpoint = record { state = 0; last_global_position = 0 };
  checkpoint_dir = "newcomer" ∷ [];
}

abbrev ahead_first : List (DynProjection json_runtime two_event_grpc)
ahead_first =
    erase_projection json_runtime counting two_event_grpc reader
    ∷ erase_projection json_runtime counting two_event_grpc newcomer
    ∷ []

abbrev behind_first : List (DynProjection json_runtime two_event_grpc)
behind_first =
    erase_projection json_runtime counting two_event_grpc newcomer
    ∷ erase_projection json_runtime counting two_event_grpc reader
    ∷ []

abbrev with_projections :
    List (DynProjection json_runtime two_event_grpc) → Live json_runtime two_event_grpc (Unit {0})
with_projections ps = record live_start { projections = ps }

same_view :
    view json_runtime two_event_grpc (Unit {0}) (with_projections ahead_first)
    ≡ view json_runtime two_event_grpc (Unit {0}) (with_projections behind_first)
same_view =
    let seen : Quot (Perm {A = DynProjection json_runtime two_event_grpc})
        → View json_runtime two_event_grpc (Unit {0}) =
      λ q. record {
        projections = q;
        process_managers = live_start.process_managers;
        outside = live_start.outside;
        is_caught_up = live_start.is_caught_up;
        position = live_start.position;
      } in
    ap seen (Quot.sound (Perm.swap _ _ []))

order_is_irrelevant_example :
    (min_global_position json_runtime two_event_grpc ahead_first live_start.process_managers
      ≡ min_global_position json_runtime two_event_grpc behind_first live_start.process_managers)
    × ((process_stream_with_dispatch json_runtime two_event_grpc
          (Unit {0})
          (dead_letters two_event_grpc)
          []
          (λ _. true)
          both_events
          (with_projections ahead_first)).0
        ≡ (process_stream_with_dispatch json_runtime two_event_grpc
            (Unit {0})
            (dead_letters two_event_grpc)
            []
            (λ _. true)
            both_events
            (with_projections behind_first)).0)
    × (view json_runtime two_event_grpc
          (Unit {0})
          (process_stream_with_dispatch json_runtime two_event_grpc
            (Unit {0})
            (dead_letters two_event_grpc)
            []
            (λ _. true)
            both_events
            (with_projections ahead_first)).1
        ≡ view json_runtime two_event_grpc
            (Unit {0})
            (process_stream_with_dispatch json_runtime two_event_grpc
              (Unit {0})
              (dead_letters two_event_grpc)
              []
              (λ _. true)
              both_events
              (with_projections behind_first)).1)
order_is_irrelevant_example =
    order_is_irrelevant json_runtime two_event_grpc (Unit {0}) (dead_letters two_event_grpc) []
      (λ _. true) both_events (with_projections ahead_first) (with_projections behind_first)
      same_view
