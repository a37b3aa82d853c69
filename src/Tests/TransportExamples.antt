-- ===== src/Tests/TransportExamples.antt =====
-- An authenticated client over a channel that records what goes out.
use eventfold_es.Prelude.{
  String, ◌≡◌, refl, Option, none, some, List, [], ◌∷◌, ◌++◌, Result, ok, err, str_eq,
  if◌then◌else◌,
}
use eventfold_es.Auth.{Metadata, Intercepted, passed, rejected, panicked}
use eventfold_es.Client.{any}
use eventfold_es.Client.Transport.{
  Channel, InterceptedService, Session, auth, Op, refresh, append, read_stream, subscribe,
  perform_all,
}
use eventfold_es.Client.Transport.Headers.{IsObserved, perform_all-seen}
use eventfold_es.Tests.Json.{json_runtime, Failure, broken}

abbrev recording : Channel json_runtime
recording = record {
  W = List Metadata;
  append = λ m _ w. (err (broken "read only"), w ++ m ∷ []);
  read_stream = λ m _ w. (ok [], w ++ m ∷ []);
  subscribe_all = λ m _ w. (ok [], w ++ m ∷ []);
}

abbrev intercepted :
    {Q R : Type 0}
    → Intercepted json_runtime
    → (Metadata → Q → List Metadata → Result R Failure × List Metadata)
    → Q
    → List Metadata
    → Result R Failure × List Metadata
intercepted (passed m) send q w = send m q w
intercepted (rejected status) send q w = (err status, w)
intercepted panicked send q w = (err (broken "panicked"), w)

abbrev service : InterceptedService json_runtime (List Metadata)
service = record {
  through = λ f send q w. intercepted (f []) send q w;
  sends = λ f send q w m h. rw h refl;
  refuses = λ f send q w status h. rw h refl;
}

abbrev watched : IsObserved json_runtime recording
watched = record {
  seen = λ w. w;
  appends = λ m q w. refl;
  reads = λ m q w. refl;
  subscribes = λ m p w. refl;
}

-- A token with a line break makes no header.
abbrev parse : String → Option String
parse value = if str_eq value "Bearer a\nb" then none else some value

abbrev calls : List (Op json_runtime parse recording service)
calls =
    append "s-1" any []
    ∷ refresh "one"
    ∷ read_stream "s-1" 0 9
    ∷ refresh "a\nb"
    ∷ subscribe 0
    ∷ refresh "two"
    ∷ subscribe 0
    ∷ []

abbrev unauthenticated : Session json_runtime parse recording service
unauthenticated = record { token = ""; world = [] }

perform_all-seen_example :
    (perform_all json_runtime parse recording service auth calls unauthenticated).world
    ≡ [] ∷ (("authorization", "Bearer one") ∷ []) ∷ (("authorization", "Bearer two") ∷ []) ∷ []
perform_all-seen_example =
    perform_all-seen json_runtime parse recording service watched calls unauthenticated
