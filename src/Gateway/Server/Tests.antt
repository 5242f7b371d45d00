-- ===== src/Gateway/Server/Tests.antt =====
-- NestJS as a function, clients that count their calls, and three logins against a limit of two.
use workflowhub.Prelude.{
  ◌==◌, ◌≡◌, refl, ℕ, ◌+◌, String, Bool, true, none, some, List, [], ◌∷◌, ok, err, Promise, after,
  new_error, take, if◌then◌else◌,
}
use workflowhub.Throttle
use workflowhub.Throttle.Tests.{memory-IsLawful, memory-IsHealthy, two}
use workflowhub.Throttle.Tests
use workflowhub.Metrics.Tests as MetricsTests
use workflowhub.Gateway.{Clients}
use workflowhub.Gateway.Server.{
  Nest, IsOrdered, Call, Parts, World, post_login, post_create, forbidden, handle, handle_all,
}
use workflowhub.Auth.{JwtPayload}
use workflowhub.Task.{TaskBody}
use workflowhub.Task.Service.Tests as TaskTests
use workflowhub.Gateway.Server.Creation
use workflowhub.Gateway.Server.Creation.{Outcome, tasks_of, handle-Outcome}
use workflowhub.Gateway.Server.Limit.{seen, seen-handle_all}

abbrev run :
    {W A : Type 0}
    → List (Promise W Bool)
    → List (Promise W A → Promise W A)
    → Promise W A
    → Promise W A
run [] [] handler = handler
run [] (f ∷ fs) handler = f (run [] fs handler)
run (g ∷ gs) fs handler = λ w.
    after (g w) (λ b v. if b then run gs fs handler v else (err forbidden, v)) (λ e v. (err e, v))

abbrev nest : Nest
nest = record { serve = run }

nest-IsOrdered : IsOrdered nest
nest-IsOrdered = record {
  serve_guard = λ g gs fs handler w. refl;
  serve_interceptor = λ f fs handler w. refl;
  serve_handler = λ handler w. refl;
}

abbrev clients : Clients
clients = record {
  State = ℕ;
  verify = λ token. err (new_error "jwt malformed");
  register = λ body n. (err (new_error "14 UNAVAILABLE"), n + 1);
  login = λ body n. (ok (record { message = "Login successful"; token = "token" }), n + 1);
  create_task = λ body n. (err (new_error "14 UNAVAILABLE"), n + 1);
  find_all_by_user_id = λ user n. (err (new_error "14 UNAVAILABLE"), n + 1);
  get_user_counter = λ user n. (ok (record { user_id = user; task_count = 0 }), n + 1);
  register_saga = λ body n. (err (new_error "14 UNAVAILABLE"), n + 1);
}

abbrev parts : Parts
parts = record {
  redis = Tests.memory;
  metrics = MetricsTests.memory;
  clients = clients;
  default_options = two;
  number = λ s. none;
}

abbrev login_call : String → Call
login_call password = record {
  context = record {
    is_http = true;
    handler_options = none;
    controller_options = none;
    request = record {
      user_id = none;
      forwarded_for = none;
      ip = some "10.0.0.1";
      remote_address = none;
      route_path = some "/auth/login";
      url = "/auth/login";
    };
  };
  observed =
      some (record { verb = some "POST"; route_path = some "/auth/login"; url = "/auth/login" });
  route = post_login (record { email = "ann@mail.org"; password = password });
}

abbrev calls : List Call
calls = login_call "a" ∷ login_call "b" ∷ login_call "c" ∷ []

abbrev start : World parts
start = record {
  counters = Tests.empty;
  observations = MetricsTests.start;
  services = 0;
  user = none;
}

seen-handle_all_example :
    seen parts (handle_all parts nest calls start)
    ≡ seen parts (handle_all parts nest (take 2 calls) start)
seen-handle_all_example =
    seen-handle_all parts nest nest-IsOrdered memory-IsLawful memory-IsHealthy
      (Throttle.redis_key (login_call "a").context.request) two calls start
      ((refl, refl, refl), ((refl, refl, refl), ((refl, refl, refl), tt))) refl

-- A gateway that knows one token, in front of the task service.
abbrev ann : JwtPayload
ann = record { id = "u1"; email = "ann@mail.org" }

abbrev knowing : Clients
knowing = record clients {
  verify = λ token. if token == "good" then ok ann else err (new_error "jwt malformed");
}

abbrev joined_parts : Parts
joined_parts =
    Creation.parts knowing (TaskTests.memory TaskTests.always)
      (TaskTests.memory-IsLawful TaskTests.always) (λ e. e) Tests.memory MetricsTests.memory two
      (λ s. none)

abbrev new_task : TaskBody
new_task = record { title = some "Write"; description = some "a report"; user_id = none }

abbrev create_call : Call
create_call = record (login_call "a") { route = post_create (some "Bearer good") new_task }

abbrev first : World joined_parts
first = record {
  counters = Tests.empty;
  observations = MetricsTests.start;
  services = record { tasks = TaskTests.empty; others = 0 };
  user = none;
}

handle-Outcome_example :
    (let r = handle joined_parts nest create_call first in
      Outcome knowing
        (TaskTests.memory TaskTests.always)
        (TaskTests.memory-IsLawful TaskTests.always)
        (λ e. e)
        Tests.memory
        MetricsTests.memory
        two
        (λ s. none)
        (some "Bearer good")
        new_task
        TaskTests.empty
        r.0
        (r.1.services.tasks))
handle-Outcome_example =
    handle-Outcome knowing (TaskTests.memory TaskTests.always)
      (TaskTests.memory-IsLawful TaskTests.always) (λ e. e) Tests.memory MetricsTests.memory two
      (λ s. none) nest create_call (some "Bearer good") new_task first nest-IsOrdered refl
