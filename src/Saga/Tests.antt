-- ===== src/Saga/Tests.antt =====
-- Three small services with scripted failures, and the theorems about the saga at runs over them.
use workflowhub.Prelude.{
  ◌≡◌, refl, ℕ, String, Bool, true, false, Option, some, none, List, [], ◌∷◌, Document, without,
  Error, Result, ok, err, new_error, num, if◌then◌else◌,
}
use workflowhub.Saga.{
  Services, RegisterDto, AuthResponse, WelcomeTask, http_exception, execute_registration_saga,
}
use workflowhub.HttpStatus.{to_http_status}

record World : Type 0 where
  users : List (Document RegisterDto)
  tasks : List (Document WelcomeTask)

-- Which of the steps are refused.
record Script : Type 0 where
  no_user : Bool
  no_task : Bool
  no_notice : Bool

abbrev exists : Error
exists = record {
  name = some "Error";
  message = some "User already exists";
  details = some "User already exists";
  code = some (num 2);
  status = none;
  status_code = none;
}

abbrev answer_for : RegisterDto → AuthResponse
answer_for dto = record {
  user = some (record { id = some "u1"; name = dto.name; email = dto.email });
  token = "token";
}

-- Each collection takes one document.
abbrev add_user : RegisterDto → World → Result AuthResponse × World
add_user dto w = elim w.users [
  | [] ↦ (ok (answer_for dto), record w { users = record { id = "u1"; fields = dto } ∷ [] })
  | _ ↦ (err exists, w)
]

abbrev add_task : WelcomeTask → World → Result (Option String) × World
add_task t w = elim w.tasks [
  | [] ↦ (ok (some "t1"), record w { tasks = record { id = "t1"; fields = t } ∷ [] })
  | _ ↦ (err (new_error "full"), w)
]

abbrev services : Script → Services
services c = record {
  State = World;
  User = RegisterDto;
  Task = WelcomeTask;
  users = λ w. w.users;
  tasks = λ w. w.tasks;
  register = λ dto w. if c.no_user then (err exists, w) else add_user dto w;
  delete_user = λ i w. (ok tt, record w { users = without i w.users });
  create_saga = λ t w. if c.no_task then (err (new_error "down"), w) else add_task t w;
  delete_saga = λ i w. (ok tt, record w { tasks = without i w.tasks });
  send_saga = λ n w. if c.no_notice then (err (new_error "down"), w) else (ok (some "n1"), w);
  delete_notification = λ i w. (ok tt, w);
}

abbrev no_number : String → Option ℕ
no_number s = none

abbrev dto : RegisterDto
dto = record { name = "Ann"; email = "ann@mail.org"; password = "secret1" }

abbrev empty : World
empty = record { users = []; tasks = [] }

abbrev no_notice : Script
no_notice = record { no_user = false; no_task = false; no_notice = true }

-- The last step fails: both compensations run.
last_step :
    execute_registration_saga (services no_notice) no_number dto empty
    ≡ (err (http_exception "down" 500), empty)
unfolding execute_registration_saga without to_http_status
last_step = refl
