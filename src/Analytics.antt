-- ===== src/Analytics.antt =====
-- apps/analytics-service/src/analytics-service.{controller,service}.ts: the counters of tasks by
-- user, fed by Kafka and guarded against repeated deliveries by keys in Redis.
pub mod Once
pub mod Failure
pub mod Tests
use workflowhub.Prelude.{
  ◌≡◌, ℕ, ◌+◌, String, ◌<>◌, Bool, true, false, not, Option, some, none, ◌==◌, Error, Result, ok,
  err, Promise, ◌>>=◌, ◌>>◌, pure, throw, try_catch, after, or_else, truthy_value, if◌then◌else◌,
}

-- The value of a message of `task.created`, as a consumer reads it: any field may be missing.
pub record EventData : Type 0 where
  pub task_id : Option String
  pub event_id : Option String
  pub user_id : Option String

-- Redis and the collection of counters. `processed` tells whether a key is set, and `count` the
-- stored `taskCount` of a user, 0 if there is none.
pub record Backend : Type 1 where
  pub State : Type 0
  pub processed : State → String → Bool
  pub count : State → String → ℕ
  pub set_nx : String → ℕ → Promise State Bool
  pub del : String → Promise State (Unit {0})
  pub increment : String → Promise State (Unit {0})
  pub find_counter : String → Promise State (Option ℕ)

-- 24 hours, in seconds.
abbrev pub lock_ttl : ℕ
lock_ttl = 86400

abbrev pub lock_key : String → String
lock_key task_id = "analytics:event:" <> task_id

-- The user and the task of an event, unless one is missing: the test before the lock.
unfoldable pub ids : EventData → Option (String × String)
ids event = elim (truthy_value event.user_id) [
  | none ↦ none
  | some user_id ↦ elim (truthy_value (or_else event.task_id event.event_id)) [
    | none ↦ none
    | some task_id ↦ some (user_id, task_id)
  ]
]

pub record UserCounterResponse : Type 0 where
  pub user_id : String
  pub task_count : ℕ

module _ (B : Backend) where
  -- `incrementUserCounter`
  pub increment_user_counter : String → Promise B.State (Unit {0})
  increment_user_counter user_id = B.increment user_id

  -- `getUserCounter`
  pub get_user_counter : String → Promise B.State (Option ℕ)
  get_user_counter user_id = B.find_counter user_id

  -- The increment under the lock, which a failure gives back.
  pub count_locked : String → String → Promise B.State (Unit {0})
  unfolding increment_user_counter
  count_locked user_id task_id =
      try_catch (increment_user_counter user_id) (λ error. B.del (lock_key task_id) >> throw error)

  pub handle_ids : Option (String × String) → Promise B.State (Unit {0})
  unfolding count_locked
  handle_ids none = pure tt
  handle_ids (some (user_id, task_id)) = do
    result ← B.set_nx (lock_key task_id) lock_ttl
    if result then count_locked user_id task_id else pure tt

  pub handle_task_created : EventData → Promise B.State (Unit {0})
  handle_task_created event = handle_ids (ids event)

  abbrev pub grpc_get_user_counter : String → Promise B.State UserCounterResponse
  unfolding get_user_counter
  grpc_get_user_counter user_id = do
    counter ← get_user_counter user_id
    pure (record {
      user_id = user_id;
      task_count = elim counter [ none ↦ 0 | some task_count ↦ task_count ];
    })

-- What the handlers rely on, within the 24 hours for which a key lives: `SET … NX` answers OK just
-- where the key was not set, and a refused update was not applied.
pub record IsLawful (B : Backend) : Type 0 where
  pub set_nx_ok :
      (k : String) (ttl : ℕ) (s : B.State) (b : Bool)
      → (B.set_nx k ttl s).0 ≡ ok b
      → b ≡ not (B.processed s k)
  pub processed-set_nx :
      (k : String) (ttl : ℕ) (s : B.State) (b : Bool) (j : String)
      → (B.set_nx k ttl s).0 ≡ ok b
      → B.processed (B.set_nx k ttl s).1 j ≡ (if k == j then true else B.processed s j)
  pub count-set_nx :
      (k : String) (ttl : ℕ) (s : B.State) (u : String)
      → B.count (B.set_nx k ttl s).1 u ≡ B.count s u
  pub processed-del :
      (k : String) (s : B.State) (j : String)
      → (B.del k s).0 ≡ ok tt
      → B.processed (B.del k s).1 j ≡ (if k == j then false else B.processed s j)
  pub processed-del_err :
      (k : String) (s : B.State) (e : Error) (j : String)
      → (B.del k s).0 ≡ err e
      → B.processed (B.del k s).1 j ≡ B.processed s j
  pub count-del : (k : String) (s : B.State) (u : String) → B.count (B.del k s).1 u ≡ B.count s u
  pub processed-increment :
      (v : String) (s : B.State) (j : String) → B.processed (B.increment v s).1 j ≡ B.processed s j
  pub count-increment :
      (v : String) (s : B.State) (u : String)
      → (B.increment v s).0 ≡ ok tt
      → B.count (B.increment v s).1 u ≡ B.count s u + (if v == u then 1 else 0)
  pub count-increment_err :
      (v : String) (s : B.State) (e : Error) (u : String)
      → (B.increment v s).0 ≡ err e
      → B.count (B.increment v s).1 u ≡ B.count s u
  pub find_counter_ok :
      (u : String) (s : B.State) (c : Option ℕ)
      → (B.find_counter u s).0 ≡ ok c
      → B.count s u ≡ (elim c [ none ↦ 0 | some n ↦ n ])
