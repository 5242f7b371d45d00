-- ===== src/Analytics/Tests.antt =====
-- Redis and the counters in memory, with scripted failures, and the theorems at concrete runs.
use workflowhub.Prelude.{
  ◌≡◌, refl, ℕ, ◌+◌, nat_beq, String, Bool, true, false, not, ◌==◌, some, none, List, [], ◌∷◌,
  arith, ok, err, new_error, if◌then◌else◌,
}
use workflowhub.Analytics.{EventData, Backend, IsLawful, handle_ids, ids}
use workflowhub.Analytics.Once.{IsHealthy, deliver, new_tasks, count-deliver}
use workflowhub.Analytics.Failure.{handle_ids_lost}

pub record Memory : Type 0 where
  pub keys : String → Bool
  pub counts : String → ℕ
  pub calls : ℕ

abbrev called : Memory → Memory
called m = record m { calls = m.calls + 1 }

abbrev set_key : String → Bool → Memory → Memory
set_key k b m = record m { keys = λ j. if k == j then b else m.keys j }

abbrev add_one : String → Memory → Memory
add_one v m = record m { counts = λ u. m.counts u + (if v == u then 1 else 0) }

-- The call with number `n` works if `works n`.
abbrev pub memory : (ℕ → Bool) → Backend
memory works = record {
  State = Memory;
  processed = λ m k. m.keys k;
  count = λ m u. m.counts u;
  set_nx = λ k ttl m. (ok (not (m.keys k)), called (set_key k true m));
  del = λ k m.
      if works m.calls
      then (ok tt, called (set_key k false m))
      else (err (new_error "redis"), called m);
  increment = λ v m.
      if works m.calls then (ok tt, called (add_one v m)) else (err (new_error "mongo"), called m);
  find_counter = λ u m. (ok (some (m.counts u)), called m);
}

pub memory-IsLawful : (works : ℕ → Bool) → IsLawful (memory works)
memory-IsLawful works = record {
  set_nx_ok = λ k ttl m b e. cc;
  processed-set_nx = λ k ttl m b j e. refl;
  count-set_nx = λ k ttl m u. refl;
  processed-del = λ k m j e. ground arith;
  processed-del_err = λ k m e j h. ground arith;
  count-del = λ k m u. ground arith;
  processed-increment = λ v m j. ground arith;
  count-increment = λ v m u e. ground arith;
  count-increment_err = λ v m e u h. ground arith;
  find_counter_ok = λ u m c e. ground arith;
}

abbrev pub always : ℕ → Bool
always n = true

pub always-IsHealthy : IsHealthy (memory always)
always-IsHealthy = record {
  set_nx_works = λ k ttl m. (not (m.keys k), refl);
  increment_works = λ u m. refl;
}

abbrev pub empty : Memory
empty = record { keys = λ k. false; counts = λ u. 0; calls = 0 }

abbrev pub event : String → String → EventData
event u t = record { task_id = some t; event_id = none; user_id = some u }

-- Two tasks of one user, one of another, a repeated delivery, and an event with no user.
abbrev events : List EventData
events =
    event "u1" "t1"
    ∷ event "u2" "t2"
    ∷ event "u1" "t1"
    ∷ record { task_id = some "t4"; event_id = none; user_id = none }
    ∷ event "u1" "t3"
    ∷ []

two_tasks : new_tasks (λ t. false) "u1" events ≡ 2
unfolding new_tasks ids
two_tasks = refl

count-deliver_example :
    (deliver (memory always) events empty).counts "u1" ≡ 0 + new_tasks (λ t. false) "u1" events
count-deliver_example =
    count-deliver (memory always) (memory-IsLawful always) always-IsHealthy events empty "u1"

-- The second call, the increment, fails.
abbrev not_second : ℕ → Bool
not_second n = if nat_beq n 1 then false else true

abbrev never : ℕ → Bool
never n = false

handle_ids_lost_example :
    let w = (handle_ids (memory never) (some ("u1", "t1")) empty).1 in
    ((handle_ids (memory never) (some ("u1", "t1")) empty).0 ≡ err (new_error "redis"))
    × ((handle_ids (memory never) (some ("u1", "t1")) w).0 ≡ ok tt)
    × ((u : String) → (handle_ids (memory never) (some ("u1", "t1")) w).1.counts u ≡ 0)
handle_ids_lost_example =
    handle_ids_lost (memory never) (memory-IsLawful never) "u1" "t1" empty refl refl refl refl
