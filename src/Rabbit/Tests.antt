-- ===== src/Rabbit/Tests.antt =====
-- A broker in memory, which can be reached after 12 seconds.
use workflowhub.Prelude.{
  ◌≡◌, refl, ℕ, ◌+◌, leb, not, String, Bool, true, false, ◌&&◌, ◌||◌, ◌==◌, Option, none, some, [],
  ◌∷◌, arith, num, Error, Result, ok, err, new_error, inl, inr, ◌⊎◌, All, if◌then◌else◌,
}
use workflowhub.Rabbit.{
  Amqp, QueueOptions, Exchange, connect_loop, setup_topology, get_retry_count, main_options, notify,
  consumer_queue,
}
use workflowhub.Rabbit.Broker.{IsLawful, is_conflict}
use workflowhub.Rabbit.Table.{Call, exchange, queue, bind, perform, topology}
use workflowhub.Rabbit.Connect.{IsReady, Ends, connect_loop-Connects}
use workflowhub.Rabbit.Agreement.{Agrees, Reach, here, next, calls, perform-Reach}
use workflowhub.Rabbit.Realised.{IsMade, IsOpen}
use workflowhub.Rabbit.Setup.{IsQuiet}
use workflowhub.Rabbit.DeadLetters.{
  Letters, stays, moves, letters, IsCycled, Travels-Avoids, setup_topology-Letters,
}

record Memory : Type 0 where
  queues : String → Option QueueOptions
  bindings : String → String → String → Bool
  exchanges : String → Option (String × Bool)
  tries : ℕ
  clock : ℕ

abbrev conflict : Error
conflict = record (new_error "PRECONDITION_FAILED") { code = some (num 406) }

abbrev closed : Error
closed = new_error "Channel closed"

abbrev same : Bool → Bool → Bool
same true b = b
same false b = not b

abbrev set_queue : String → QueueOptions → Memory → Memory
set_queue q o m = record m { queues = λ j. if q == j then some o else m.queues j }

abbrev set_exchange : Exchange → Bool → Memory → Memory
set_exchange x b m = record m {
  exchanges = λ j. if x.name == j then some (x.type, b) else m.exchanges j;
}

abbrev set_binding : String → String → String → Memory → Memory
set_binding q x k m = record m {
  bindings = λ j y l. (q == j && x == y && k == l) || m.bindings j y l;
}

abbrev answer_if : Bool → Error → Memory → Memory → Result (Unit {0}) × Memory
answer_if true e m w = (ok tt, w)
answer_if false e m w = (err e, m)

-- May a queue be declared anew, and an exchange?
abbrev fits_queue : Option QueueOptions → QueueOptions → Bool
fits_queue none o = true
fits_queue (some o') o = same o'.durable o.durable

abbrev fits_exchange : Option (String × Bool) → Bool → Bool
fits_exchange none b = true
fits_exchange (some (t, c)) b = same c b

abbrev memory : Bool → Amqp
memory up = record {
  State = Memory;
  Connection = Unit {0};
  Channel = Unit {0};
  declared = λ m q. m.queues q;
  bound = λ m q x k. m.bindings q x k;
  exchange = λ m x. m.exchanges x;
  attempts = λ m. m.tries;
  now = λ m. m.clock;
  connect = λ url m. (
    if leb 12000 m.clock then ok tt else err (new_error "ECONNREFUSED"),
    record m { tries = m.tries + 1 },
  );
  wait = λ n m. record m { clock = m.clock + n };
  create_channel = λ c m. (ok tt, m);
  assert_exchange = λ c x b m.
      if up
      then answer_if (fits_exchange (m.exchanges x.name) b) conflict m (set_exchange x b m)
      else (err closed, m);
  assert_queue = λ c q o m.
      if up
      then answer_if (fits_queue (m.queues q) o) conflict m (set_queue q o m)
      else (err closed, m);
  bind_queue = λ c q x k m. answer_if up closed m (set_binding q x k m);
  close_channel = λ c m. (ok tt, m);
  close_connection = λ c m. (err closed, m);
}

memory-IsLawful : (up : Bool) → IsLawful (memory up)
memory-IsLawful up = record {
  declared-assert_queue = λ c q o s j h. ground arith;
  declared-assert_queue_err = λ c q o s e j h. ground arith;
  assert_queue_conflict = λ c q o s e h k. ground arith;
  bound-assert_queue = λ c q o s j x k. ground arith;
  exchange-assert_queue = λ c q o s j. ground arith;
  declared-bind_queue = λ c q x k s j. ground arith;
  exchange-bind_queue = λ c q x k s j. ground arith;
  bound-bind_queue = λ c q x k s j y l h. ground arith;
  bound-bind_queue_err = λ c q x k s e j y l h. ground arith;
  bind_queue_no_conflict = λ c q x k s e h. ground arith;
  exchange-assert_exchange = λ c x b s j h. ground arith;
  exchange-assert_exchange_err = λ c x b s e j h. ground arith;
  assert_exchange_conflict = λ c x b s e h k. ground arith;
  declared-assert_exchange = λ c x b s j. ground arith;
  bound-assert_exchange = λ c x b s j y l. ground arith;
}

answered_if :
    (b : Bool) (m w : Memory)
    → ((answer_if b conflict m w).0 ≡ ok tt)
      ⊎ ((e : Error) × ((answer_if b conflict m w).0 ≡ err e) × (is_conflict e ≡ true))
answered_if true m w = inl refl
answered_if false m w = inr (conflict, refl, refl)

memory_works :
    (ch : Unit {0}) (c : Call) (m : Memory)
    → ((perform (memory true) ch c m).0 ≡ ok tt)
      ⊎ ((e : Error) × ((perform (memory true) ch c m).0 ≡ err e) × (is_conflict e ≡ true))
memory_works ch (exchange x b) m =
    answered_if (fits_exchange (m.exchanges x.name) b) m (set_exchange x b m)
memory_works ch (queue q o) m = answered_if (fits_queue (m.queues q) o) m (set_queue q o m)
memory_works ch (bind q x k) m = inl refl

memory-IsOpen : IsOpen (memory true)
memory-IsOpen = record { channel_works = λ c s. (tt, refl); call_works = memory_works }

memory-IsQuiet : IsQuiet (memory true)
memory-IsQuiet = record {
  connect_same = λ url s. (λ q. refl, λ x. refl, λ q x k. refl);
  wait_same = λ n s. (λ q. refl, λ x. refl, λ q x k. refl);
  create_channel_same = λ c s. (λ q. refl, λ x. refl, λ q x k. refl);
  close_channel_same = λ c s. (λ q. refl, λ x. refl, λ q x k. refl);
  close_connection_same = λ c s. (λ q. refl, λ x. refl, λ q x k. refl);
}

abbrev url : String
url = "amqp://localhost:5672"

memory-IsReady : IsReady (memory true) url 12000
memory-IsReady = record {
  connect_ready = λ s h. (tt, ground arith);
  now-connect = λ s. omega arith;
  now-wait = λ n s. omega arith;
  attempts-connect = λ s. refl;
  attempts-wait = λ n s. refl;
}

abbrev empty : Memory
empty = record {
  queues = λ q. none;
  bindings = λ q x k. false;
  exchanges = λ x. none;
  tries = 0;
  clock = 0;
}

empty-Agrees : (up : Bool) → Agrees (memory up) empty
empty-Agrees up = record {
  of_queue = λ q o e. absurd (cc);
  of_exchange = λ x t e. absurd (cc);
  of_binding = λ q x k e. absurd (cc);
}

-- The fourth attempt succeeds.
fourth : (connect_loop (memory true) url 5 empty).1.tries ≡ 4
unfolding connect_loop
fourth = refl

retries : get_retry_count (some (record { queue = notify.retry; count = 3 } ∷ [])) notify.retry ≡ 3
unfolding get_retry_count
retries = refl

connect_loop-Connects_example :
    Ends (memory true) url 12000 memory-IsReady 4 empty (connect_loop (memory true) url 5 empty)
connect_loop-Connects_example = connect_loop-Connects (memory true) url 12000 memory-IsReady empty

perform-Reach_example : is_conflict closed ≡ false
perform-Reach_example =
    perform-Reach (memory false) (memory-IsLawful false) {s = empty} {t = empty} tt
      (queue consumer_queue.0 consumer_queue.1) closed (empty-Agrees false) here
      (inr (inr (inl refl))) refl

-- A broker to which a client has declared the main queue, and the setup has bound the retry queue.
abbrev declared_once : Memory
declared_once = (perform (memory true) tt (queue consumer_queue.0 consumer_queue.1) empty).1

abbrev bound_once : Memory
bound_once =
    (perform (memory true) tt (bind notify.retry "retry.exchange" notify.retry) declared_once).1

bound_once-Reach : Reach (memory true) empty bound_once
bound_once-Reach =
    next
      (next here (calls tt (queue consumer_queue.0 consumer_queue.1) (inr (inr (inl refl))) refl))
      (calls tt (bind notify.retry "retry.exchange" notify.retry)
        (inr (inr (inr (inr (inr (inr (inr (inr (inr (inl refl)))))))))) refl)

Travels-Avoids_example : IsCycled notify.retry
Travels-Avoids_example =
    Travels-Avoids (memory true) empty bound_once notify.retry (memory-IsLawful true)
      (empty-Agrees true) bound_once-Reach
      (moves stays
        (letters (main_options notify) "retry.exchange" notify.retry refl refl refl refl))

setup_topology-Letters_example :
    let end = (setup_topology (memory true) none empty).1 in
    All (λ c. IsMade (memory true) c end) topology
    × Letters (memory true) end notify.main notify.retry
    × Letters (memory true) end notify.retry notify.main
setup_topology-Letters_example =
    setup_topology-Letters (memory true) (memory-IsLawful true) memory-IsOpen memory-IsQuiet 12000
      none empty memory-IsReady (omega arith) (empty-Agrees true)
