-- ===== src/Rabbit/Broker.antt =====
-- What libs/shared/src/rabbitmq/rabbitmq-setup.service.ts relies on: amqplib and the broker.
use workflowhub.Prelude.{
  ◌≡◌, ◌≢◌, nat_beq, String, Bool, true, false, ◌&&◌, ◌||◌, some, none, ◌==◌, num, str, Error, ok,
  err, if◌then◌else◌,
}
use workflowhub.Rabbit.{QueueOptions, Exchange, Amqp}

-- `PRECONDITION_FAILED`
abbrev pub is_conflict : Error → Bool
is_conflict e = elim e.code [ none ↦ false | some (num n) ↦ nat_beq n 406 | some (str s) ↦ false ]

-- What the code relies on. A queue or an exchange stays as it was declared first: declared again with
-- the same options, the call is answered, and only with others it is refused as a conflict. A
-- call that fails declares nothing.
pub record IsLawful (A : Amqp) : Type 0 where
  pub declared-assert_queue :
      (c : A.Channel) (q : String) (o : QueueOptions) (s : A.State) (j : String)
      → (A.assert_queue c q o s).0 ≡ ok tt
      → A.declared (A.assert_queue c q o s).1 j ≡ (if q == j then some o else A.declared s j)
  pub declared-assert_queue_err :
      (c : A.Channel) (q : String) (o : QueueOptions) (s : A.State) (e : Error) (j : String)
      → (A.assert_queue c q o s).0 ≡ err e
      → A.declared (A.assert_queue c q o s).1 j ≡ A.declared s j
  pub assert_queue_conflict :
      (c : A.Channel) (q : String) (o : QueueOptions) (s : A.State) (e : Error)
      → (A.assert_queue c q o s).0 ≡ err e
      → is_conflict e ≡ true
      → (o' : QueueOptions) × (A.declared s q ≡ some o') × (o' ≢ o)
  pub bound-assert_queue :
      (c : A.Channel) (q : String) (o : QueueOptions) (s : A.State) (j x k : String)
      → A.bound (A.assert_queue c q o s).1 j x k ≡ A.bound s j x k
  pub exchange-assert_queue :
      (c : A.Channel) (q : String) (o : QueueOptions) (s : A.State) (j : String)
      → A.exchange (A.assert_queue c q o s).1 j ≡ A.exchange s j
  pub declared-bind_queue :
      (c : A.Channel) (q x k : String) (s : A.State) (j : String)
      → A.declared (A.bind_queue c q x k s).1 j ≡ A.declared s j
  pub exchange-bind_queue :
      (c : A.Channel) (q x k : String) (s : A.State) (j : String)
      → A.exchange (A.bind_queue c q x k s).1 j ≡ A.exchange s j
  pub bound-bind_queue :
      (c : A.Channel) (q x k : String) (s : A.State) (j y l : String)
      → (A.bind_queue c q x k s).0 ≡ ok tt
      → A.bound (A.bind_queue c q x k s).1 j y l ≡ ((q == j && x == y && k == l) || A.bound s j y l)
  pub bound-bind_queue_err :
      (c : A.Channel) (q x k : String) (s : A.State) (e : Error) (j y l : String)
      → (A.bind_queue c q x k s).0 ≡ err e
      → A.bound (A.bind_queue c q x k s).1 j y l ≡ A.bound s j y l
  pub bind_queue_no_conflict :
      (c : A.Channel) (q x k : String) (s : A.State) (e : Error)
      → (A.bind_queue c q x k s).0 ≡ err e
      → is_conflict e ≡ false
  pub exchange-assert_exchange :
      (c : A.Channel) (x : Exchange) (b : Bool) (s : A.State) (j : String)
      → (A.assert_exchange c x b s).0 ≡ ok tt
      → A.exchange (A.assert_exchange c x b s).1 j
        ≡ (if x.name == j then some (x.type, b) else A.exchange s j)
  pub exchange-assert_exchange_err :
      (c : A.Channel) (x : Exchange) (b : Bool) (s : A.State) (e : Error) (j : String)
      → (A.assert_exchange c x b s).0 ≡ err e
      → A.exchange (A.assert_exchange c x b s).1 j ≡ A.exchange s j
  pub assert_exchange_conflict :
      (c : A.Channel) (x : Exchange) (b : Bool) (s : A.State) (e : Error)
      → (A.assert_exchange c x b s).0 ≡ err e
      → is_conflict e ≡ true
      → (t : String × Bool) × (A.exchange s x.name ≡ some t) × (t ≢ (x.type, b))
  pub declared-assert_exchange :
      (c : A.Channel) (x : Exchange) (b : Bool) (s : A.State) (j : String)
      → A.declared (A.assert_exchange c x b s).1 j ≡ A.declared s j
  pub bound-assert_exchange :
      (c : A.Channel) (x : Exchange) (b : Bool) (s : A.State) (j y l : String)
      → A.bound (A.assert_exchange c x b s).1 j y l ≡ A.bound s j y l
