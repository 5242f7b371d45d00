-- ===== src/Rabbit/Setup.antt =====
-- The whole of the setup service.
use workflowhub.Prelude.{
  ◌≡◌, refl, ◌∙◌, ap, sym, subst, arith, ℕ, zero, suc, ◌+◌, ◌≤◌, after-ok, nat_beq, or_string,
  if_ind, All-map, Promise, ◌>>◌, String, Option, some, List, All, Error, Result, ok, err, after,
  after_ind,
}
use workflowhub.Rabbit.{
  Amqp, connect_loop, with_connection, establish, setup_topology, declare_topology,
}
use workflowhub.Rabbit.Broker.{IsLawful}
use workflowhub.Rabbit.Connect.{IsReady, Ends, connect_loop-Connects}
use workflowhub.Rabbit.Agreement.{Agrees, Same, Agrees-Same}
use workflowhub.Rabbit.Table.{
  Call, exchange, queue, bind, topology, declare_topology-perform_all, Fits, all_calls-Fits,
}
use workflowhub.Rabbit.Realised.{IsMade, IsOpen, Made, perform_all-Made}

-- Connecting, waiting, opening and closing declare nothing, whether or not they fail.
pub record IsQuiet (A : Amqp) : Type 0 where
  pub connect_same : (url : String) (s : A.State) → Same A s (A.connect url s).1
  pub wait_same : (n : ℕ) (s : A.State) → Same A s (A.wait n s)
  pub create_channel_same : (c : A.Connection) (s : A.State) → Same A s (A.create_channel c s).1
  pub close_channel_same : (c : A.Channel) (s : A.State) → Same A s (A.close_channel c s).1
  pub close_connection_same : (c : A.Connection) (s : A.State) → Same A s (A.close_connection c s).1

-- The state after `try … catch`, where the handler only logs.
caught :
    {W : Type 0} (r : Result (Unit {0}) × W)
    → (after {R = Result (Unit {0}) × W} r
        (λ (a : Unit {0}) w. (ok a, w))
        (λ (e : Error) w. (ok tt, w))).1
      ≡ r.1
caught (ok a, w) = refl
caught (err e, w) = refl

connected :
    (A : Amqp) (url : String) (ready : ℕ) (R : IsReady A url ready) (s : A.State)
    (r : Result (Option A.Connection) × A.State)
    → Ends A url ready R 4 s r
    → ready ≤ A.now s + 20000
    → (c : A.Connection) × (r.0 ≡ ok (some c))
connected A url ready R s (ok o, w) ((c, e), b) early = (c, ap ok e)
connected A url ready R s (err e, w) (a, late) early = absurd (omega arith)

topology-Fits : All Fits topology
topology-Fits = all_calls-Fits.1.1.1

module _ (A : Amqp) (L : IsLawful A) (O : IsOpen A) (Q : IsQuiet A) where
  Same-trans : (s t u : A.State) → Same A s t → Same A t u → Same A s u
  Same-trans s t u (d, e, b) (d', e', b') =
      (λ q. d' q ∙ d q, λ x. e' x ∙ e x, λ q x k. b' q x k ∙ b q x k)

  connect_loop-Same : (url : String) (n : ℕ) (s : A.State) → Same A s (connect_loop A url n s).1
  unfolding connect_loop
  connect_loop-Same url zero s = (λ q. refl, λ x. refl, λ q x k. refl)
  connect_loop-Same url (suc n) s =
      after_ind (λ (r : Result (Option A.Connection) × A.State). Same A s r.1) (A.connect url s) _ _
        (λ c h. Q.connect_same url s)
        (λ e h.
          let w = (A.connect url s).1 in
          let waited = Same-trans s w (A.wait 5000 w) (Q.connect_same url s) (Q.wait_same 5000 w) in
          if_ind (λ (r : Result (Option A.Connection) × A.State). Same A s r.1) (nat_beq n 0)
            (Q.connect_same url s)
            (Same-trans s (A.wait 5000 w) _ waited (connect_loop-Same url n (A.wait 5000 w))))

  -- What is made stays so where nothing is declared.
  IsMade-Same : (c : Call) (s t : A.State) → Same A s t → IsMade A c s → IsMade A c t
  IsMade-Same (exchange x b) s t (d, e, f) m = e x.name ∙ m
  IsMade-Same (queue q o) s t (d, e, f) m = d q ∙ m
  IsMade-Same (bind q x k) s t (d, e, f) m = f q x k ∙ m

  All-Same :
      (cs : List Call) (s t : A.State)
      → Same A s t
      → All (λ c. IsMade A c s) cs
      → All (λ c. IsMade A c t) cs
  All-Same cs s t same = All-map (λ c. IsMade-Same c s t same) cs

  close-Same :
      (ch : A.Channel) (connection : A.Connection) (w : A.State)
      → Same A w ((A.close_channel ch >> A.close_connection connection) w).1
  close-Same ch connection w =
      after_ind (λ (r : Result (Unit {0}) × A.State). Same A w r.1) (A.close_channel ch w) _ _
        (λ u h.
          let v = (A.close_channel ch w).1 in
          Same-trans w v _ (Q.close_channel_same ch w) (Q.close_connection_same connection v))
        (λ e h. Q.close_channel_same ch w)

  with_connection-Made :
      (connection : A.Connection) (s : A.State)
      → Agrees A s
      → All (λ c. IsMade A c (with_connection A (some connection) s).1) topology
  unfolding with_connection
  with_connection-Made connection s h =
      let (ch, opened) = O.channel_works connection s in
      let v = (A.create_channel connection s).1 in
      let (done, end, made) =
        subst (λ (m : Promise A.State (Unit {0})). Made A L O topology (m v))
          (sym (declare_topology-perform_all A ch))
          (perform_all-Made A L O ch topology v topology-Fits
            (Agrees-Same A L s v (Q.create_channel_same connection s) h)) in
      let w = (declare_topology A ch v).1 in
      subst (λ (r : Result (Unit {0}) × A.State). All (λ c. IsMade A c r.1) topology)
        (sym (
          after-ok (A.create_channel connection s) _ _ opened
          ∙ after-ok (declare_topology A ch v) _ _ done))
        (All-Same topology w _ (close-Same ch connection w) made)

  pub setup_topology-IsMade :
      (ready : ℕ) (rabbitmq_url : Option String) (s : A.State)
      → IsReady A (or_string rabbitmq_url "amqp://localhost:5672") ready
      → ready ≤ A.now s + 20000
      → Agrees A s
      → All (λ c. IsMade A c (setup_topology A rabbitmq_url s).1) topology
  unfolding setup_topology establish
  setup_topology-IsMade ready rabbitmq_url s R early h =
      let url = or_string rabbitmq_url "amqp://localhost:5672" in
      let (connection, found) =
        connected A url ready R s _ (connect_loop-Connects A url ready R s) early in
      let w = (connect_loop A url 5 s).1 in
      subst (λ t. All (λ c. IsMade A c t) topology)
        (sym (
          caught (establish A rabbitmq_url s)
          ∙ ap (λ (r : Result (Unit {0}) × A.State). r.1)
              (after-ok (connect_loop A url 5 s) _ _ found)))
        (with_connection-Made connection w (Agrees-Same A L s w (connect_loop-Same url 5 s) h))
