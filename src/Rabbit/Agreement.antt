-- ===== src/Rabbit/Agreement.antt =====
-- The participants declare the same queues, each in its own file and in any order.
use workflowhub.Prelude.{
  ◌≡◌, refl, ◌∙◌, ap, sym, subst, ap₂, ◌⊎◌, inl, inr, String, Bool, true, false, ◌==◌, eq_iff, ◌&&◌,
  ◌||◌, Option, some, arith, Member, Error, err, Result-cases, Bool-cases, if◌then◌else◌,
}
use workflowhub.Rabbit.{Amqp, QueueOptions, Exchange}
use workflowhub.Rabbit.Broker.{IsLawful, is_conflict}
use workflowhub.Rabbit.Table.{
  Call, exchange, queue, bind, all_calls, expected, bindings, Fits, all_calls-Fits, Member-Fits,
  perform,
}

-- What the broker knows agrees with the table.
pub record Agrees (A : Amqp) (s : A.State) : Type 0 where
  pub of_queue : (q : String) (o : QueueOptions) → A.declared s q ≡ some o → expected q ≡ some o
  pub of_exchange :
      (x : String) (t : String × Bool) → A.exchange s x ≡ some t → t ≡ ("direct", true)
  pub of_binding : (q x k : String) → A.bound s q x k ≡ true → Member (q, x, k) bindings

-- Nothing has been declared in between.
abbrev pub Same : (A : Amqp) → A.State → A.State → Type 0
Same A s t =
    ((q : String) → A.declared t q ≡ A.declared s q)
    × ((x : String) → A.exchange t x ≡ A.exchange s x)
    × ((q x k : String) → A.bound t q x k ≡ A.bound s q x k)

-- The system as the broker sees it: any participant makes any of the calls, on any channel, at any
-- time, and in between the broker does what declares nothing.
pub data Step (A : Amqp) (s : A.State) (t : A.State) : Type 0 where
  calls :
      (channel : A.Channel) (c : Call)
      → Member c all_calls
      → t ≡ (perform A channel c s).1
      → Step A s t
  passes : Same A s t → Step A s t

pub data Reach (A : Amqp) (s : A.State) : A.State → Type 0 where
  here : Reach A s s
  next : {t u : A.State} → Reach A s t → Step A t u → Reach A s u

-- What an entry is after an entry has been written.
found :
    {A : Type 0} (b : Bool) (new : A) (old : Option A) (a : A)
    → (if b then some new else old) ≡ some a
    → ((b ≡ true) × (new ≡ a)) ⊎ (old ≡ some a)
found true new old a e = inl (refl, cc)
found false new old a e = inr e

some_eq : {A : Type 0} (a b : A) → ◌≡◌ {A = Option A} (some a) (some b) → a ≡ b
some_eq a b h = cc

either : (b c : Bool) → (b || c) ≡ true → (b ≡ true) ⊎ (c ≡ true)
either true c h = inl refl
either false c h = inr h

same_binding :
    (q j x y k l : String)
    → (q == j && x == y && k == l) ≡ true
    → ◌≡◌ {A = String × String × String} (q, x, k) (j, y, l)
same_binding q j x y k l h = ground (arith, eq_iff q j, eq_iff x y, eq_iff k l)

module _ (A : Amqp) (L : IsLawful A) where
  pub Agrees-Same : (s t : A.State) → Same A s t → Agrees A s → Agrees A t
  Agrees-Same s t (d, e, b) h = record {
    of_queue = λ q o p. h.of_queue q o (sym (d q) ∙ p);
    of_exchange = λ x y p. h.of_exchange x y (sym (e x) ∙ p);
    of_binding = λ q x k p. h.of_binding q x k (sym (b q x k) ∙ p);
  }

  assert_exchange-Agrees :
      (channel : A.Channel) (x : Exchange) (b : Bool) (s : A.State)
      → Fits (exchange x b)
      → Agrees A s
      → Agrees A (A.assert_exchange channel x b s).1
  assert_exchange-Agrees channel x b s f h = record {
    of_queue = λ q o p. h.of_queue q o (sym (L.declared-assert_exchange channel x b s q) ∙ p);
    of_exchange = λ y t p. elim (Result-cases (A.assert_exchange channel x b s).0) [
      | inl (u, e) ↦
          elim (found (x.name == y) (x.type, b) (A.exchange s y) t
            (sym (L.exchange-assert_exchange channel x b s y e) ∙ p)) [
              | inl (same, is) ↦ sym is ∙ ap₂ (λ k d. (k, d)) f.0 f.1
              | inr old ↦ h.of_exchange y t old
            ]
      | inr (error, e) ↦
          h.of_exchange y t (sym (L.exchange-assert_exchange_err channel x b s error y e) ∙ p)
    ];
    of_binding =
        λ q y k p. h.of_binding q y k (sym (L.bound-assert_exchange channel x b s q y k) ∙ p);
  }

  assert_queue-Agrees :
      (channel : A.Channel) (q : String) (o : QueueOptions) (s : A.State)
      → Fits (queue q o)
      → Agrees A s
      → Agrees A (A.assert_queue channel q o s).1
  assert_queue-Agrees channel q o s f h = record {
    of_queue = λ j o' p. elim (Result-cases (A.assert_queue channel q o s).0) [
      | inl (u, e) ↦
          elim (found (q == j) o (A.declared s j) o'
            (sym (L.declared-assert_queue channel q o s j e) ∙ p)) [
              | inl (same, is) ↦
                  subst (λ i. expected i ≡ some o') ((eq_iff q j).0 same) (f ∙ ap some is)
              | inr old ↦ h.of_queue j o' old
            ]
      | inr (error, e) ↦
          h.of_queue j o' (sym (L.declared-assert_queue_err channel q o s error j e) ∙ p)
    ];
    of_exchange = λ x t p. h.of_exchange x t (sym (L.exchange-assert_queue channel q o s x) ∙ p);
    of_binding = λ j x k p. h.of_binding j x k (sym (L.bound-assert_queue channel q o s j x k) ∙ p);
  }

  bind_queue-Agrees :
      (channel : A.Channel) (q x k : String) (s : A.State)
      → Fits (bind q x k)
      → Agrees A s
      → Agrees A (A.bind_queue channel q x k s).1
  bind_queue-Agrees channel q x k s f h = record {
    of_queue = λ j o p. h.of_queue j o (sym (L.declared-bind_queue channel q x k s j) ∙ p);
    of_exchange = λ y t p. h.of_exchange y t (sym (L.exchange-bind_queue channel q x k s y) ∙ p);
    of_binding = λ j y l p. elim (Result-cases (A.bind_queue channel q x k s).0) [
      | inl (u, e) ↦
          elim (either (q == j && x == y && k == l) (A.bound s j y l)
            (sym (L.bound-bind_queue channel q x k s j y l e) ∙ p)) [
              | inl same ↦ subst (λ t. Member t bindings) (same_binding q j x y k l same) f
              | inr old ↦ h.of_binding j y l old
            ]
      | inr (error, e) ↦
          h.of_binding j y l (sym (L.bound-bind_queue_err channel q x k s error j y l e) ∙ p)
    ];
  }

  pub perform-Agrees :
      (channel : A.Channel) (c : Call) (s : A.State)
      → Fits c
      → Agrees A s
      → Agrees A (perform A channel c s).1
  perform-Agrees channel (exchange x b) s f h = assert_exchange-Agrees channel x b s f h
  perform-Agrees channel (queue q o) s f h = assert_queue-Agrees channel q o s f h
  perform-Agrees channel (bind q x k) s f h = bind_queue-Agrees channel q x k s f h

  pub perform_no_conflict :
      (channel : A.Channel) (c : Call) (s : A.State) (e : Error)
      → Fits c
      → Agrees A s
      → (perform A channel c s).0 ≡ err e
      → is_conflict e ≡ false
  perform_no_conflict channel (exchange x b) s e f h refused = elim (Bool-cases (is_conflict e)) [
    | inl yes_conflict ↦
        let (t, is, other) = L.assert_exchange_conflict channel x b s e refused yes_conflict in
        absurd (other (h.of_exchange x.name t is ∙ sym (ap₂ (λ k d. (k, d)) f.0 f.1)))
    | inr none_there ↦ none_there
  ]
  perform_no_conflict channel (queue q o) s e f h refused = elim (Bool-cases (is_conflict e)) [
    | inl yes_conflict ↦
        let (o', is, other) = L.assert_queue_conflict channel q o s e refused yes_conflict in
        let same : o' ≡ o = some_eq o' o (sym (h.of_queue q o' is) ∙ f) in absurd (other same)
    | inr none_there ↦ none_there
  ]
  perform_no_conflict channel (bind q x k) s e f h refused =
      L.bind_queue_no_conflict channel q x k s e refused

  Step-Agrees : {s t : A.State} → Step A s t → Agrees A s → Agrees A t
  Step-Agrees {s} (calls channel c m e) h =
      subst (Agrees A) (sym e)
        (perform-Agrees channel c s (Member-Fits all_calls c all_calls-Fits m) h)
  Step-Agrees {s} {t} (passes same) h = Agrees-Same s t same h

  pub Reach-Agrees : {s t : A.State} → Agrees A s → Reach A s t → Agrees A t
  Reach-Agrees h here = h
  Reach-Agrees h (next r st) = Step-Agrees st (Reach-Agrees h r)

  -- Starting from a broker that agrees with the table, such as one that knows nothing, and however the
  -- calls of the setup services, of the clients of the gateway and of the task service and of the
  -- consumer are interleaved, repeated or broken off, the broker refuses none of them for other
  -- options than it was declared with.
  pub perform-Reach :
      {s t : A.State} (channel : A.Channel) (c : Call) (e : Error)
      → Agrees A s
      → Reach A s t
      → Member c all_calls
      → (perform A channel c t).0 ≡ err e
      → is_conflict e ≡ false
  perform-Reach {t = t} channel c e h r m refused =
      perform_no_conflict channel c t e (Member-Fits all_calls c all_calls-Fits m)
        (Reach-Agrees h r) refused
