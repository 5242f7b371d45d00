-- ===== src/Rabbit/Realised.antt =====
-- What a setup that is not broken off has declared.
use workflowhub.Prelude.{
  ◌≡◌, refl, ◌∙◌, ap, sym, subst, ap₂, eq_iff, ◌⊎◌, after-ok, inl, inr, String, Bool, true, false,
  ◌==◌, eq_refl, ◌&&◌, ◌||◌, some, List, [], ◌∷◌, All, Error, Result, ok, err, if◌then◌else◌,
}
use workflowhub.Rabbit.{Amqp, QueueOptions, Exchange}
use workflowhub.Rabbit.Broker.{IsLawful, is_conflict}
use workflowhub.Rabbit.Agreement.{Agrees, perform-Agrees, perform_no_conflict}
use workflowhub.Rabbit.Table.{Call, exchange, queue, bind, perform, perform_all, Fits, expected}

-- The declaration that a call asks for is there.
abbrev pub IsMade : (A : Amqp) → Call → A.State → Type 0
IsMade A (exchange x b) s = A.exchange s x.name ≡ some (x.type, b)
IsMade A (queue q o) s = A.declared s q ≡ some o
IsMade A (bind q x k) s = A.bound s q x k ≡ true

if_both : {A : Type 0} (b : Bool) {x y z : A} → x ≡ z → y ≡ z → (if b then x else y) ≡ z
if_both true p q = p
if_both false p q = q

written :
    {A : Type 0} (b : Bool) {x y z : A} → (b ≡ true → x ≡ z) → y ≡ z → (if b then x else y) ≡ z
written true p q = p refl
written false p q = q

or_true : (b : Bool) {c : Bool} → c ≡ true → (b || c) ≡ true
or_true true h = refl
or_true false h = h

module _ (A : Amqp) (L : IsLawful A) (channel : A.Channel) where
  perform-IsMade :
      (c : Call) (s : A.State)
      → (perform A channel c s).0 ≡ ok tt
      → IsMade A c (perform A channel c s).1
  perform-IsMade (exchange x b) s h =
      L.exchange-assert_exchange channel x b s x.name h ∙ rw eq_refl refl
  perform-IsMade (queue q o) s h = L.declared-assert_queue channel q o s q h ∙ rw eq_refl refl
  perform-IsMade (bind q x k) s h = L.bound-bind_queue channel q x k s q x k h ∙ simp eq_refl

  -- A later call of the table does not undo it.
  exchange_kept :
      (c : Call) (x : Exchange) (b : Bool) (s : A.State)
      → Fits c
      → Fits (exchange x b)
      → (perform A channel c s).0 ≡ ok tt
      → IsMade A (exchange x b) s
      → IsMade A (exchange x b) (perform A channel c s).1
  exchange_kept (exchange y d) x b s f g h m =
      let same : ◌≡◌ {A = String × Bool} (y.type, d) (x.type, b) =
        ap₂ (λ k e. (k, e)) (f.0 ∙ sym g.0) (f.1 ∙ sym g.1) in
      L.exchange-assert_exchange channel y d s x.name h
      ∙ if_both (y.name == x.name) (ap some same) m
  exchange_kept (queue q o) x b s f g h m = L.exchange-assert_queue channel q o s x.name ∙ m
  exchange_kept (bind q y k) x b s f g h m = L.exchange-bind_queue channel q y k s x.name ∙ m

  queue_kept :
      (c : Call) (q : String) (o : QueueOptions) (s : A.State)
      → Fits c
      → Fits (queue q o)
      → (perform A channel c s).0 ≡ ok tt
      → IsMade A (queue q o) s
      → IsMade A (queue q o) (perform A channel c s).1
  queue_kept (exchange y d) q o s f g h m = L.declared-assert_exchange channel y d s q ∙ m
  queue_kept (queue j o') q o s f g h m =
      L.declared-assert_queue channel j o' s q h
      ∙ written (j == q) (λ e. sym f ∙ ap expected ((eq_iff j q).0 e) ∙ g) m
  queue_kept (bind j y k) q o s f g h m = L.declared-bind_queue channel j y k s q ∙ m

  bind_kept :
      (c : Call) (q x k : String) (s : A.State)
      → (perform A channel c s).0 ≡ ok tt
      → IsMade A (bind q x k) s
      → IsMade A (bind q x k) (perform A channel c s).1
  bind_kept (exchange y d) q x k s h m = L.bound-assert_exchange channel y d s q x k ∙ m
  bind_kept (queue j o') q x k s h m = L.bound-assert_queue channel j o' s q x k ∙ m
  bind_kept (bind j y l) q x k s h m =
      L.bound-bind_queue channel j y l s q x k h ∙ or_true (j == q && y == x && l == k) m

  perform_kept :
      (c d : Call) (s : A.State)
      → Fits c
      → Fits d
      → (perform A channel c s).0 ≡ ok tt
      → IsMade A d s
      → IsMade A d (perform A channel c s).1
  perform_kept c (exchange x b) s f g h m = exchange_kept c x b s f g h m
  perform_kept c (queue q o) s f g h m = queue_kept c q o s f g h m
  perform_kept c (bind q x k) s f g h m = bind_kept c q x k s h m

-- The broker answers every call but those that conflict with what it knows, and opens channels.
pub record IsOpen (A : Amqp) : Type 0 where
  pub channel_works :
      (c : A.Connection) (s : A.State) → (ch : A.Channel) × ((A.create_channel c s).0 ≡ ok ch)
  pub call_works :
      (ch : A.Channel) (c : Call) (s : A.State)
      → ((perform A ch c s).0 ≡ ok tt)
        ⊎ ((e : Error) × ((perform A ch c s).0 ≡ err e) × (is_conflict e ≡ true))

module _ (A : Amqp) (L : IsLawful A) (O : IsOpen A) where
  perform_answered :
      (ch : A.Channel) (c : Call) (s : A.State) → Fits c → Agrees A s → (perform A ch c s).0 ≡ ok tt
  perform_answered ch c s f h = elim (O.call_works ch c s) [
    | inl answered ↦ answered
    | inr (e, refused, conflict) ↦
        let none_there = perform_no_conflict A L ch c s e f h refused in absurd (cc)
  ]

  abbrev pub Made : List Call → Result (Unit {0}) × A.State → Type 0
  Made ds r = (r.0 ≡ ok tt) × Agrees A r.1 × All (λ d. IsMade A d r.1) ds

  -- A list of calls undoes nothing.
  perform_all_kept :
      (ch : A.Channel) (cs : List Call) (d : Call) (s : A.State)
      → All Fits cs
      → Fits d
      → Agrees A s
      → IsMade A d s
      → IsMade A d (perform_all A ch cs s).1
  unfolding perform_all
  perform_all_kept ch [] d s f g h m = m
  perform_all_kept ch (c ∷ cs) d s (f, fs) g h m =
      let answered = perform_answered ch c s f h in
      subst (λ (r : Result (Unit {0}) × A.State). IsMade A d r.1)
        (sym (after-ok (perform A ch c s) _ _ answered))
        (perform_all_kept ch cs d (perform A ch c s).1 fs g (perform-Agrees A L ch c s f h)
          (perform_kept A L ch c d s f g answered m))

  pub perform_all-Made :
      (ch : A.Channel) (cs : List Call) (s : A.State)
      → All Fits cs
      → Agrees A s
      → Made cs (perform_all A ch cs s)
  unfolding perform_all
  perform_all-Made ch [] s f h = (refl, h, tt)
  perform_all-Made ch (c ∷ cs) s (f, fs) h =
      let answered = perform_answered ch c s f h in
      let agrees = perform-Agrees A L ch c s f h in
      let (done, end, made) = perform_all-Made ch cs (perform A ch c s).1 fs agrees in
      subst (Made (c ∷ cs)) (sym (after-ok (perform A ch c s) _ _ answered)) (
        done,
        end,
        (
          perform_all_kept ch cs c (perform A ch c s).1 fs f agrees
              (perform-IsMade A L ch c s answered),
          made,
        ),
      )
