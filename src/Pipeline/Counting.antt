-- ===== src/Pipeline/Counting.antt =====
-- How many new tasks there are in what Kafka delivers.
use workflowhub.Prelude.{
  ◌≡◌, refl, ◌∙◌, ap, sym, subst, inl, inr, ℕ, ◌+◌, String, Bool, true, false, ◌==◌, ◌||◌, eq_iff,
  eq_refl, Option, some, List, [], ◌∷◌, arith, Member, Bool-cases, if◌then◌else◌,
}
use workflowhub.Analytics.{EventData, ids}
use workflowhub.Analytics.Once.{new_tasks}
use workflowhub.Pipeline.{TaskId, HasNo, IsDistinct, owned}

-- What a task adds to the counter of a user.
abbrev worth : (String → Bool) → String → TaskId → ℕ
worth seen u (v, t) = if seen t then 0 else if v == u then 1 else 0

unseen : (String → Bool) → String → List TaskId → ℕ
unseen seen u [] = 0
unseen seen u (x ∷ rest) = worth seen u x + unseen seen u rest

abbrev and_seen : String → (String → Bool) → String → Bool
and_seen t seen x = t == x || seen x

-- A task that is not among the others changes nothing for them.
unseen-HasNo :
    (seen : String → Bool) (u t : String) (tasks : List TaskId)
    → HasNo t tasks
    → unseen (and_seen t seen) u tasks ≡ unseen seen u tasks
unfolding unseen
unseen-HasNo seen u t [] h = refl
unseen-HasNo seen u t ((v, x) ∷ rest) (n, h) =
    let other : (t == x) ≡ false = ground (arith, eq_iff t x, eq_iff x t) in
    rw other (ap (λ k. worth seen u (v, x) + k) (unseen-HasNo seen u t rest h))

HasNo-Member :
    (t v x : String) (tasks : List TaskId) → HasNo t tasks → Member (v, x) tasks → (x == t) ≡ false
HasNo-Member t v x [] h m = absurd m
HasNo-Member t v x ((w, y) ∷ rest) (n, h) (inl e) = ap (λ (p : TaskId). p.1 == t) e ∙ n
HasNo-Member t v x ((w, y) ∷ rest) (n, h) (inr m) = HasNo-Member t v x rest h m

unseen_first :
    (seen : String → Bool) (u : String) (x : TaskId) (rest : List TaskId)
    → HasNo x.1 rest
    → unseen seen u (x ∷ rest) ≡ worth seen u x + unseen (and_seen x.1 seen) u (x ∷ rest)
unfolding unseen
unseen_first seen u (w, y) rest h =
    let none_left : worth (and_seen y seen) u (w, y) ≡ 0 = rw eq_refl refl in
    omega (arith, none_left, unseen-HasNo seen u y rest h)

-- Seeing a task for the first time takes its worth away from what is unseen.
unseen-Member :
    (seen : String → Bool) (u v t : String) (tasks : List TaskId)
    → IsDistinct tasks
    → Member (v, t) tasks
    → unseen seen u tasks ≡ worth seen u (v, t) + unseen (and_seen t seen) u tasks
unfolding unseen
unseen-Member seen u v t [] d m = absurd m
unseen-Member seen u v t ((w, y) ∷ rest) (h, d) (inl e) =
    subst
      (λ (p : TaskId).
        unseen seen u ((w, y) ∷ rest)
        ≡ worth seen u p + unseen (and_seen p.1 seen) u ((w, y) ∷ rest))
      (sym e) (unseen_first seen u (w, y) rest h)
unseen-Member seen u v t ((w, y) ∷ rest) (h, d) (inr m) =
    let other : (t == y) ≡ false = HasNo-Member y v t rest h m in
    let same : worth (and_seen t seen) u (w, y) ≡ worth seen u (w, y) = rw other refl in
    omega (arith, same, unseen-Member seen u v t rest d m)

-- Where nothing is unseen, nothing is worth anything.
unseen_none :
    (seen : String → Bool) (u : String) (tasks : List TaskId)
    → ((x : TaskId) → Member x tasks → seen x.1 ≡ true)
    → unseen seen u tasks ≡ 0
unfolding unseen
unseen_none seen u [] h = refl
unseen_none seen u ((v, t) ∷ rest) h =
    let old : seen t ≡ true = h (v, t) (inl refl) in
    rw old (omega (arith, unseen_none seen u rest (λ x m. h x (inr m))))

or_false : (b c : Bool) → (b || c) ≡ false → (b ≡ false) × (c ≡ false)
or_false b c h = ground arith

some_eq : (x y : TaskId) → ◌≡◌ {A = Option TaskId} (some x) (some y) → x ≡ y
some_eq x y h = cc

-- The task that an event is about.
abbrev pub Concerns : EventData → TaskId → Type 0
Concerns e x = ids e ≡ some x

-- The unseen tasks have an event, and the events have a task.
abbrev pub Covers : (String → Bool) → List TaskId → List EventData → Type 0
Covers seen tasks events =
    (x : TaskId)
    → Member x tasks
    → seen x.1 ≡ false
    → (e : EventData) × Member e events × Concerns e x

abbrev pub Known : List TaskId → List EventData → Type 0
Known tasks events =
    (e : EventData) → Member e events → (x : TaskId) × Member x tasks × Concerns e x

Covers-rest :
    (seen : String → Bool) (tasks : List TaskId) (event : EventData) (rest : List EventData)
    (y : TaskId)
    → Concerns event y
    → Covers seen tasks (event ∷ rest)
    → Covers (and_seen y.1 seen) tasks rest
Covers-rest seen tasks event rest y is all x m new =
    let (e, there, c) = all x m (or_false (y.1 == x.1) (seen x.1) new).1 in
    elim there [
      | inl first ↦
          let same : y ≡ x = some_eq y x (sym is ∙ ap ids (sym first) ∙ c) in
          let clash : (y.1 == x.1) ≡ true = (eq_iff y.1 x.1).1 (ap (λ (p : TaskId). p.1) same) in
          absurd (cc ((or_false (y.1 == x.1) (seen x.1) new).0))
      | inr later ↦ (e, later, c)
    ]

-- If the events are those of distinct tasks, and each task that is not seen has one, then the new tasks
-- are the unseen ones, whatever the order of the events and however often they come.
new_tasks-unseen :
    (seen : String → Bool) (u : String) (tasks : List TaskId) (events : List EventData)
    → IsDistinct tasks
    → Known tasks events
    → Covers seen tasks events
    → new_tasks seen u events ≡ unseen seen u tasks
unfolding new_tasks
new_tasks-unseen seen u tasks [] d known all = sym (
    unseen_none seen u tasks
      (λ x m. elim (Bool-cases (seen x.1)) [ inl old ↦ old | inr new ↦ absurd (all x m new).1 ]))
new_tasks-unseen seen u tasks (event ∷ rest) d known all =
    let (x, there, is) = known event (inl refl) in
    let later =
      new_tasks-unseen (and_seen x.1 seen) u tasks rest d (λ e m. known e (inr m))
        (Covers-rest seen tasks event rest x is all) in
    rw (is, new_tasks) (omega (arith, later, unseen-Member seen u x.0 x.1 tasks d there))

unseen-owned :
    (seen : String → Bool) (u : String) (tasks : List TaskId)
    → ((x : TaskId) → Member x tasks → seen x.1 ≡ false)
    → unseen seen u tasks ≡ owned u tasks
unfolding unseen owned
unseen-owned seen u [] h = refl
unseen-owned seen u ((v, t) ∷ rest) h =
    let new : seen t ≡ false = h (v, t) (inl refl) in
    rw new (ap (λ k. (if v == u then 1 else 0) + k) (unseen-owned seen u rest (λ x m. h x (inr m))))

pub new_tasks-owned :
    (seen : String → Bool) (u : String) (tasks : List TaskId) (events : List EventData)
    → IsDistinct tasks
    → Known tasks events
    → Covers seen tasks events
    → ((x : TaskId) → Member x tasks → seen x.1 ≡ false)
    → new_tasks seen u events ≡ owned u tasks
new_tasks-owned seen u tasks events d known all new =
    new_tasks-unseen seen u tasks events d known all ∙ unseen-owned seen u tasks new
