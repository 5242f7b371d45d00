-- ===== src/Analytics/Once.antt =====
-- Each task is counted once, however often and in whatever order its event is delivered.
use workflowhub.Prelude.{
  ◌≡◌, refl, ◌∙◌, sym, ap, fun_ext, inl, inr, ℕ, ◌+◌, String, Bool, true, false, not, ◌||◌, ◌==◌,
  eq_iff, some, none, List, [], ◌∷◌, arith, Bool-cases, Option-cases, ok, after-ok, if◌then◌else◌,
}
use text.Mathlib.TextLemmas.{append_cancel_left}
use workflowhub.Analytics.{
  EventData, Backend, IsLawful, lock_key, lock_ttl, ids, count_locked, handle_ids,
  handle_task_created,
}

-- No call fails.
pub record IsHealthy (B : Backend) : Type 0 where
  pub set_nx_works :
      (k : String) (ttl : ℕ) (s : B.State) → (b : Bool) × ((B.set_nx k ttl s).0 ≡ ok b)
  pub increment_works : (u : String) (s : B.State) → (B.increment u s).0 ≡ ok tt

lock_key-== : (t j : String) → (lock_key t == lock_key j) ≡ (t == j)
lock_key-== t j = elim (Bool-cases (t == j)) [
  | inl same ↦ rw same ((eq_iff (lock_key t) (lock_key j)).1 (ap lock_key ((eq_iff t j).0 same)))
  | inr other ↦ elim (Bool-cases (lock_key t == lock_key j)) [
    | inl keys ↦
        let clash : t ≡ j =
          append_cancel_left "analytics:event:" t j ((eq_iff (lock_key t) (lock_key j)).0 keys) in
        absurd (cc (other, (eq_iff t j).1 clash))
    | inr apart ↦ apart ∙ sym other
  ]
]

if_or : (b c : Bool) → (if b then true else c) ≡ (b || c)
if_or true c = refl
if_or false c = refl

-- The deliveries, one after another.
pub deliver : (B : Backend) → List EventData → B.State → B.State
deliver B [] s = s
deliver B (event ∷ rest) s = deliver B rest (handle_task_created B event s).1

-- How many tasks of a user are new in a sequence of deliveries, beside those already seen.
unfoldable pub new_tasks : (String → Bool) → String → List EventData → ℕ
new_tasks seen u [] = 0
new_tasks seen u (event ∷ rest) = elim (ids event) [
  | none ↦ new_tasks seen u rest
  | some (v, t) ↦
      (if seen t then 0 else if v == u then 1 else 0) + new_tasks (λ x. t == x || seen x) u rest
]

module _ (B : Backend) (L : IsLawful B) (H : IsHealthy B) where
  abbrev pub seen_in : B.State → String → Bool
  seen_in s t = B.processed s (lock_key t)

  handle_none : (s : B.State) → (handle_ids B none s).1 ≡ s
  unfolding handle_ids
  handle_none s = refl

  module _ (v t : String) (s : B.State) where
    abbrev locked : B.State
    locked = (B.set_nx (lock_key t) lock_ttl s).1

    handle_ids_seen : seen_in s t ≡ true → handle_ids B (some (v, t)) s ≡ (ok tt, locked)
    unfolding handle_ids
    handle_ids_seen seen =
        let (b, answered) = H.set_nx_works (lock_key t) lock_ttl s in
        let dup : b ≡ false = L.set_nx_ok (lock_key t) lock_ttl s b answered ∙ ap not seen in
        rw (after-ok (B.set_nx (lock_key t) lock_ttl s) _ _ answered, dup)

    handle_ids_new :
        seen_in s t ≡ false → handle_ids B (some (v, t)) s ≡ (ok tt, (B.increment v locked).1)
    unfolding handle_ids count_locked
    handle_ids_new unseen =
        let (b, answered) = H.set_nx_works (lock_key t) lock_ttl s in
        let won : b ≡ true = L.set_nx_ok (lock_key t) lock_ttl s b answered ∙ ap not unseen in
        rw (after-ok (B.set_nx (lock_key t) lock_ttl s) _ _ answered, won)
          (after-ok (B.increment v locked) _ _ (H.increment_works v locked))

    seen_in-locked : (j : String) → seen_in locked j ≡ (t == j || seen_in s j)
    seen_in-locked j =
        let (b, answered) = H.set_nx_works (lock_key t) lock_ttl s in
        L.processed-set_nx (lock_key t) lock_ttl s b (lock_key j) answered
        ∙ rw (lock_key-== t j) (if_or (t == j) (seen_in s j))

    seen_in-handle_ids :
        (j : String) → seen_in (handle_ids B (some (v, t)) s).1 j ≡ (t == j || seen_in s j)
    seen_in-handle_ids j = elim (Bool-cases (seen_in s t)) [
      | inl old ↦ rw (handle_ids_seen old) (seen_in-locked j)
      | inr new ↦
          rw (handle_ids_new new) (L.processed-increment v locked (lock_key j) ∙ seen_in-locked j)
    ]

    count-handle_ids :
        (u : String)
        → B.count (handle_ids B (some (v, t)) s).1 u
          ≡ B.count s u + (if seen_in s t then 0 else if v == u then 1 else 0)
    count-handle_ids u = elim (Bool-cases (seen_in s t)) [
      | inl old ↦
          rw (handle_ids_seen old, old) (L.count-set_nx (lock_key t) lock_ttl s u ∙ omega arith)
      | inr new ↦
          rw (handle_ids_new new, new)
            (L.count-increment v locked u (H.increment_works v locked)
              ∙ ap (λ c. c + (if v == u then 1 else 0)) (L.count-set_nx (lock_key t) lock_ttl s u))
    ]

  new_tasks-cong :
      (f g : String → Bool) (u : String) (events : List EventData)
      → ((j : String) → f j ≡ g j)
      → new_tasks f u events ≡ new_tasks g u events
  new_tasks-cong f g u events h = ap (λ k. new_tasks k u events) (fun_ext h)

  -- If no call fails and no key expires, then after any sequence of deliveries the counter of a user
  -- has grown by the number of the user's tasks that are new in the sequence: each task that was
  -- not seen before counts once, at its first delivery, and an event with no user or task never.
  pub count-deliver :
      (events : List EventData) (s : B.State) (u : String)
      → B.count (deliver B events s) u ≡ B.count s u + new_tasks (seen_in s) u events
  unfolding deliver new_tasks handle_task_created
  count-deliver [] s u = omega arith
  count-deliver (event ∷ rest) s u = elim (Option-cases (ids event)) [
    | inl missing ↦ rw (missing, new_tasks) (rw (handle_none s) (count-deliver rest s u))
    | inr ((v, t), there) ↦
        rw (there, new_tasks)
          (omega (
            arith,
            count-deliver rest (handle_ids B (some (v, t)) s).1 u,
            count-handle_ids v t s u,
            new_tasks-cong (seen_in (handle_ids B (some (v, t)) s).1) (λ j. t == j || seen_in s j) u
                rest (seen_in-handle_ids v t s),
          ))
  ]
