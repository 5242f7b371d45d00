-- ===== src/Analytics/Failure.antt =====
-- A delivery whose increment fails.
use workflowhub.Prelude.{
  ◌≡◌, refl, ◌∙◌, ap, sym, subst, String, Bool, true, false, not, eq_refl, some, Error, Result, ok,
  err, after, after-ok, after-err,
}
use workflowhub.Analytics.{Backend, IsLawful, lock_key, lock_ttl, count_locked, handle_ids}

module _ (B : Backend) (L : IsLawful B) (v t : String) (s : B.State) where
  abbrev pub locked : B.State
  locked = (B.set_nx (lock_key t) lock_ttl s).1

  abbrev pub refused : B.State
  refused = (B.increment v locked).1

  abbrev pub handled : B.State
  handled = (handle_ids B (some (v, t)) s).1

  handle_ids_failing :
      {e : Error}
      → (B.set_nx (lock_key t) lock_ttl s).0 ≡ ok true
      → (B.increment v locked).0 ≡ err e
      → handle_ids B (some (v, t)) s
        ≡ after (B.del (lock_key t) refused) (λ _ w. (err e, w)) (λ x w. (err x, w))
  unfolding handle_ids count_locked
  handle_ids_failing won failed = rw (
    after-ok (B.set_nx (lock_key t) lock_ttl s) _ _ won,
    after-err (B.increment v locked) _ _ failed,
  )

  count-refused :
      {e : Error} (u : String) → (B.increment v locked).0 ≡ err e → B.count refused u ≡ B.count s u
  count-refused {e} u failed =
      L.count-increment_err v locked e u failed ∙ L.count-set_nx (lock_key t) lock_ttl s u

  handle_ids_duplicate :
      (w : B.State) {b : Bool}
      → B.processed w (lock_key t) ≡ true
      → (B.set_nx (lock_key t) lock_ttl w).0 ≡ ok b
      → handle_ids B (some (v, t)) w ≡ (ok tt, (B.set_nx (lock_key t) lock_ttl w).1)
  unfolding handle_ids
  handle_ids_duplicate w {b} seen answered =
      let dup : b ≡ false = L.set_nx_ok (lock_key t) lock_ttl w b answered ∙ ap not seen in
      rw (after-ok (B.set_nx (lock_key t) lock_ttl w) _ _ answered, dup)

  -- If the delivery gets the lock, its increment fails and the key can be deleted, then the handler
  -- throws the error of the increment, no counter has changed, and the key is free again, so that
  -- a later delivery of the event is not taken for a duplicate.
  pub handle_ids_released :
      {e : Error}
      → (B.set_nx (lock_key t) lock_ttl s).0 ≡ ok true
      → (B.increment v locked).0 ≡ err e
      → (B.del (lock_key t) refused).0 ≡ ok tt
      → ((handle_ids B (some (v, t)) s).0 ≡ err e)
        × (B.processed handled (lock_key t) ≡ false)
        × ((u : String) → B.count handled u ≡ B.count s u)
  handle_ids_released {e} won failed freed =
      let run = handle_ids_failing won failed ∙ after-ok (B.del (lock_key t) refused) _ _ freed in
      subst
        (λ (r : Result (Unit {0}) × B.State).
          (r.0 ≡ err e)
          × (B.processed r.1 (lock_key t) ≡ false)
          × ((u : String) → B.count r.1 u ≡ B.count s u))
        (sym run)
        (
          refl,
          L.processed-del (lock_key t) refused (lock_key t) freed ∙ rw eq_refl,
          λ u. L.count-del (lock_key t) refused u ∙ count-refused u failed,
        )

  -- If the delivery gets the lock, its increment fails and the key cannot be deleted either, then the
  -- event is lost: the handler throws the error of the deletion, and the next delivery that Redis
  -- answers is taken for a duplicate and counts nothing.
  pub handle_ids_lost :
      {e x : Error} {b : Bool}
      → (B.set_nx (lock_key t) lock_ttl s).0 ≡ ok true
      → (B.increment v locked).0 ≡ err e
      → (B.del (lock_key t) refused).0 ≡ err x
      → (B.set_nx (lock_key t) lock_ttl handled).0 ≡ ok b
      → ((handle_ids B (some (v, t)) s).0 ≡ err x)
        × ((handle_ids B (some (v, t)) handled).0 ≡ ok tt)
        × ((u : String) → B.count (handle_ids B (some (v, t)) handled).1 u ≡ B.count s u)
  handle_ids_lost {e} {x} {b} won failed kept answered =
      let run = handle_ids_failing won failed ∙ after-err (B.del (lock_key t) refused) _ _ kept in
      let locked_key : B.processed locked (lock_key t) ≡ true =
        L.processed-set_nx (lock_key t) lock_ttl s true (lock_key t) won ∙ rw eq_refl in
      let still : B.processed handled (lock_key t) ≡ true =
        ap (λ (r : Result (Unit {0}) × B.State). B.processed r.1 (lock_key t)) run
        ∙ L.processed-del_err (lock_key t) refused x (lock_key t) kept
        ∙ L.processed-increment v locked (lock_key t)
        ∙ locked_key in
      let again = handle_ids_duplicate handled still answered in
      let same : (u : String) → B.count handled u ≡ B.count s u = λ u.
        ap (λ (r : Result (Unit {0}) × B.State). B.count r.1 u) run
        ∙ L.count-del (lock_key t) refused u
        ∙ count-refused u failed in
      (
        ap (λ (r : Result (Unit {0}) × B.State). r.0) run,
        ap (λ (r : Result (Unit {0}) × B.State). r.0) again,
        λ u.
            ap (λ (r : Result (Unit {0}) × B.State). B.count r.1 u) again
            ∙ L.count-set_nx (lock_key t) lock_ttl handled u
            ∙ same u,
      )
