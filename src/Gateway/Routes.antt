-- ===== src/Gateway/Routes.antt =====
-- Who may use the routes, and as whom.
use workflowhub.Prelude.{◌≡◌, refl, ℕ, String, Option, Error, err}
use workflowhub.Auth.Guard.{can_activate}
use workflowhub.Task.{TaskBody}
use workflowhub.Gateway.{Clients, guarded, create, get_all, get_counter}

module _ (number : String → Option ℕ) (C : Clients) where
  -- If the guard refuses the header, the three routes under it answer the guard's error and call no
  -- service: the state of the services is as it was.
  pub guarded_refused :
      (header : Option String) (body : TaskBody) (s : C.State) (e : Error)
      → can_activate C.verify header ≡ err e
      → (create number C header body s ≡ (err e, s))
        × (get_all number C header s ≡ (err e, s))
        × (get_counter number C header s ≡ (err e, s))
  unfolding create get_all get_counter guarded
  guarded_refused header body s e h = (
    rw (create, guarded, h) refl,
    rw (get_all, guarded, h) refl,
    rw (get_counter, guarded, h) refl,
  )
