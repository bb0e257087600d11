-- ===== src/ThreadSafe/Latest.antt =====
-- What waits in an event of src/thread_safe.h.
use midnight_sun.Prelude.{true, ◌≡◌, none, some, List, [], ◌∷◌, arith}
use midnight_sun.ThreadSafe.Queue.{returns}
use midnight_sun.ThreadSafe.Event.{Event, raise, pop, view}

module _ {ℓ} {A : Type ℓ} where
  abbrev pub raise_all : List A → Event A → Event A
  raise_all [] e = e
  raise_all (a ∷ rest) e = raise_all rest (raise a e)

  raise_all-going_on :
      (xs : List A) (e : Event A) → e.going_on ≡ true → (raise_all xs e).going_on ≡ true
  unfolding raise
  raise_all-going_on [] e on = on
  raise_all-going_on (a ∷ rest) e on = raise_all-going_on rest (raise a e) (ground (arith, on))

  -- However many values are raised while an event is going on, a thread that views it next sees the last of
  -- them, a thread that pops it takes the last of them, and nothing is left for the next.
  pub pop-raise_all :
      (xs : List A) (a : A) (e : Event A)
      → e.going_on ≡ true
      → let (t, look) = pop (raise a (raise_all xs e)) in
        (look ≡ returns (some a))
        × (t.status ≡ none)
        × ((view (raise a (raise_all xs e))).1 ≡ returns (some a))
  unfolding pop raise view
  pop-raise_all xs a e on =
      let going = raise_all-going_on xs e on in
      (ground (arith, going), ground (arith, going), ground (arith, going))
