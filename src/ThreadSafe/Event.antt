-- ===== src/ThreadSafe/Event.antt =====
-- `event_t` of src/thread_safe.h.
use midnight_sun.Prelude.{Bool, true, false, not, Option, none, some, if◌then◌else◌}
use midnight_sun.ThreadSafe.Queue.{Look, waits, returns}

-- What the lock guards of an event.
pub record Event {ℓ} (A : Type ℓ) : Type ℓ where
  pub going_on : Bool
  pub status : Option A

module _ {ℓ} {A : Type ℓ} where
  -- A value that was not taken is replaced.
  unfoldable pub raise : A → Event A → Event A
  raise a e = if not e.going_on then e else record e { status = some a }

  unfoldable pub pop : Event A → Event A × Look A
  pop e = if not e.going_on then (e, returns none) else elim e.status [
    | none ↦ (e, waits)
    | some a ↦ (record e { status = none }, returns (some a))
  ]

  unfoldable pub view : Event A → Event A × Look A
  view e =
      if not e.going_on
      then (e, returns none)
      else elim e.status [ none ↦ (e, waits) | some a ↦ (e, returns (some a)) ]

  unfoldable pub stop : Event A → Event A
  stop e = record e { going_on = false }

  unfoldable pub reset : Event A → Event A
  reset e = record e { going_on = true; status = none }
