-- ===== src/ThreadSafe/Queue.antt =====
-- `queue_t` of src/thread_safe.h.
use midnight_sun.Prelude.{
  ℕ, Bool, true, false, not, Option, none, some, List, [], ◌∷◌, ◌++◌, ◌==◌, if◌then◌else◌, length,
}

-- What the lock guards of a queue. `going_on` is `_continue`.
pub record Queue {ℓ} (A : Type ℓ) : Type ℓ where
  pub going_on : Bool
  pub max_elements : ℕ
  pub queue : List A

-- What a thread does when it holds the lock and looks: it goes to wait, or it returns, with or without a value.
pub data Look {ℓ} (A : Type ℓ) : Type ℓ where
  waits : Look A
  returns : Option A → Look A

module _ {ℓ} {A : Type ℓ} where
  abbrev pub new_queue : ℕ → Queue A
  new_queue max_elements = record { going_on = true; max_elements = max_elements; queue = [] }

  abbrev pub room : Queue A → List A
  room q = if length q.queue == q.max_elements then [] else q.queue

  -- A queue that is full is emptied first.
  unfoldable pub raise : A → Queue A → Queue A
  raise a q = if not q.going_on then q else record q { queue = room q ++ a ∷ [] }

  abbrev pub peek : Queue A → Bool
  peek q = elim q.queue [ [] ↦ false | a ∷ rest ↦ q.going_on ]

  -- `pop`, each time that it has the lock: at its call and after each wake-up.
  unfoldable pub pop : Queue A → Queue A × Look A
  pop q = if not q.going_on then (q, returns none) else elim q.queue [
    | [] ↦ (q, waits)
    | a ∷ rest ↦ (record q { queue = rest }, returns (some a))
  ]

  -- `pop` with a delay, after a wake-up that was not by the timeout: a queue that was stopped and is not empty
  -- still gives its element.
  unfoldable pub pop_woken : Queue A → Queue A × Look A
  pop_woken q = elim q.queue [
    | [] ↦ (q, if not q.going_on then returns none else waits)
    | a ∷ rest ↦ (record q { queue = rest }, returns (some a))
  ]

  unfoldable pub stop : Queue A → Queue A
  stop q = record q { going_on = false }
