-- ===== src/ThreadSafe/Counting.antt =====
-- The life of the shared object of src/thread_safe.h.
use midnight_sun.Prelude.{
  ℕ, zero, suc, ◌+◌, ◌^◌, ◌<◌, ◌≤◌, true, false, ◌≡◌, List, [], ◌∷◌, ◌==◌, if◌then◌else◌, arith,
  length,
}
use midnight_sun.ThreadSafe.Shared.{
  Shared, ref, release, Operation, take_reference, copy, drop, step, run,
}

-- The count is that of the pointers with an owner, and the object is alive just while there are any: it has
-- been constructed once more than destructed then, and equally often else.
pub record IsCounted (s : Shared) (owners : ℕ) : Type 0 where
  pub counted : s.count ≡ owners
  pub alive : s.constructed ≡ s.destructed + (if owners == 0 then 0 else 1)

step-IsCounted :
    (o : Operation) (s : Shared) (owners : ℕ)
    → owners + 1 < 2 ^ 32
    → IsCounted s owners
    → let (t, owners') = step o (s, owners) in IsCounted t owners' × (owners' ≤ owners + 1)
unfolding ref release
step-IsCounted (take_reference true) s owners h i = (
  record {
    counted = ground (arith, i.counted, i.alive);
    alive = ground (arith, i.counted, i.alive);
  },
  ground (arith, i.counted),
)
step-IsCounted (take_reference false) s owners h i = (
  record {
    counted = ground (arith, i.counted, i.alive);
    alive = ground (arith, i.counted, i.alive);
  },
  ground (arith, i.counted),
)
step-IsCounted copy s zero h i = (i, omega arith)
step-IsCounted copy s (suc owners) h i = (
  record {
    counted = ground (arith, i.counted, i.alive);
    alive = ground (arith, i.counted, i.alive);
  },
  ground (arith, i.counted),
)
step-IsCounted drop s zero h i = (i, omega arith)
step-IsCounted drop s (suc owners) h i = (
  record {
    counted = ground (arith, i.counted, i.alive);
    alive = ground (arith, i.counted, i.alive);
  },
  ground (arith, i.counted),
)

-- Pointers to a shared object are taken, copied and dropped in any order, fewer than 2^32 times in all. From a
-- count that is right, with the object alive just while a pointer has it as owner, it is right afterwards: the
-- object is constructed when the first pointer is taken and destructed when the last is dropped, once each.
pub run-IsCounted :
    (os : List Operation) (s : Shared) (owners : ℕ)
    → owners + length os < 2 ^ 32
    → IsCounted s owners
    → let (t, left) = run os (s, owners) in IsCounted t left
run-IsCounted [] s owners h i = i
run-IsCounted (o ∷ os) s owners h i =
    let (t, left) = step o (s, owners) in
    let (j, le) = step-IsCounted o s owners (omega arith) i in
    run-IsCounted os t left (omega arith) j
