-- ===== src/ThreadSafe/Shared.antt =====
-- The reference-counted object of src/thread_safe.h, `shared_t` and its `ptr_t`.
use midnight_sun.Prelude.{
  ℕ, zero, suc, ◌+◌, ◌-◌, ◌%◌, ◌^◌, Bool, true, false, List, [], ◌∷◌, ◌==◌, if◌then◌else◌,
}

-- `constructed` and `destructed` count the calls of `_construct` that succeeded and those of `_destruct`.
pub record Shared : Type 0 where
  pub count : ℕ
  pub constructed : ℕ
  pub destructed : ℕ

-- A shared object of static storage, whose count starts at 0.
abbrev pub new_shared : Shared
new_shared = record { count = 0; constructed = 0; destructed = 0 }

-- `ref`; `fails` is what `_construct` answers if it is called. The pointer has an owner if the second part is
-- true.
unfoldable pub ref : (fails : Bool) → Shared → Shared × Bool
ref fails s =
    let counted = (s.count + 1) % 2 ^ 32 in
    if s.count == 0
    then (if fails
        then (s, false)
        else (record s { count = counted; constructed = s.constructed + 1 }, true))
    else (record s { count = counted }, true)

-- `release` of a pointer that has an owner.
unfoldable pub release : Shared → Shared
release s =
    let counted = (s.count + 2 ^ 32 - 1) % 2 ^ 32 in
    if counted == 0
    then record s { count = counted; destructed = s.destructed + 1 }
    else record s { count = counted }

-- A copy of a pointer takes a reference by `ref` on its owner.
pub data Operation : Type 0 where
  take_reference : (fails : Bool) → Operation
  copy drop : Operation

-- The object and the number of pointers to it that have an owner. Only such a pointer is copied with effect or
-- released.
abbrev pub step : Operation → Shared × ℕ → Shared × ℕ
step (take_reference fails) (s, owners) =
    let (t, owned) = ref fails s in (t, if owned then owners + 1 else owners)
step copy (s, zero) = (s, zero)
step copy (s, suc owners) = ((ref false s).0, suc (suc owners))
step drop (s, zero) = (s, zero)
step drop (s, suc owners) = (release s, owners)

abbrev pub run : List Operation → Shared × ℕ → Shared × ℕ
run [] state = state
run (o ∷ os) state = run os (step o state)
