-- ===== src/StopTokens.antt =====
-- cpp/c++20/stop.cpp: a stop source, the callbacks on its token, and the two threads of the program: the
-- thread 0 is in `main`, and the thread 1 calls `task` for the numbers 1 to 9.
pub mod Registry
pub mod Invariant
pub mod Steps
pub mod Outcome
mod Tests
use cs_learning_notes.Base.{
  ℕ, suc, ◌<◌, ◌≤◌, ◌≡◌, ◌≢◌, Bool, true, false, Option, none, some, List, [], ◌∷◌, ◌++◌,
}

-- `cb1` and `cb2`
pub data Which : Type 0 where
  one two : Which

-- `cb` of `main`, or a callback of `task` with the number `num`.
pub data Callback : Type 0 where
  in_main : Callback
  in_task : (w : Which) (num : ℕ) → Callback

-- What became of the function given to `std::async`, which may start a thread or be put off until somebody
-- waits for its result; here nobody does.
pub data Launch : Type 0 where
  pending running finished deferred : Launch

-- The stop state, with the callbacks that wait for a request and the one that `request_stop` runs.
pub record Memory : Type 0 where
  pub requested : Bool
  pub registered : List Callback
  pub executing : Option Callback
  pub launch : Launch

-- When `main` has made the source, the token and its own callback.
abbrev pub init : Memory
init = record { requested = false; registered = in_main ∷ []; executing = none; launch = pending }

-- What the threads do that can be seen. `ran c i`: the thread `i` runs `c`; from whether that is the thread of
-- `task`, the message follows. `expired c`: `c` is destroyed and was not run.
pub data Event : Type 0 where
  called : (num : ℕ) → Event
  asked : Event
  made : Callback → Event
  ran : Callback → (by : ℕ) → Event
  ran_at_once : Callback → (by : ℕ) → Event
  expired : Callback → Event

pub data Pc : Type 0 where
  idle : Pc
  sleeping : Pc
  invoking : Pc
  running_callback : Callback → Pc
  joining : Pc
  leaving : Pc
  gone : Pc
  looping : (num : ℕ) → Pc
  making : (w : Which) (num : ℕ) → Pc
  resting : (w : Which) (num : ℕ) → Pc
  unmaking : (w : Which) (num : ℕ) → Pc
  ended : Pc

-- What `task` does after it slept.
abbrev pub after_rest : Which → ℕ → Pc
after_rest one num = making two num
after_rest two num = unmaking two num

-- What it does when a callback is destroyed: they go in the reverse order.
abbrev pub after_unmake : Which → ℕ → Pc
after_unmake two num = unmaking one num
after_unmake one num = looping (suc num)

-- One step of thread `i`. `request_stop` runs the registered callbacks in any order; a callback that is
-- made after the request is run by its constructor; the destructor waits for one that another thread runs.
pub data Move (i : ℕ) (m : Memory) : Pc → Option Event → Memory → Pc → Type 0 where
  launch_thread : i ≡ 0 → Move i m idle none (record m { launch = running }) sleeping
  put_off : i ≡ 0 → Move i m idle none (record m { launch = deferred }) sleeping
  request_stop : Move i m sleeping (some asked) (record m { requested = true }) invoking
  pick :
      (us : List Callback) (c : Callback) (rest : List Callback)
      → m.registered ≡ us ++ c ∷ rest
      → Move i m invoking none
          (record m { registered = us ++ rest; executing = some c })
          (running_callback c)
  run_callback :
      {c : Callback}
      → Move i m (running_callback c) (some (ran c i)) (record m { executing = none }) invoking
  all_run : m.registered ≡ [] → Move i m invoking none m joining
  join : m.launch ≢ running → Move i m joining none m leaving
  leave : Move i m leaving none m gone
  begin : i ≡ 1 → m.launch ≡ running → Move i m idle none m (looping 1)
  call_task : {num : ℕ} → num < 10 → Move i m (looping num) (some (called num)) m (making one num)
  finish : {num : ℕ} → 10 ≤ num → Move i m (looping num) none (record m { launch = finished }) ended
  register :
      {w : Which} {num : ℕ}
      → m.requested ≡ false
      → Move i m
          (making w num)
          (some (made (in_task w num)))
          (record m { registered = in_task w num ∷ m.registered })
          (resting w num)
  run_now :
      {w : Which} {num : ℕ}
      → m.requested ≡ true
      → Move i m (making w num) (some (ran_at_once (in_task w num) i)) m (resting w num)
  wake_up : {w : Which} {num : ℕ} → Move i m (resting w num) none m (after_rest w num)
  unregister :
      {w : Which} {num : ℕ} (us rest : List Callback)
      → m.registered ≡ us ++ in_task w num ∷ rest
      → Move i m
          (unmaking w num)
          (some (expired (in_task w num)))
          (record m { registered = us ++ rest })
          (after_unmake w num)
  was_run :
      {w : Which} {num : ℕ}
      → ((us rest : List Callback) → m.registered ≢ us ++ in_task w num ∷ rest)
      → m.executing ≢ some (in_task w num)
      → Move i m (unmaking w num) none m (after_unmake w num)
