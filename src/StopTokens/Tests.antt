-- ===== src/StopTokens/Tests.antt =====
-- The program of cpp/c++20/stop.cpp run at concrete schedules.
use cs_learning_notes.Base.{◌≡◌, refl, [], ◌∷◌, ◌++◌, arith}
use mathlib.Core.List.{Perm}
use cs_learning_notes.Interleaving.{Run, begin as at_rest, go, Replays}
use cs_learning_notes.StopTokens.{
  one, in_main, in_task, Move, init, idle, launch_thread, put_off, request_stop, pick, run_callback,
  all_run, join, leave, begin, call_task, register, run_now, wake_up,
}
use cs_learning_notes.StopTokens.Registry.{
  Registry, Stops, fresh, callbacks, all_run as run_in, all_expired, NoneInMain,
}
use cs_learning_notes.StopTokens.Invariant.{pending_callbacks}
use cs_learning_notes.StopTokens.Outcome.{Calls, all_stopped}

abbrev StopRun : Type 0
StopRun = Run Move init idle

-- The request comes between the two callbacks of the first call of `task`.
abbrev crossing : StopRun
crossing =
    let r : StopRun = go at_rest 0 (launch_thread refl) in
    let r : StopRun = go r 1 (begin refl refl) in
    let r : StopRun = go r 1 (call_task (omega arith)) in
    let r : StopRun = go r 1 (register refl) in
    let r : StopRun = go r 0 request_stop in
    let r : StopRun = go r 0 (pick (in_task one 1 ∷ []) in_main [] refl) in
    let r : StopRun = go r 1 wake_up in
    let r : StopRun = go r 1 (run_now refl) in go r 0 run_callback

crossing_waiting : pending_callbacks crossing.last.mem ≡ in_task one 1 ∷ []
crossing_waiting = refl

-- The calls of `task` are put off.
abbrev without_task : StopRun
without_task =
    let r : StopRun = go at_rest 0 (put_off refl) in
    let r : StopRun = go r 0 request_stop in
    let r : StopRun = go r 0 (pick [] in_main [] refl) in
    let r : StopRun = go r 0 run_callback in
    let r : StopRun = go r 0 (all_run refl) in
    let r : StopRun = go r 0 (join (λ e. cc)) in go r 0 leave

all_stopped_example :
    (x : Registry) × Replays Stops fresh without_task.trace x
    × Calls without_task.last.mem.launch x
    × Perm (callbacks x.history) (run_in without_task.trace ++ all_expired without_task.trace)
    × NoneInMain (all_expired without_task.trace)
all_stopped_example = all_stopped without_task.reach refl
