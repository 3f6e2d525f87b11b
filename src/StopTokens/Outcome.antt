-- ===== src/StopTokens/Outcome.antt =====
-- The program of cpp/c++20/stop.cpp as a whole, under every interleaving of its two threads.
use cs_learning_notes.Base.{◌≡◌, ◌≢◌, ◌⊎◌, inl, inr, refl, subst, List, ◌++◌}
use mathlib.Core.List.{Perm, append-nil}
use mathlib.Core.List.Perm
use cs_learning_notes.Interleaving.{Reach, System, Sound, Reach-Sound, Replays}
use cs_learning_notes.StopTokens.{
  Launch, pending, running, finished, deferred, Memory, Event, Pc, Move, init, idle, gone,
}
use cs_learning_notes.StopTokens.Registry.{
  Registry, Stops, fresh, callbacks, all_run, all_expired, NoneInMain, expired-NoneInMain,
  Stops-conserves,
}
use cs_learning_notes.StopTokens.Invariant.{
  before, Launched, Global, Local, Pair, pending_callbacks,
}
use cs_learning_notes.StopTokens.Steps.{keep}

abbrev pub Reaches : List Event → System Memory Pc → Type 0
Reaches = Reach Move init idle

sound :
    {tr : List Event} {s : System Memory Pc}
    → Reaches tr s
    → Sound (λ r. r) Stops Global Local Pair fresh tr s
sound r =
    Reach-Sound (λ r. r) Stops Global Local Pair Move init idle fresh
      (record { requested = refl; waiting = Perm.refl _; launched = refl })
      (λ i. ((λ e. (refl, refl, refl)), (λ e f. cc))) (λ i j. tt) keep r

-- What is known when `main` has returned: the calls of `task` and the callbacks made were those of all nine
-- calls, or, if the function given to `std::async` was put off, none but the callback of `main`.
abbrev pub Calls : Launch → Registry → Type 0
Calls l x = ((l ≡ finished) × (x.history ≡ before 10)) ⊎ ((l ≡ deferred) × (x.history ≡ before 1))

launch-Calls :
    (l : Launch) (x : Registry) → Launched l x.history → l ≢ pending → l ≢ running → Calls l x
launch-Calls pending x h p r = absurd (p refl)
launch-Calls running x h p r = absurd (r refl)
launch-Calls finished x h p r = inl (refl, h)
launch-Calls deferred x h p r = inr (refl, h)

-- After any interleaving the threads did what an abstract registry does, which runs no callback before
-- the request; the callbacks made so far are those that were run, those that were destroyed before
-- their turn, which the callback of `main` never is, and those that wait, each once.
pub stop_refines :
    {tr : List Event} {s : System Memory Pc}
    → Reaches tr s
    → (x : Registry) × Replays Stops fresh tr x
      × Perm (callbacks x.history) (all_run tr ++ all_expired tr ++ pending_callbacks s.mem)
      × NoneInMain (all_expired tr)
stop_refines {tr} {s} r =
    let h = sound r in
    (
      h.x,
      h.replays,
      Perm.trans (Stops-conserves tr h.x h.replays)
          (Perm.append_left (all_run tr ++ all_expired tr) h.global.waiting),
      expired-NoneInMain tr h.x h.replays,
    )

-- When `main` has returned, no callback waits: each that was made was run once, or destroyed before its
-- turn, which the callback of `main` was not. The calls of `task` are all nine, in their order with their
-- callbacks, or, if `std::async` put them off, none.
pub all_stopped :
    {tr : List Event} {s : System Memory Pc}
    → Reaches tr s
    → s.pc 0 ≡ gone
    → (x : Registry) × Replays Stops fresh tr x
      × Calls s.mem.launch x
      × Perm (callbacks x.history) (all_run tr ++ all_expired tr)
      × NoneInMain (all_expired tr)
all_stopped {tr} {s} r e =
    let h = sound r in
    let l : Local h.x s.mem 0 gone = subst (λ p. Local h.x s.mem 0 p) e (h.local 0) in
    (
      h.x,
      h.replays,
      launch-Calls s.mem.launch h.x h.global.launched l.0.launched l.2,
      subst (λ cs. Perm (callbacks h.x.history) cs) (append-nil (all_run tr ++ all_expired tr))
          (subst (λ cs. Perm (callbacks h.x.history) (all_run tr ++ all_expired tr ++ cs))
            (rw (l.1, l.0.executing) refl)
            (Perm.trans (Stops-conserves tr h.x h.replays)
              (Perm.append_left (all_run tr ++ all_expired tr) h.global.waiting))),
      expired-NoneInMain tr h.x h.replays,
    )
