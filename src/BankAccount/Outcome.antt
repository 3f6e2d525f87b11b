-- ===== src/BankAccount/Outcome.antt =====
-- What `main` of coursework-review/eecs482/race_condition.cpp ends with.
use cs_learning_notes.Base.{
  ℕ, ◌+◌, ◌*◌, ◌≡◌, refl, subst, ◌⊎◌, Bool, true, false, ◌||◌, List, [], ◌∷◌, arith,
}
use cs_learning_notes.BankAccount.{
  Pc, at_start, saw, withdrew, finished, Main, start, withdraw, perform_step, main_step, run,
}

-- How many times a thread has withdrawn, and how many times it has printed that it did.
abbrev pub one_if : Bool → ℕ
one_if true = 1
one_if false = 0

abbrev withdrawals : Pc → ℕ
withdrawals at_start = 0
withdrawals (saw b) = 0
withdrawals withdrew = 1
withdrawals (finished printed) = one_if printed

-- A thread that saw less than it needs came after the other one.
abbrev Saw : Pc → Pc → Type 0
Saw (saw b) other = (b ≡ 1000) ⊎ ((b ≡ 500) × (withdrawals other ≡ 1))
Saw (finished false) other = withdrawals other ≡ 1
Saw _ other = Unit {0}

abbrev Inv : Pc → Pc → ℕ → Type 0
Inv p q b = (b + 500 * (withdrawals p + withdrawals q) ≡ 1000) × Saw p q × Saw q p

step-Inv : (p q : Pc) (b : ℕ) → Inv p q b → Inv (perform_step p b).0 q (perform_step p b).1
unfolding perform_step withdraw
step-Inv at_start at_start b h = ground arith
step-Inv at_start (saw c) b h = ground arith
step-Inv at_start withdrew b h = ground arith
step-Inv at_start (finished true) b h = ground arith
step-Inv at_start (finished false) b h = ground arith
step-Inv (saw c) at_start b h = ground arith
step-Inv (saw c) (saw d) b h = ground arith
step-Inv (saw c) withdrew b h = ground arith
step-Inv (saw c) (finished true) b h = ground arith
step-Inv (saw c) (finished false) b h = ground arith
step-Inv withdrew q b h = ground arith
step-Inv (finished r) q b h = h

abbrev Kept : Main → Type 0
Kept m = Inv m.t1 m.t2 m.balance

main_step-Kept : (i : Bool) (m : Main) → Kept m → Kept (main_step i m)
unfolding main_step
main_step-Kept true m h = step-Inv m.t1 m.t2 m.balance h
main_step-Kept false m (sum, saw₁, saw₂) =
    let (sum', saw₂', saw₁') = step-Inv m.t2 m.t1 m.balance (omega arith, saw₂, saw₁) in
    (omega arith, saw₁', saw₂')

run-Kept : (schedule : List Bool) (m : Main) → Kept m → Kept (run schedule m)
unfolding run
run-Kept [] m h = h
run-Kept (i ∷ schedule) m h = run-Kept schedule (main_step i m) (main_step-Kept i m h)

start-Kept : Kept start
start-Kept = (refl, tt, tt)

both :
    (r s : Bool) (b : ℕ)
    → Inv (finished r) (finished s) b
    → (b + 500 * (one_if r + one_if s) ≡ 1000) × ((r || s) ≡ true)
both true s b h = (h.0, refl)
both false true b h = (h.0, refl)
both false false b h = absurd (ground arith)

-- When both threads are finished, whatever the schedule, at least one has printed that it withdrew, and
-- what is left and 500 for each that printed are the 1000 from the start.
pub printed_is_true :
    (schedule : List Bool) (r s : Bool)
    → (run schedule start).t1 ≡ finished r
    → (run schedule start).t2 ≡ finished s
    → ((run schedule start).balance + 500 * (one_if r + one_if s) ≡ 1000) × ((r || s) ≡ true)
printed_is_true schedule r s e₁ e₂ =
    let m = run schedule start in
    let kept = run-Kept schedule start start-Kept in
    both r s m.balance
      (subst (λ p. Inv p (finished s) m.balance) e₁ (subst (λ q. Inv m.t1 q m.balance) e₂ kept))
