-- ===== src/BankAccount/Tests.antt =====
-- The two threads on concrete schedules.
use cs_learning_notes.Base.{◌≡◌, refl, ◌+◌, ◌*◌, ◌||◌, Bool, true, false, List, [], ◌∷◌}
use cs_learning_notes.BankAccount.{finished, start, perform_step, withdraw, main_step, run}
use cs_learning_notes.BankAccount.Outcome.{one_if, printed_is_true}

abbrev one_after_the_other : List Bool
one_after_the_other = true ∷ true ∷ true ∷ false ∷ false ∷ []

abbrev crossing : List Bool
crossing = true ∷ false ∷ true ∷ false ∷ true ∷ false ∷ []

-- The balance that is left depends on the schedule.
in_turn_ends :
    run one_after_the_other start
    ≡ record { t1 = finished true; t2 = finished false; balance = 500 }
unfolding run main_step perform_step withdraw
in_turn_ends = refl

crossing_ends : run crossing start ≡ record { t1 = finished true; t2 = finished true; balance = 0 }
unfolding run main_step perform_step withdraw
crossing_ends = refl

printed_is_true_example :
    ((run crossing start).balance + 500 * (one_if true + one_if true) ≡ 1000)
    × ((true || true) ≡ true)
printed_is_true_example =
    printed_is_true crossing true true (λ i. (crossing_ends i).t1) (λ i. (crossing_ends i).t2)
