-- ===== src/TypeErasure/Tests.antt =====
-- Type erasure on concrete programs.
use cs_learning_notes.Base.{
  ℕ, ◌+◌, ◌≡◌, ◌≢◌, refl, Bool, ltb, none, some, List, [], ◌∷◌, arith, update,
}
use cs_learning_notes.TypeErasure.Models.{Classes, Model, Heap, no_models}
use cs_learning_notes.TypeErasure.Virtual.{te, te-Laws}
use cs_learning_notes.TypeErasure.FunctionPointers.{te_md, te_md-Laws}
use cs_learning_notes.TypeErasure.Values.{
  Op, Vars, declare, declare_copy, assign, assign_move, leave_scope, draw, start, value_run, Store,
  run, initial,
}
use cs_learning_notes.TypeErasure.Statements.{Refines}
use cs_learning_notes.TypeErasure.Agreement.{te_holds_values, te_md_holds_values}
use cs_learning_notes.TypeErasure.SmallBuffer.{Memory, in_buf}
use cs_learning_notes.TypeErasure.SmallBuffer
use cs_learning_notes.TypeErasure.Reference
use cs_learning_notes.TypeErasure.Reference.{
  Edit, create, destroy, edits, construct, ref_draws_present,
}
use cs_learning_notes.TypeErasure.Outcomes.{sbo_assign_dangles}

abbrev numbers : Classes ℕ ℕ
numbers = record { drawn = λ c a. c + a; moved_from = λ c a. 0 }

-- Two shapes of different classes, a copy, a move, and both assignments.
abbrev statements : List (Op ℕ)
statements =
    declare 0 10 5
    ∷ declare 1 20 7
    ∷ declare_copy 2 0
    ∷ assign 0 1
    ∷ draw 0
    ∷ assign_move 1 2
    ∷ draw 1
    ∷ draw 2
    ∷ leave_scope 0
    ∷ leave_scope 1
    ∷ leave_scope 2
    ∷ []

abbrev values : Vars (Model ℕ) ℕ
values = record {
  alive =
      update
        (update
          (update
            (update
              (update
                (update
                  (update
                    (update (update (λ _. none) 0 (some (record { class = 10; state = 5 }))) 1
                      (some (record { class = 20; state = 7 })))
                    2 (some (record { class = 10; state = 5 })))
                  0 (some (record { class = 20; state = 7 })))
                2 (some (record { class = 10; state = 0 })))
              1 (some (record { class = 10; state = 5 })))
            0 none)
          1 none)
        2 none;
  drawn = 27 ∷ 15 ∷ 10 ∷ [];
}

values_lem : value_run numbers statements start ≡ some values
unfolding value_run
values_lem = refl

nothing_alive : (v : ℕ) → values.alive v ≡ none
nothing_alive v = ground arith

te_holds_values_example :
    (s : Store (te numbers)) × (run (te numbers) statements (initial (te numbers)) ≡ some s)
    × Refines (te-Laws numbers) s values
te_holds_values_example = te_holds_values numbers statements values values_lem

te_md_holds_values_example :
    (s : Store (te_md numbers)) × (run (te_md numbers) statements (initial (te_md numbers))
      ≡ some s)
    × Refines (te_md-Laws numbers) s values
te_md_holds_values_example = te_md_holds_values numbers statements values values_lem

-- Two variables with objects in their buffers; classes up to 15 fit.
abbrev small : ℕ → Bool
small c = ltb c 16

abbrev buffered : Memory ℕ
buffered = record {
  buf_ =
      update (update (λ _. none) 0 (some (record { class = 10; state = 5 }))) 1
        (some (record { class = 11; state = 7 }));
  pimpl_ = update (update (λ _. none) 0 (some (in_buf 0))) 1 (some (in_buf 1));
  heap = no_models;
}

zero_two : ◌≢◌ {A = ℕ} 0 2
zero_two = omega arith

one_two : ◌≢◌ {A = ℕ} 1 2
one_two = omega arith

two_one : ◌≢◌ {A = ℕ} 2 1
two_one = omega arith

sbo_assign_dangles_example :
    (m' : Memory ℕ) × (SmallBuffer.assign numbers small 0 1 2 buffered ≡ some (tt, m'))
    × (SmallBuffer.draw numbers small 0 m' ≡ none)
sbo_assign_dangles_example =
    sbo_assign_dangles numbers small buffered 0 1 2 (record { class = 11; state = 7 })
      (record { class = 10; state = 5 }) zero_two one_two refl refl refl refl refl

-- A shape at 1 and a drawer at 2, and what becomes of them.
abbrev two_objects : Heap ℕ
two_objects = record {
  models =
      update (update (λ _. none) 1 (some (record { class = 7; state = 5 }))) 2
        (some (record { class = 8; state = 30 }));
  next = 3;
}

abbrev sum_of : ℕ → ℕ → ℕ → ℕ → ℕ
sum_of d y s x = y + x

abbrev owners : List (Edit ℕ)
owners = Edit.assign 1 6 ∷ create 7 9 ∷ Edit.assign 1 11 ∷ destroy 3 ∷ []

after_owners : (h : Heap ℕ) × (edits owners two_objects ≡ some (tt, h))
after_owners = (_, refl)

ref_draws_present_example :
    Reference.draw (construct sum_of 7 8 1 2) after_owners.0 ≡ some (41, after_owners.0)
ref_draws_present_example =
    ref_draws_present sum_of 7 8 1 2 5 30 owners two_objects after_owners.0 (omega arith)
      (omega arith) refl refl after_owners.1
