-- ===== src/TypeErasure/Values.antt =====
-- Programs that declare, copy, move, assign, draw and destroy variables of a class `Shape`, as they run over a
-- design, and as they run on values.
use cs_learning_notes.Base.{ℕ, Option, none, some, List, [], ◌∷◌, ◌++◌, update}
use cs_learning_notes.TypeErasure.Models.{Classes, Model, Heap, no_models}
use cs_learning_notes.TypeErasure.Design.{Design}

-- A statement; `v` and `w` are variables.
pub data Op (A : Type 0) : Type 0 where
  declare : (v class : ℕ) (state : A) → Op A
  declare_copy : (v w : ℕ) → Op A
  declare_move : (v w : ℕ) → Op A
  assign : (v w : ℕ) → Op A
  assign_move : (v w : ℕ) → Op A
  leave_scope : (v : ℕ) → Op A
  draw : (v : ℕ) → Op A

-- The variables that are alive, as objects of type `X`, with what was drawn so far.
pub record Vars (X P : Type 0) : Type 0 where
  pub alive : ℕ → Option X
  pub drawn : List P

abbrev pub start : {X P : Type 0} → Vars X P
start = record { alive = λ _. none; drawn = [] }

abbrev pub set : {X P : Type 0} → Vars X P → ℕ → Option X → Vars X P
set s v o = record s { alive = update s.alive v o }

module _ {A P : Type 0} (cl : Classes A P) where
  abbrev pub moved : Model A → Model A
  moved o = record o { state = cl.moved_from o.class o.state }

  -- On values. `none`: a variable is declared twice, or used while it is not alive.
  abbrev pub value_step : Op A → Vars (Model A) P → Option (Vars (Model A) P)
  value_step (declare v c a) s = elim (s.alive v) [
    | none ↦ some (set s v (some (record { class = c; state = a })))
    | some _ ↦ none
  ]
  value_step (declare_copy v w) s = elim (s.alive v) [
    | none ↦ elim (s.alive w) [ none ↦ none | some o ↦ some (set s v (some o)) ]
    | some _ ↦ none
  ]
  value_step (declare_move v w) s = elim (s.alive v) [
    | none ↦ elim (s.alive w) [
      | none ↦ none
      | some o ↦ some (set (set s w (some (moved o))) v (some o))
    ]
    | some _ ↦ none
  ]
  value_step (assign v w) s = elim (s.alive v) [
    | none ↦ none
    | some _ ↦ elim (s.alive w) [ none ↦ none | some o ↦ some (set s v (some o)) ]
  ]
  value_step (assign_move v w) s = elim (s.alive v) [
    | none ↦ none
    | some _ ↦ elim (s.alive w) [
      | none ↦ none
      | some o ↦ some (set (set s w (some (moved o))) v (some o))
    ]
  ]
  value_step (leave_scope v) s = elim (s.alive v) [ none ↦ none | some _ ↦ some (set s v none) ]
  value_step (draw v) s = elim (s.alive v) [
    | none ↦ none
    | some o ↦ some (record s { drawn = s.drawn ++ cl.drawn o.class o.state ∷ [] })
  ]

  unfoldable pub value_run : List (Op A) → Vars (Model A) P → Option (Vars (Model A) P)
  value_run [] s = some s
  value_run (op ∷ ops) s = elim (value_step op s) [ none ↦ none | some s' ↦ value_run ops s' ]

module _ {A P : Type 0} (d : Design A P) where
  pub record Store : Type 0 where
    pub vars : Vars d.Shape P
    pub heap : Heap A

  -- `operator=`: the parameter `other`, made already, is swapped with the variable and destroyed.
  abbrev pub swap_in : ℕ → d.Shape → d.Shape → Vars d.Shape P → Heap A → Option Store
  swap_in v this other s h =
      let (this', other') = d.swap this other in
      elim (d.destroy other' h) [
        | none ↦ none
        | some (_, h') ↦ some (record { vars = set s v (some this'); heap = h' })
      ]

  abbrev pub declared : ℕ → Vars d.Shape P → Option (d.Shape × Heap A) → Option Store
  declared v s none = none
  declared v s (some (o, h)) = some (record { vars = set s v (some o); heap = h })

  -- `none` is undefined behaviour.
  abbrev pub step : Op A → Store → Option Store
  step (declare v c a) s = elim (s.vars.alive v) [
    | none ↦ declared v s.vars (d.construct c a s.heap)
    | some _ ↦ none
  ]
  step (declare_copy v w) s = elim (s.vars.alive v) [
    | none ↦ elim (s.vars.alive w) [ none ↦ none | some o ↦ declared v s.vars (d.copy o s.heap) ]
    | some _ ↦ none
  ]
  step (declare_move v w) s = elim (s.vars.alive v) [
    | none ↦ elim (s.vars.alive w) [ none ↦ none | some o ↦ declared v s.vars (d.move o s.heap) ]
    | some _ ↦ none
  ]
  step (assign v w) s = elim (s.vars.alive v) [
    | none ↦ none
    | some this ↦ elim (s.vars.alive w) [
      | none ↦ none
      | some o ↦ elim (d.copy o s.heap) [
        | none ↦ none
        | some (other, h) ↦ swap_in v this other s.vars h
      ]
    ]
  ]
  step (assign_move v w) s = elim (s.vars.alive v) [
    | none ↦ none
    | some this ↦ elim (s.vars.alive w) [
      | none ↦ none
      | some o ↦ elim (d.move o s.heap) [
        | none ↦ none
        | some (other, h) ↦ swap_in v this other s.vars h
      ]
    ]
  ]
  step (leave_scope v) s = elim (s.vars.alive v) [
    | none ↦ none
    | some o ↦ elim (d.destroy o s.heap) [
      | none ↦ none
      | some (_, h) ↦ some (record { vars = set s.vars v none; heap = h })
    ]
  ]
  step (draw v) s = elim (s.vars.alive v) [
    | none ↦ none
    | some o ↦ elim (d.draw o s.heap) [
      | none ↦ none
      | some (p, h) ↦
          some (record { vars = record s.vars { drawn = s.vars.drawn ++ p ∷ [] }; heap = h })
    ]
  ]

  unfoldable pub run : List (Op A) → Store → Option Store
  run [] s = some s
  run (op ∷ ops) s = elim (step op s) [ none ↦ none | some s' ↦ run ops s' ]

  abbrev pub initial : Store
  initial = record { vars = start; heap = no_models }
