-- ===== src/TypeErasure/Agreement.antt =====
-- te.hpp and te_md.hpp, with virtual functions and with pointers to functions, give the same values.
use cs_learning_notes.Base.{ℕ, ◌≡◌, sym, ◌∙◌, none, some, List}
use cs_learning_notes.TypeErasure.Models.{Classes, Model}
use cs_learning_notes.TypeErasure.Virtual.{te, te-Laws}
use cs_learning_notes.TypeErasure.FunctionPointers.{te_md, te_md-Laws}
use cs_learning_notes.TypeErasure.Values.{Op, Vars, start, value_run, Store, run, initial}
use cs_learning_notes.TypeErasure.Statements.{Refines}
use cs_learning_notes.TypeErasure.Refinement.{designs_hold_values, all_deleted}

module _ {A P : Type 0} (cl : Classes A P) where
  -- With te.hpp, a program whose statements use variables that are alive has no undefined behaviour, draws
  -- what it draws on values, and leaves for each variable that is alive a model with its value at an address
  -- of its own, and no other model.
  pub te_holds_values :
      (ops : List (Op A)) (t : Vars (Model A) P)
      → value_run cl ops start ≡ some t
      → (s : Store (te cl)) × (run (te cl) ops (initial (te cl)) ≡ some s)
        × Refines (te-Laws cl) s t
  te_holds_values = designs_hold_values (te-Laws cl)

  -- With te_md.hpp, a program whose statements use variables that are alive has no undefined behaviour, in
  -- particular no cast to a class that the object is not of; it draws what it draws on values, and
  -- leaves for each variable that is alive a model with its value at an address of its own, and no other
  -- model.
  pub te_md_holds_values :
      (ops : List (Op A)) (t : Vars (Model A) P)
      → value_run cl ops start ≡ some t
      → (s : Store (te_md cl)) × (run (te_md cl) ops (initial (te_md cl)) ≡ some s)
        × Refines (te_md-Laws cl) s t
  te_md_holds_values = designs_hold_values (te_md-Laws cl)

  -- A program whose statements use variables that are alive, and which destroys them all, draws the same
  -- with te.hpp and with te_md.hpp, and both have deleted every model in the end.
  pub erasures_agree :
      (ops : List (Op A)) (t : Vars (Model A) P)
      → value_run cl ops start ≡ some t
      → ((v : ℕ) → t.alive v ≡ none)
      → (s : Store (te cl)) × (u : Store (te_md cl)) × (run (te cl) ops (initial (te cl)) ≡ some s)
        × (run (te_md cl) ops (initial (te_md cl)) ≡ some u)
        × (s.vars.drawn ≡ u.vars.drawn)
        × ((p : ℕ) → (s.heap.models p ≡ none) × (u.heap.models p ≡ none))
  erasures_agree ops t e dead =
      let (s, r, g) = te_holds_values ops t e in
      let (u, q, k) = te_md_holds_values ops t e in
      (
        s,
        u,
        r,
        q,
        g.drawn ∙ sym k.drawn,
        λ p. (all_deleted (te-Laws cl) s t g dead p, all_deleted (te_md-Laws cl) u t k dead p),
      )
