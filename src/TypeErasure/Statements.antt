-- ===== src/TypeErasure/Statements.antt =====
-- The statements that declare, copy, draw and destroy variables, over a lawful design.
use cs_learning_notes.Base.{
  ℕ, ◌≡◌, ap, subst, none, some, [], ◌∷◌, ◌++◌, arith, Option-cases, inl, inr,
}
use cs_learning_notes.TypeErasure.Models.{Classes, Model, with_new, without}
use cs_learning_notes.TypeErasure.Design.{Design, Laws}
use cs_learning_notes.TypeErasure.Values.{
  Op, Vars, set, declare, declare_copy, leave_scope, draw, value_step, Store, step,
}
use cs_learning_notes.TypeErasure.Owners.{Owners, Owners-declare, Owners-destroy}

module _ {A P : Type 0} {cl : Classes A P} {d : Design A P} (laws : Laws cl d) where
  -- The store of the design is as the values say.
  pub record Refines (s : Store {A = A} {P = P} d) (t : Vars (Model A) P) : Type 0 where
    pub owners : Owners laws s.vars.alive s.heap t.alive
    pub drawn : s.vars.drawn ≡ t.drawn

  abbrev pub Steps : Op A → Store {A = A} {P = P} d → Vars (Model A) P → Type 0
  Steps op s t' = (s' : Store d) × (step d op s ≡ some s') × Refines s' t'

  pub steps :
      (op : Op A) (s s' : Store d) (t t' : Vars (Model A) P)
      → step d op s ≡ some s'
      → t ≡ t'
      → Owners laws s'.vars.alive s'.heap t.alive
      → s'.vars.drawn ≡ t.drawn
      → Steps op s t'
  steps op s s' t t' r e g q =
      (s', r, subst (λ u. Refines s' u) e (record { owners = g; drawn = q }))

  pub declare-Refines :
      (v c : ℕ) (a : A) (s : Store d) (t t' : Vars (Model A) P)
      → Refines s t
      → value_step cl (declare v c a) t ≡ some t'
      → Steps (declare v c a) s t'
  declare-Refines v c a s t t' g e = elim (Option-cases (t.alive v)) [
    | inr (o, f) ↦ absurd (ground arith)
    | inl f ↦
        let (o, r, at, fits) = laws.construct_lem c a s.heap in
        let none_there : s.vars.alive v ≡ none = g.owners.ends v f in
        let m : Model A = record { class = c; state = a } in
        steps (declare v c a) s (record { vars = set s.vars v (some o); heap = with_new m s.heap })
          (set t v (some m)) t' (ground arith) (ground arith)
          (Owners-declare laws s.vars.alive s.heap t.alive g.owners v o m f at fits) g.drawn
  ]

  pub copy-Refines :
      (v w : ℕ) (s : Store d) (t t' : Vars (Model A) P)
      → Refines s t
      → value_step cl (declare_copy v w) t ≡ some t'
      → Steps (declare_copy v w) s t'
  copy-Refines v w s t t' g e = elim (Option-cases (t.alive v)) [
    | inr (o, f) ↦ absurd (ground arith)
    | inl f ↦ elim (Option-cases (t.alive w)) [
      | inl k ↦ absurd (ground arith)
      | inr (m, k) ↦
          let l = g.owners.owns w m k in
          let (o, r, at, fits) = laws.copy_lem l.shape m s.heap l.fits l.model in
          let none_there : s.vars.alive v ≡ none = g.owners.ends v f in
          let there : s.vars.alive w ≡ some l.shape = l.alive in
          steps (declare_copy v w) s
            (record { vars = set s.vars v (some o); heap = with_new m s.heap }) (set t v (some m))
            t' (ground arith) (ground arith)
            (Owners-declare laws s.vars.alive s.heap t.alive g.owners v o m f at fits) g.drawn
    ]
  ]

  pub destroy-Refines :
      (v : ℕ) (s : Store d) (t t' : Vars (Model A) P)
      → Refines s t
      → value_step cl (leave_scope v) t ≡ some t'
      → Steps (leave_scope v) s t'
  destroy-Refines v s t t' g e = elim (Option-cases (t.alive v)) [
    | inl f ↦ absurd (ground arith)
    | inr (m, f) ↦
        let l = g.owners.owns v m f in
        let r = laws.destroy_lem l.shape m s.heap l.fits l.model in
        let there : s.vars.alive v ≡ some l.shape = l.alive in
        steps (leave_scope v) s
          (record { vars = set s.vars v none; heap = without (laws.at l.shape) s.heap })
          (set t v none) t' (ground arith) (ground arith)
          (Owners-destroy laws s.vars.alive s.heap t.alive g.owners v l.shape there) g.drawn
  ]

  pub draw-Refines :
      (v : ℕ) (s : Store d) (t t' : Vars (Model A) P)
      → Refines s t
      → value_step cl (draw v) t ≡ some t'
      → Steps (draw v) s t'
  draw-Refines v s t t' g e = elim (Option-cases (t.alive v)) [
    | inl f ↦ absurd (ground arith)
    | inr (m, f) ↦
        let l = g.owners.owns v m f in
        let r = laws.draw_lem l.shape m s.heap l.fits l.model in
        let there : s.vars.alive v ≡ some l.shape = l.alive in
        let p : P = cl.drawn m.class m.state in
        steps (draw v) s
          (record { vars = record s.vars { drawn = s.vars.drawn ++ p ∷ [] }; heap = s.heap })
          (record t { drawn = t.drawn ++ p ∷ [] }) t' (ground arith) (ground arith) g.owners
          (ap (λ ps. ps ++ p ∷ []) g.drawn)
  ]
