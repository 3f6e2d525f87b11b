-- ===== src/TypeErasure/Refinement.antt =====
-- Every lawful design of type erasure gives its variables the semantics of values.
use cs_learning_notes.Base.{
  ℕ, suc, ◌≡◌, ◌≢◌, refl, ap, subst, ◌∙◌, Option, none, some, List, [], ◌∷◌, arith, update,
  ℕ_discrete, Option-cases, inl, inr,
}
use cs_learning_notes.TypeErasure.Models.{Classes, Model, Heap, with_new, with_model, without}
use cs_learning_notes.TypeErasure.Design.{Design, Laws}
use cs_learning_notes.TypeErasure.Values.{
  Op, Vars, set, start, declare, declare_copy, declare_move, assign, assign_move, leave_scope, draw,
  moved, value_step, value_run, Store, run, initial, swap_in,
}
use cs_learning_notes.TypeErasure.Owners.{Owners, Owners-declare, Owners-write, Owners-assign}
use cs_learning_notes.TypeErasure.Statements.{
  Refines, Steps, steps, declare-Refines, copy-Refines, destroy-Refines, draw-Refines,
}

update-commute :
    {X : Type 0} (f : ℕ → X) (p q : ℕ) (a b : X)
    → p ≢ q
    → (n : ℕ) → update (update f q b) p a n ≡ update (update f p a) q b n
update-commute f p q a b ne n = ground arith

module _ {A P : Type 0} {cl : Classes A P} {d : Design A P} (laws : Laws cl d) where
  -- A swap with the parameter of `operator=`, and its end.
  swapped :
      (v : ℕ) (this other : d.Shape) (m : Model A) (s : Vars d.Shape P) (h : Heap A)
      → laws.Fits this m.class
      → h.models (laws.at this) ≡ some m
      → swap_in d v this other s h
        ≡ some (record { vars = set s v (some other); heap = without (laws.at this) h })
  swapped v this other m s h f e =
      let q : (d.swap this other).0 ≡ other = ap (λ x. x.0) (laws.swap_lem this other) in
      let q' : (d.swap this other).1 ≡ this = ap (λ x. x.1) (laws.swap_lem this other) in
      rw (swap_in, q', laws.destroy_lem this m h f e)
        (ap (λ b. some (record { vars = set s v (some b); heap = without (laws.at this) h })) q)

  assign-Refines :
      (v w : ℕ) (s : Store d) (t t' : Vars (Model A) P)
      → Refines laws s t
      → value_step cl (assign v w) t ≡ some t'
      → Steps laws (assign v w) s t'
  assign-Refines v w s t t' g e = elim (Option-cases (t.alive v)) [
    | inl f ↦ absurd (ground arith)
    | inr (n, f) ↦ elim (Option-cases (t.alive w)) [
      | inl k ↦ absurd (ground arith)
      | inr (m, k) ↦
          let this = g.owners.owns v n f in
          let l = g.owners.owns w m k in
          let (o, r, at, fits) = laws.copy_lem l.shape m s.heap l.fits l.model in
          let z =
            swapped v this.shape o n s.vars (with_new m s.heap) this.fits
              (ground (arith, this.model, g.owners.below v this.shape this.alive)) in
          let there : s.vars.alive v ≡ some this.shape = this.alive in
          let there' : s.vars.alive w ≡ some l.shape = l.alive in
          steps laws (assign v w) s
            (record {
              vars = set s.vars v (some o);
              heap = without (laws.at this.shape) (with_new m s.heap);
            })
            (set t v (some m)) t' (ground arith) (ground arith)
            (Owners-assign laws s.vars.alive s.heap t.alive g.owners v this.shape o m there at fits)
            g.drawn
    ]
  ]

  -- A move writes to its source after it has made the target; the two writes commute.
  source :
      (h : Heap A) (p : ℕ) (o k : Model A)
      → p ≢ h.next
      → with_model p o (with_new k h) ≡ with_new k (with_model p o h)
  source h p o k ne =
      ap (λ f. record { models = f; next = suc h.next })
        (λ i q. update-commute h.models p h.next (some o) (some k) ne q i)

  -- What a move does, with the write to its source first.
  moves :
      (s : d.Shape) (m : Model A) (h : Heap A)
      → laws.Fits s m.class
      → h.models (laws.at s) ≡ some m
      → laws.at s ≢ h.next
      → (o : d.Shape) × (d.move s h ≡ some (o, with_new m (with_model (laws.at s) (moved cl m) h)))
        × (laws.at o ≡ h.next)
        × laws.Fits o m.class
  moves s m h f e ne =
      let (o, r, at, fits) = laws.move_lem s m h f e in
      (o, r ∙ ap (λ b. some (o, b)) (source h (laws.at s) (moved cl m) m ne), at, fits)

  move-Refines :
      (v w : ℕ) (s : Store d) (t t' : Vars (Model A) P)
      → Refines laws s t
      → value_step cl (declare_move v w) t ≡ some t'
      → Steps laws (declare_move v w) s t'
  move-Refines v w s t t' g e = elim (Option-cases (t.alive v)) [
    | inr (o, f) ↦ absurd (ground arith)
    | inl f ↦ elim (Option-cases (t.alive w)) [
      | inl k ↦ absurd (ground arith)
      | inr (m, k) ↦
          let l = g.owners.owns w m k in
          let none_there : s.vars.alive v ≡ none = g.owners.ends v f in
          let there : s.vars.alive w ≡ some l.shape = l.alive in
          let ne : laws.at l.shape ≢ s.heap.next = ground (arith, g.owners.below w l.shape) in
          let (o, r, at, fits) = moves l.shape m s.heap l.fits l.model ne in
          let h : Heap A = with_model (laws.at l.shape) (moved cl m) s.heap in
          steps laws (declare_move v w) s
            (record { vars = set s.vars v (some o); heap = with_new m h })
            (set (set t w (some (moved cl m))) v (some m)) t' (ground arith) (ground arith)
            (Owners-declare laws s.vars.alive h (update t.alive w (some (moved cl m)))
              (Owners-write laws s.vars.alive s.heap t.alive g.owners w l.shape m (moved cl m) k
                there refl)
              v o m (ground arith) at fits)
            g.drawn
    ]
  ]

  assign_move-Refines :
      (v w : ℕ) (s : Store d) (t t' : Vars (Model A) P)
      → Refines laws s t
      → value_step cl (assign_move v w) t ≡ some t'
      → Steps laws (assign_move v w) s t'
  assign_move-Refines v w s t t' g e = elim (Option-cases (t.alive v)) [
    | inl f ↦ absurd (ground arith)
    | inr (n, f) ↦ elim (Option-cases (t.alive w)) [
      | inl k ↦ absurd (ground arith)
      | inr (m, k) ↦
          let l = g.owners.owns w m k in
          let there' : s.vars.alive w ≡ some l.shape = l.alive in
          let ne : laws.at l.shape ≢ s.heap.next = ground (arith, g.owners.below w l.shape) in
          let (o, r, at, fits) = moves l.shape m s.heap l.fits l.model ne in
          let h : Heap A = with_model (laws.at l.shape) (moved cl m) s.heap in
          let values : ℕ → Option (Model A) = update t.alive w (some (moved cl m)) in
          let g' : Owners laws s.vars.alive h values =
            Owners-write laws s.vars.alive s.heap t.alive g.owners w l.shape m (moved cl m) k there'
              refl in
          let (n', f') = some_value v n w (moved cl m) t f in
          let this = g'.owns v n' f' in
          let there : s.vars.alive v ≡ some this.shape = this.alive in
          let z =
            swapped v this.shape o n' s.vars (with_new m h) this.fits
              (ground (arith, this.model, g'.below v this.shape this.alive)) in
          steps laws (assign_move v w) s
            (record {
              vars = set s.vars v (some o);
              heap = without (laws.at this.shape) (with_new m h);
            })
            (set (set t w (some (moved cl m))) v (some m)) t' (ground arith) (ground arith)
            (Owners-assign laws s.vars.alive h values g' v this.shape o m there at fits) g.drawn
    ]
  ]
    where
      some_value :
          (v : ℕ) (n : Model A) (w : ℕ) (o : Model A) (t : Vars (Model A) P)
          → t.alive v ≡ some n
          → (n' : Model A) × (update t.alive w (some o) v ≡ some n')
      some_value v n w o t f = elim (ℕ_discrete w v) [
        | yes same ↦ (o, ground arith)
        | no other ↦ (n, ground arith)
      ]

  step-Refines :
      (op : Op A) (s : Store d) (t t' : Vars (Model A) P)
      → Refines laws s t
      → value_step cl op t ≡ some t'
      → Steps laws op s t'
  step-Refines (declare v c a) s t t' g e = declare-Refines laws v c a s t t' g e
  step-Refines (declare_copy v w) s t t' g e = copy-Refines laws v w s t t' g e
  step-Refines (declare_move v w) s t t' g e = move-Refines v w s t t' g e
  step-Refines (assign v w) s t t' g e = assign-Refines v w s t t' g e
  step-Refines (assign_move v w) s t t' g e = assign_move-Refines v w s t t' g e
  step-Refines (leave_scope v) s t t' g e = destroy-Refines laws v s t t' g e
  step-Refines (draw v) s t t' g e = draw-Refines laws v s t t' g e

  run-Refines :
      (ops : List (Op A)) (s : Store d) (t t' : Vars (Model A) P)
      → Refines laws s t
      → value_run cl ops t ≡ some t'
      → (s' : Store d) × (run d ops s ≡ some s') × Refines laws s' t'
  unfolding run value_run
  run-Refines [] s t t' g e = (s, refl, subst (λ u. Refines laws s u) (ground arith) g)
  run-Refines (op ∷ ops) s t t' g e = elim (Option-cases (value_step cl op t)) [
    | inl f ↦ absurd (ground arith)
    | inr (u, f) ↦
        let (s1, r, g1) = step-Refines op s t u g f in
        let (s2, r2, g2) = run-Refines ops s1 u t' g1 (ground arith) in (s2, ground arith, g2)
  ]

  start-Refines : Refines laws (initial d) start
  start-Refines = record {
    owners = record {
      who = λ p. 0;
      owns = λ v o e. absurd (ground arith);
      ends = λ v e. refl;
      below = λ v s e. absurd (ground arith);
      mine = λ v s e. absurd (ground arith);
      fresh = λ p le. refl;
      owned = λ p o e. absurd (ground arith);
    };
    drawn = refl;
  }

  pub designs_hold_values :
      (ops : List (Op A)) (t : Vars (Model A) P)
      → value_run cl ops start ≡ some t
      → (s : Store {A = A} {P = P} d) × (run d ops (initial d) ≡ some s) × Refines laws s t
  designs_hold_values ops t e = run-Refines ops (initial d) start t start-Refines e

  -- Where no variable is alive, no model is.
  pub all_deleted :
      (s : Store {A = A} {P = P} d) (t : Vars (Model A) P)
      → Refines laws s t
      → ((v : ℕ) → t.alive v ≡ none)
      → (p : ℕ) → s.heap.models p ≡ none
  all_deleted s t g dead p = elim (Option-cases (s.heap.models p)) [
    | inl e ↦ e
    | inr (o, e) ↦
        let (k, f, at) = g.owners.owned p o e in
        let over = g.owners.ends (g.owners.who p) (dead (g.owners.who p)) in absurd (ground arith)
  ]
