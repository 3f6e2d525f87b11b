-- ===== src/TypeErasure/Design.antt =====
-- What the designs of type erasure have in common, as a record of operations with laws.
use cs_learning_notes.Base.{ℕ, ◌≡◌, some}
use cs_learning_notes.Base.Cmd.{Cmd}
use cs_learning_notes.TypeErasure.Models.{Classes, Model, Heap, with_new, with_model, without}

-- The members of a class `Shape`: its constructors, destructor, `draw`, and the swap in `operator=`.
pub record Design (A P : Type 0) : Type 1 where
  pub Shape : Type 0
  pub construct : (class : ℕ) (state : A) → Cmd (Heap A) Shape
  pub copy : Shape → Cmd (Heap A) Shape
  pub move : Shape → Cmd (Heap A) Shape
  pub destroy : Shape → Cmd (Heap A) (Unit {0})
  pub draw : Shape → Cmd (Heap A) P
  pub swap : Shape → Shape → Shape × Shape

-- A `Shape` that fits a class owns the model at `at`, and treats it as one of that class.
pub record Laws {A P : Type 0} (cl : Classes A P) (d : Design A P) : Type 1 where
  pub at : d.Shape → ℕ
  pub Fits : d.Shape → ℕ → Type 0
  pub construct_lem :
      (c : ℕ) (a : A) (h : Heap A)
      → (s : d.Shape) × (d.construct c a h ≡ some (s, with_new (record { class = c; state = a }) h))
        × (at s ≡ h.next)
        × Fits s c
  pub copy_lem :
      (s : d.Shape) (o : Model A) (h : Heap A)
      → Fits s o.class
      → h.models (at s) ≡ some o
      → (s' : d.Shape) × (d.copy s h ≡ some (s', with_new o h)) × (at s' ≡ h.next) × Fits s' o.class
  pub move_lem :
      (s : d.Shape) (o : Model A) (h : Heap A)
      → Fits s o.class
      → h.models (at s) ≡ some o
      → (s' : d.Shape) × (d.move s h
          ≡ some (
            s',
            with_model (at s) (record o { state = cl.moved_from o.class o.state }) (with_new o h),
          ))
        × (at s' ≡ h.next)
        × Fits s' o.class
  pub destroy_lem :
      (s : d.Shape) (o : Model A) (h : Heap A)
      → Fits s o.class
      → h.models (at s) ≡ some o
      → d.destroy s h ≡ some (tt, without (at s) h)
  pub draw_lem :
      (s : d.Shape) (o : Model A) (h : Heap A)
      → Fits s o.class
      → h.models (at s) ≡ some o
      → d.draw s h ≡ some (cl.drawn o.class o.state, h)
  pub swap_lem : (s t : d.Shape) → d.swap s t ≡ (t, s)
