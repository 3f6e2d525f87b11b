-- ===== src/TypeErasure/Virtual.antt =====
-- cpp/c++_software_design/type_erasure/te.hpp: a pointer to an object with virtual functions.
use cs_learning_notes.Base.{ℕ, refl, arith}
use cs_learning_notes.Base.Cmd.{Cmd, pure, ◌>>=◌}
use cs_learning_notes.TypeErasure.Models.{Classes, Heap, load, new_model, new_moved, delete_model}
use cs_learning_notes.TypeErasure.Design.{Design, Laws}

pub record Shape : Type 0 where
  pub pimpl_ : ℕ

module _ {A P : Type 0} (cl : Classes A P) where
  -- The virtual functions of `OwningModel`; the class of the object at the pointer selects them.
  unfoldable pub virtual_draw : ℕ → Cmd (Heap A) P
  virtual_draw p = do o ← load p; pure (cl.drawn o.class o.state)

  unfoldable pub virtual_clone : ℕ → Cmd (Heap A) ℕ
  virtual_clone p = do o ← load p; new_model o

  unfoldable pub virtual_move : ℕ → Cmd (Heap A) ℕ
  virtual_move p = do o ← load p; new_moved cl p o

  unfoldable pub construct : ℕ → A → Cmd (Heap A) Shape
  construct c a = do p ← new_model (record { class = c; state = a }); pure (record { pimpl_ = p })

  unfoldable pub copy : Shape → Cmd (Heap A) Shape
  unfolding virtual_clone
  copy other = do p ← virtual_clone other.pimpl_; pure (record { pimpl_ = p })

  unfoldable pub move : Shape → Cmd (Heap A) Shape
  unfolding virtual_move
  move other = do p ← virtual_move other.pimpl_; pure (record { pimpl_ = p })

  abbrev pub te : Design A P
  te = record {
    Shape = Shape;
    construct = construct;
    copy = copy;
    move = move;
    destroy = λ s. delete_model s.pimpl_;
    draw = λ s. virtual_draw s.pimpl_;
    swap = λ s t. (record s { pimpl_ = t.pimpl_ }, record t { pimpl_ = s.pimpl_ });
  }

  pub te-Laws : Laws cl te
  unfolding virtual_draw virtual_clone virtual_move construct copy move
  te-Laws = record {
    at = λ s. s.pimpl_;
    Fits = λ s c. Unit {0};
    construct_lem = λ c a h. (record { pimpl_ = h.next }, refl, refl, tt);
    copy_lem = λ s o h f e. (record { pimpl_ = h.next }, ground arith, refl, tt);
    move_lem = λ s o h f e. (record { pimpl_ = h.next }, ground arith, refl, tt);
    destroy_lem = λ s o h f e. ground arith;
    draw_lem = λ s o h f e. ground arith;
    swap_lem = λ s t. refl;
  }
