-- ===== src/TypeErasure/FunctionPointers.antt =====
-- cpp/c++_software_design/type_erasure/te_md.hpp: a pointer to bytes, and pointers to the functions that know
-- of which class they are.
use cs_learning_notes.Base.{ℕ, ◌≡◌, refl, none, ◌==◌, arith, if◌then◌else◌}
use cs_learning_notes.Base.Cmd.{Cmd, pure, ◌>>=◌}
use cs_learning_notes.TypeErasure.Models.{
  Classes, Model, Heap, load, new_model, new_moved, delete_model,
}
use cs_learning_notes.TypeErasure.Design.{Design, Laws}

pub record Shape (A P : Type 0) : Type 0 where
  pub bytes_ : ℕ
  pub draw_ : ℕ → Cmd (Heap A) P
  pub clone_ : ℕ → Cmd (Heap A) ℕ
  pub move_ : ℕ → Cmd (Heap A) ℕ
  pub del_ : ℕ → Cmd (Heap A) (Unit {0})

-- `*static_cast<Model*>(bytes)`, for the class `c`: undefined if an object of another is there.
unfoldable pub static_cast : {A : Type 0} → ℕ → ℕ → Cmd (Heap A) (Model A)
static_cast c bytes = do o ← load bytes; if o.class == c then pure o else (λ _. none)

module _ {A P : Type 0} (cl : Classes A P) where
  -- The four lambda expressions in the constructor, for the class `c`.
  unfoldable pub draw_as : ℕ → ℕ → Cmd (Heap A) P
  unfolding static_cast
  draw_as c bytes = do model ← static_cast c bytes; pure (cl.drawn c model.state)

  unfoldable pub clone_as : ℕ → ℕ → Cmd (Heap A) ℕ
  unfolding static_cast
  clone_as c bytes = do model ← static_cast c bytes; new_model model

  unfoldable pub move_as : ℕ → ℕ → Cmd (Heap A) ℕ
  unfolding static_cast
  move_as c bytes = do model ← static_cast c bytes; new_moved cl bytes model

  unfoldable pub del_as : ℕ → ℕ → Cmd (Heap A) (Unit {0})
  unfolding static_cast
  del_as c bytes = do model ← static_cast c bytes; delete_model bytes

  abbrev pub as_class : ℕ → ℕ → Shape A P
  as_class c p = record {
    bytes_ = p;
    draw_ = draw_as c;
    clone_ = clone_as c;
    move_ = move_as c;
    del_ = del_as c;
  }

  unfoldable pub construct : ℕ → A → Cmd (Heap A) (Shape A P)
  construct c a = do p ← new_model (record { class = c; state = a }); pure (as_class c p)

  unfoldable pub copy : Shape A P → Cmd (Heap A) (Shape A P)
  copy other = do p ← other.clone_ other.bytes_; pure (record other { bytes_ = p })

  unfoldable pub move : Shape A P → Cmd (Heap A) (Shape A P)
  move other = do p ← other.move_ other.bytes_; pure (record other { bytes_ = p })

  unfoldable pub swap : Shape A P → Shape A P → Shape A P × Shape A P
  swap s t = (
    record {
      bytes_ = t.bytes_;
      draw_ = t.draw_;
      clone_ = t.clone_;
      move_ = t.move_;
      del_ = t.del_;
    },
    record {
      bytes_ = s.bytes_;
      draw_ = s.draw_;
      clone_ = s.clone_;
      move_ = s.move_;
      del_ = s.del_;
    },
  )

  abbrev pub te_md : Design A P
  te_md = record {
    Shape = Shape A P;
    construct = construct;
    copy = copy;
    move = move;
    destroy = λ s. s.del_ s.bytes_;
    draw = λ s. s.draw_ s.bytes_;
    swap = swap;
  }

  pub te_md-Laws : Laws cl te_md
  unfolding draw_as clone_as move_as del_as static_cast construct copy move swap
  te_md-Laws = record {
    at = λ s. s.bytes_;
    Fits = λ s c. s ≡ as_class c s.bytes_;
    construct_lem = λ c a h. (as_class c h.next, refl, refl, refl);
    copy_lem = λ s o h f e. (as_class o.class h.next, rw f (ground arith), refl, refl);
    move_lem = λ s o h f e. (as_class o.class h.next, rw f (ground arith), refl, refl);
    destroy_lem = λ s o h f e. rw f (ground arith);
    draw_lem = λ s o h f e. rw f (ground arith);
    swap_lem = λ s t. refl;
  }
