-- ===== src/TypeErasure/SmallBuffer.antt =====
-- cpp/c++_software_design/type_erasure/te_sbo.hpp: `Shape` keeps an object that is small enough in a buffer of its
-- own.
use cs_learning_notes.Base.{ℕ, Bool, Option, none, some, update, if◌then◌else◌}
use cs_learning_notes.Base.Cmd.{Cmd, pure, ◌>>=◌, ◌>>◌, defined}
use cs_learning_notes.TypeErasure.Models.{Classes, Model, Heap, with_new, with_model, without}

-- Where `pimpl_` points: into the buffer of the variable `v`, or to the heap.
pub data Pimpl : Type 0 where
  in_buf : (v : ℕ) → Pimpl
  on_heap : (p : ℕ) → Pimpl

-- The members of each variable; `buf_` is the object that lives in the buffer, if there is one.
pub record Memory (A : Type 0) : Type 0 where
  pub buf_ : ℕ → Option (Model A)
  pub pimpl_ : ℕ → Option Pimpl
  pub heap : Heap A

-- The object at a place.
abbrev pub object_at : {A : Type 0} → Memory A → Pimpl → Option (Model A)
object_at m (in_buf v) = m.buf_ v
object_at m (on_heap p) = m.heap.models p

abbrev pub put_at : {A : Type 0} → Pimpl → Model A → Memory A → Memory A
put_at (in_buf v) o m = record m { buf_ = update m.buf_ v (some o) }
put_at (on_heap p) o m = record m { heap = with_model p o m.heap }

abbrev pub end_at : {A : Type 0} → Pimpl → Memory A → Memory A
end_at (in_buf v) m = record m { buf_ = update m.buf_ v none }
end_at (on_heap p) m = record m { heap = without p m.heap }

abbrev pub delete_at : {A : Type 0} → Pimpl → Cmd (Memory A) (Unit {0})
delete_at (in_buf v) m = none
delete_at (on_heap p) m = some (tt, end_at (on_heap p) m)

abbrev pub set_pimpl : {A : Type 0} → ℕ → Option Pimpl → Cmd (Memory A) (Unit {0})
set_pimpl v o m = some (tt, record m { pimpl_ = update m.pimpl_ v o })

-- `std::construct_at` in the buffer of the variable, or `new`.
abbrev pub construct_in : {A : Type 0} → ℕ → Model A → Cmd (Memory A) Pimpl
construct_in v o m = some (in_buf v, record m { buf_ = update m.buf_ v (some o) })

abbrev pub construct_new : {A : Type 0} → Model A → Cmd (Memory A) Pimpl
construct_new o m = some (on_heap m.heap.next, record m { heap = with_new o m.heap })

abbrev pub load_at : {A : Type 0} → Pimpl → Cmd (Memory A) (Model A)
load_at p m = defined (object_at m p) m

abbrev pub pimpl_of : {A : Type 0} → ℕ → Cmd (Memory A) Pimpl
pimpl_of v m = defined (m.pimpl_ v) m

-- `fits` says of which classes `sizeof(OwningModel) <= BufferCapacity`.
module _ {A P : Type 0} (cl : Classes A P) (fits : ℕ → Bool) where
  abbrev pub place : ℕ → Model A → Cmd (Memory A) Pimpl
  place v o = if fits o.class then construct_in v o else construct_new o

  unfoldable pub construct : ℕ → Model A → Cmd (Memory A) (Unit {0})
  construct v o = do p ← place v o; set_pimpl v (some p)

  -- `Shape(Shape const& other)`, of `v`, and `Shape(Shape&& other)`.
  unfoldable pub copy : ℕ → ℕ → Cmd (Memory A) (Unit {0})
  copy v other = do q ← pimpl_of other; o ← load_at q; p ← place v o; set_pimpl v (some p)

  unfoldable pub move : ℕ → ℕ → Cmd (Memory A) (Unit {0})
  move v other = do
    q ← pimpl_of other
    o ← load_at q
    p ← place v o
    λ m. some (tt, put_at q (record o { state = cl.moved_from o.class o.state }) m)
    set_pimpl v (some p)

  -- `pimpl_->del()`: an object that fits is destroyed where it is, and another one is deleted, which is undefined
  -- if it is not on the heap.
  abbrev pub del : Pimpl → Cmd (Memory A) (Unit {0})
  del p = do o ← load_at p; if fits o.class then (λ m. some (tt, end_at p m)) else delete_at p

  -- The destructor, after which the members are gone.
  unfoldable pub destroy : ℕ → Cmd (Memory A) (Unit {0})
  destroy v = do
    p ← pimpl_of v
    del p
    λ m. some (tt, record m { buf_ = update m.buf_ v none; pimpl_ = update m.pimpl_ v none })

  unfoldable pub draw : ℕ → Cmd (Memory A) P
  draw v = do p ← pimpl_of v; o ← load_at p; pure (cl.drawn o.class o.state)

  unfoldable pub swap : ℕ → ℕ → Cmd (Memory A) (Unit {0})
  swap v w m = some (
    tt,
    record m {
      buf_ = update (update m.buf_ v (m.buf_ w)) w (m.buf_ v);
      pimpl_ = update (update m.pimpl_ v (m.pimpl_ w)) w (m.pimpl_ v);
    },
  )

  -- `v = w`, where the parameter of `operator=` is the variable `other`.
  unfoldable pub assign : (v w other : ℕ) → Cmd (Memory A) (Unit {0})
  unfolding copy swap destroy
  assign v w other = do copy other w; swap v other; destroy other
