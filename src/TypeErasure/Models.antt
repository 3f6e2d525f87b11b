-- ===== src/TypeErasure/Models.antt =====
-- The objects of `OwningModel` on the heap, which te.hpp and te_md.hpp have in common.
use cs_learning_notes.Base.{ℕ, suc, Option, none, some, update}
use cs_learning_notes.Base.Cmd.{Cmd, ◌>>=◌, defined}

-- The classes that `ShapeT` and `DrawStrategy` are instantiated with: what `drawer_(shape_)` gives, and what a
-- move leaves of its source. A copy, and the target of a move, is as the source was.
pub record Classes (A P : Type 0) : Type 0 where
  pub drawn : ℕ → A → P
  pub moved_from : ℕ → A → A

-- `class` says which instance of `OwningModel` it is; `state` is `shape_` with `drawer_`.
pub record Model (A : Type 0) : Type 0 where
  pub class : ℕ
  pub state : A

-- `new` gives the address `next`.
pub record Heap (A : Type 0) : Type 0 where
  pub models : ℕ → Option (Model A)
  pub next : ℕ

abbrev pub no_models : {A : Type 0} → Heap A
no_models = record { models = λ _. none; next = 1 }

-- The heap after `new`, after a write, and after `delete`.
abbrev pub with_new : {A : Type 0} → Model A → Heap A → Heap A
with_new o h = record { models = update h.models h.next (some o); next = suc h.next }

abbrev pub with_model : {A : Type 0} → ℕ → Model A → Heap A → Heap A
with_model p o h = record h { models = update h.models p (some o) }

abbrev pub without : {A : Type 0} → ℕ → Heap A → Heap A
without p h = record h { models = update h.models p none }

abbrev pub load : {A : Type 0} → ℕ → Cmd (Heap A) (Model A)
load p h = defined (h.models p) h

abbrev pub new_model : {A : Type 0} → Model A → Cmd (Heap A) ℕ
new_model o h = some (h.next, with_new o h)

-- The model at an address is moved to a new one.
abbrev pub new_moved : {A P : Type 0} → Classes A P → ℕ → Model A → Cmd (Heap A) ℕ
new_moved cl p o h =
    let h' = with_new o h in
    some (h.next, with_model p (record o { state = cl.moved_from o.class o.state }) h')

-- Undefined if there is none.
abbrev pub delete_model : {A : Type 0} → ℕ → Cmd (Heap A) (Unit {0})
delete_model p = load p >>= λ _. λ h. some (tt, without p h)
