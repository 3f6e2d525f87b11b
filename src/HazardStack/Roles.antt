-- ===== src/HazardStack/Roles.antt =====
-- What a node of the hazard-pointer stack is, at each moment, to the threads: who may write or delete
-- it follows from that.
use cs_learning_notes.Base.{ℕ, ◌≡◌, ◌⊎◌, Bool, true, false}

-- `fresh i` is new and known to thread `i` only; `retired i` was on the stack, and thread `i` alone may
-- delete it.
pub data Role : Type 0 where
  unused : Role
  fresh : (i : ℕ) → Role
  on_stack : Role
  retired : (i : ℕ) → Role
  to_reclaim : Role

-- A node that is or was on the stack, so that a hazard pointer may lead to it.
abbrev pub shown : Role → Bool
shown unused = false
shown (fresh i) = false
shown _ = true

-- The thread that holds a node.
abbrev pub Holds : ℕ → Role → Type 0
Holds i r = (r ≡ fresh i) ⊎ (r ≡ retired i)

-- A thread takes over the whole list of nodes to reclaim.
abbrev pub taken_by : ℕ → Role → Role
taken_by i to_reclaim = retired i
taken_by i r = r
