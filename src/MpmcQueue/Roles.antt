-- ===== src/MpmcQueue/Roles.antt =====
-- What a node of the multi-producer queue is, at each moment, to the threads.
use cs_learning_notes.Base.{ℕ, Bool, true, false}

-- `spare i` is made by thread `i` and not linked, `ahead` is linked behind the tail, and `past` was popped.
pub data Role : Type 0 where
  unused : Role
  spare : (i : ℕ) → Role
  ahead : Role
  last : Role
  queued : Role
  past : Role

-- A node that `tail` is at or was at.
abbrev pub shown : Role → Bool
shown last = true
shown queued = true
shown past = true
shown _ = false

-- A node that `tail` has left.
abbrev pub settled : Role → Bool
settled queued = true
settled past = true
settled _ = false
