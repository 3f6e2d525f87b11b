-- ===== src/LockedQueue/Progress.antt =====
-- The two mutexes of the lock-based queue never block all who are inside an operation: `head_mutex` is
-- taken before `tail_mutex`, whose holder waits for nothing.
use cs_learning_notes.Base.{
  ℕ, ◌≡◌, refl, ◌⊎◌, inl, inr, Bool, true, false, Option, some, Option-cases, List, [], ◌∷◌,
  ℕ_discrete,
}
use cs_learning_notes.Interleaving.{System}
use cs_learning_notes.Containers.{Event}
use cs_learning_notes.LockedQueue.{
  Memory, Mode, trying, waiting, Pc, Move, push_lock, push_emplace, push_link, push_swing,
  push_unlock, push_notify, pop_lock, tail_lock, tail_read, tail_unlock, compare, unlock_empty,
  sleeping, advance, unlock_head, take, destroy, delete, returned, idle, lock_tail_push, emplace,
  link, swing, unlock_tail_push, notify_one, notify_nobody, lock_head, lock_tail, read_empty,
  read_more, unlock_tail, find_empty, give_up, fall_asleep, find_more, step_head, unlock, take_item,
  destroy_item, delete_node, leave,
}
use cs_learning_notes.LockedQueue.Invariant.{holds_head, holds_tail}
use cs_learning_notes.LockedQueue.Linearizable.{Reaches, Defined, locked_no_fault, sound}

-- The thread is inside an operation, and does not wait for an item.
abbrev pub active : {A : Type 0} → Pc A → Bool
active idle = false
active sleeping = false
active _ = true

abbrev pub CanMove : {A : Type 0} → ℕ → Memory A → Pc A → Type 0
CanMove {A} i m p = (e : Option (Event A)) × (m' : Memory A) × (p' : Pc A) × Move i m p e m' p'

-- What may keep a thread from its next step.
data Wants {A : Type 0} (m : Memory A) : Pc A → Type 0 where
  wants_head : {w : Mode} (j : ℕ) → m.head_mutex ≡ some j → Wants m (pop_lock w)
  wants_tail_push : {x : A} {p : ℕ} (j : ℕ) → m.tail_mutex ≡ some j → Wants m (push_lock x p)
  wants_tail : {w : Mode} (j : ℕ) → m.tail_mutex ≡ some j → Wants m (tail_lock w)

notify_moves :
    {A : Type 0} (i : ℕ) (m : Memory A) (js : List ℕ) → m.asleep ≡ js → CanMove i m push_notify
notify_moves i m [] e = (_, _, _, notify_nobody e)
notify_moves i m (j ∷ js) e = (_, _, _, notify_one [] j js e)

compare_moves : {A : Type 0} (i : ℕ) (m : Memory A) (w : Mode) (t : ℕ) → CanMove i m (compare w t)
compare_moves i m trying t = elim (ℕ_discrete m.head t) [
  | yes e ↦ (_, _, _, find_empty e)
  | no ne ↦ (_, _, _, find_more ne)
]
compare_moves i m waiting t = elim (ℕ_discrete m.head t) [
  | yes e ↦ (_, _, _, fall_asleep e)
  | no ne ↦ (_, _, _, find_more ne)
]

read_moves : {A : Type 0} (i : ℕ) (m : Memory A) (w : Mode) → CanMove i m (tail_read w)
read_moves i m trying = elim (ℕ_discrete m.head m.tail) [
  | yes e ↦ (_, _, _, read_empty e)
  | no ne ↦ (_, _, _, read_more (λ h. ne))
]
read_moves i m waiting = (_, _, _, read_more (λ h. cc))

moves_or_Wants :
    {A : Type 0} (i : ℕ) (m : Memory A) (p : Pc A)
    → active p ≡ true
    → Defined m p
    → CanMove i m p ⊎ Wants m p
moves_or_Wants i m idle a d = cc
moves_or_Wants i m sleeping a d = cc
moves_or_Wants i m (push_lock x p) a d = elim (Option-cases m.tail_mutex) [
  | inl f ↦ inl (_, _, _, lock_tail_push f)
  | inr (j, f) ↦ inr (wants_tail_push j f)
]
moves_or_Wants i m (push_emplace x p) a d = inl (_, _, _, emplace d)
moves_or_Wants i m (push_link x p) a d = inl (_, _, _, link d.1)
moves_or_Wants i m (push_swing x p) a d = inl (_, _, _, swing)
moves_or_Wants i m push_unlock a d = inl (_, _, _, unlock_tail_push)
moves_or_Wants i m push_notify a d = inl (notify_moves i m m.asleep refl)
moves_or_Wants i m (pop_lock w) a d = elim (Option-cases m.head_mutex) [
  | inl f ↦ inl (_, _, _, lock_head f)
  | inr (j, f) ↦ inr (wants_head j f)
]
moves_or_Wants i m (tail_lock w) a d = elim (Option-cases m.tail_mutex) [
  | inl f ↦ inl (_, _, _, lock_tail f)
  | inr (j, f) ↦ inr (wants_tail j f)
]
moves_or_Wants i m (tail_read w) a d = inl (read_moves i m w)
moves_or_Wants i m (tail_unlock w t) a d = inl (_, _, _, unlock_tail)
moves_or_Wants i m (compare w t) a d = inl (compare_moves i m w t)
moves_or_Wants i m unlock_empty a d = inl (_, _, _, give_up)
moves_or_Wants i m advance a d = inl (_, _, _, step_head d.2 d.3)
moves_or_Wants i m (unlock_head b n x) a d = inl (_, _, _, unlock)
moves_or_Wants i m (take b n x) a d = inl (_, _, _, take_item d.1 d.2)
moves_or_Wants i m (destroy b n y) a d = inl (_, _, _, destroy_item d.2)
moves_or_Wants i m (delete b n y) a d = inl (_, _, _, delete_node)
moves_or_Wants i m (returned r) a d = inl (_, _, _, leave)

-- The holder of `tail_mutex` wants nothing, and that of `head_mutex` no more than `tail_mutex`.
tail_holder-Wants : {A : Type 0} (m : Memory A) (p : Pc A) → holds_tail p ≡ true → ¬ Wants m p
tail_holder-Wants m p h (wants_head j f) = cc
tail_holder-Wants m p h (wants_tail_push j f) = cc
tail_holder-Wants m p h (wants_tail j f) = cc

head_holder-Wants :
    {A : Type 0} (m : Memory A) (p : Pc A)
    → holds_head p ≡ true
    → Wants m p
    → (j : ℕ) × (m.tail_mutex ≡ some j)
head_holder-Wants m p h (wants_head j f) = cc
head_holder-Wants m p h (wants_tail_push j f) = cc
head_holder-Wants m p h (wants_tail j f) = (j, f)

tail_holder_active : {A : Type 0} (p : Pc A) → holds_tail p ≡ true → active p ≡ true
tail_holder_active idle h = cc
tail_holder_active sleeping h = cc
tail_holder_active _ h = refl

head_holder_active : {A : Type 0} (p : Pc A) → holds_head p ≡ true → active p ≡ true
head_holder_active idle h = cc
head_holder_active sleeping h = cc
head_holder_active _ h = refl

module _ {A : Type 0} {tr : List (Event A)} {s : System (Memory A) (Pc A)} (r : Reaches tr s) where
  abbrev Mover : Type 0
  Mover = (j : ℕ) × (active (s.pc j) ≡ true) × CanMove j s.mem (s.pc j)

  tail_mover : (j : ℕ) → s.mem.tail_mutex ≡ some j → Mover
  tail_mover j e =
      let held : holds_tail (s.pc j) ≡ true = ((sound r).local j).tail_held e in
      let act : active (s.pc j) ≡ true = tail_holder_active (s.pc j) held in
      elim (moves_or_Wants j s.mem (s.pc j) act (locked_no_fault r j)) [
        | inl mv ↦ (j, act, mv)
        | inr w ↦ absurd (tail_holder-Wants s.mem (s.pc j) held w)
      ]

  head_mover : (j : ℕ) → s.mem.head_mutex ≡ some j → Mover
  head_mover j e =
      let held : holds_head (s.pc j) ≡ true = ((sound r).local j).head_held e in
      let act : active (s.pc j) ≡ true = head_holder_active (s.pc j) held in
      elim (moves_or_Wants j s.mem (s.pc j) act (locked_no_fault r j)) [
        | inl mv ↦ (j, act, mv)
        | inr w ↦ let (k, f) = head_holder-Wants s.mem (s.pc j) held w in tail_mover k f
      ]

  wanted_mover : (p : Pc A) → Wants s.mem p → Mover
  wanted_mover p (wants_head j f) = head_mover j f
  wanted_mover p (wants_tail_push j f) = tail_mover j f
  wanted_mover p (wants_tail j f) = tail_mover j f

  -- There is no deadlock: while some thread is inside an operation and does not sleep, such a thread
  -- has a next step.
  pub no_deadlock :
      (i : ℕ)
      → active (s.pc i) ≡ true
      → (j : ℕ) × (active (s.pc j) ≡ true) × CanMove j s.mem (s.pc j)
  no_deadlock i a = elim (moves_or_Wants i s.mem (s.pc i) a (locked_no_fault r i)) [
    | inl mv ↦ (i, a, mv)
    | inr w ↦ wanted_mover (s.pc i) w
  ]
