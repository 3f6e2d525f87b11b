-- ===== src/SplitStack/Roles.antt =====
-- What a node of the stack with split counts is, at each moment, to the threads, and what its counts
-- say of the threads that hold it.
use cs_learning_notes.Base.{
  ℕ, suc, ◌+◌, ◌-◌, ◌%◌, ◌<◌, ◌≤◌, ◌≡◌, ◌≢◌, Option, none, some, List, [], ◌∷◌, length, erase,
  if◌then◌else◌, ◌==◌, arith,
}
use cs_learning_notes.SplitStack.{int_size, int_max, negative}

-- `own i` is made by thread `i` and not pushed, `stacked c` is on the stack with the external count `c`,
-- `claimed i c` was popped by thread `i` and has its counts still apart, `merged` was popped and has
-- them in one, and `doomed i` is about to be deleted by thread `i`.
pub data Role : Type 0 where
  unused : Role
  own : (i : ℕ) → Role
  stacked : (c : ℕ) → Role
  claimed : (i c : ℕ) → Role
  merged : Role
  doomed : (i : ℕ) → Role

-- The thread that alone may change the node.
abbrev pub owner : Role → Option ℕ
owner (own i) = some i
owner (claimed i c) = some i
owner (doomed i) = some i
owner unused = none
owner _ = none

-- How often a thread is in a list of those that hold a node.
abbrev pub occurrences : ℕ → List ℕ → ℕ
occurrences i [] = 0
occurrences i (j ∷ js) = if i == j then suc (occurrences i js) else occurrences i js

pub occurrences-erase :
    (i j : ℕ) (js : List ℕ) → i ≢ j → occurrences j (erase i js) ≡ occurrences j js
occurrences-erase i j [] ne = ground arith
occurrences-erase i j (k ∷ js) ne = ground (arith, occurrences-erase i j js ne)

pub occurrences-erase_self :
    (i : ℕ) (js : List ℕ) → occurrences i (erase i js) ≡ occurrences i js - 1
occurrences-erase_self i [] = ground arith
occurrences-erase_self i (k ∷ js) = ground (arith, occurrences-erase_self i js)

pub length-erase :
    (i : ℕ) (js : List ℕ) → occurrences i js ≡ 1 → suc (length (erase i js)) ≡ length js
length-erase i [] h = ground arith
length-erase i (k ∷ js) h = ground (arith, length-erase i js)

pub occurrences_le : (i : ℕ) (js : List ℕ) → occurrences i js ≤ length js
occurrences_le i [] = omega arith
occurrences_le i (k ∷ js) = ground (arith, occurrences_le i js)

-- Where no thread occurs, the list is empty.
pub nobody : (js : List ℕ) → ((i : ℕ) → occurrences i js ≡ 0) → js ≡ []
nobody [] h = ground arith
nobody (k ∷ js) h = absurd (ground (arith, h k))

-- What the internal count is where `n` threads hold the node.
abbrev pub Tally : Role → ℕ → ℕ → Type 0
Tally unused n k = n ≡ 0
Tally (own i) n k = (n ≡ 0) × (k ≡ 0)
Tally (doomed i) n k = n ≡ 0
Tally merged n k = (0 < n) × (n ≤ int_max) × (k ≡ n)
Tally (stacked c) n k = (n < c) × (c ≤ int_max) × (k ≡ negative (c - suc n))
Tally (claimed i c) n k = (n < c) × (c ≤ int_max) × (k ≡ negative (c - suc n))

-- One more thread takes the node up.
pub Tally-acquire :
    (c n k : ℕ) → c < int_max → Tally (stacked c) n k → Tally (stacked (suc c)) (suc n) k
Tally-acquire c n k lt h = (omega (arith, h.0), omega (arith, h.1), omega (arith, h.2))

-- A thread lets the node go, before the counts are merged or after.
pub Tally-release :
    (r : Role) (n k : ℕ) → k ≢ 1 → Tally r (suc n) k → Tally r n ((k + negative 1) % int_size)
Tally-release unused n k ne h = absurd (omega (arith, h))
Tally-release (own i) n k ne h = absurd (omega (arith, h.0))
Tally-release (doomed i) n k ne h = absurd (omega (arith, h))
Tally-release merged n k ne h =
    (omega (arith, h.0, h.1, h.2), omega (arith, h.1), omega (arith, h.0, h.1, h.2))
Tally-release (stacked c) n k ne h = (omega (arith, h.0), h.1, omega (arith, h.0, h.1, h.2))
Tally-release (claimed i c) n k ne h = (omega (arith, h.0), h.1, omega (arith, h.0, h.1, h.2))

-- Only the last thread that holds a node, after the counts are merged, finds the count at one.
pub Tally-last : (r : Role) (n k : ℕ) → k ≡ 1 → Tally r (suc n) k → (r ≡ merged) × (n ≡ 0)
Tally-last unused n k e h = absurd (omega (arith, h))
Tally-last (own i) n k e h = absurd (omega (arith, h.0))
Tally-last (doomed i) n k e h = absurd (omega (arith, h))
Tally-last merged n k e h = (ground arith, omega (arith, h.2))
Tally-last (stacked c) n k e h = absurd (omega (arith, h.0, h.1, h.2))
Tally-last (claimed i c) n k e h = absurd (omega (arith, h.0, h.1, h.2))

-- The counts are merged: the thread that does it is the last one, or not.
pub Tally-merge_last : (i c n k : ℕ) → k ≡ negative (c - 2) → Tally (claimed i c) (suc n) k → n ≡ 0
Tally-merge_last i c n k e h = omega (arith, h.0, h.1, h.2)

pub Tally-merge_more :
    (i c n k : ℕ)
    → k ≢ negative (c - 2)
    → Tally (claimed i c) (suc n) k
    → Tally merged n ((k + (c - 2)) % int_size)
Tally-merge_more i c n k ne h =
    (omega (arith, ne, h.0, h.1, h.2), omega (arith, h.0, h.1), omega (arith, h.0, h.1, h.2))
