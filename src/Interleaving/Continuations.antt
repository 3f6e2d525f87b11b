-- ===== src/Interleaving/Continuations.antt =====
-- Every continuation of a run, with the steps of one thread counted: the rule by which the components show
-- that the operations of a thread end.
use cs_learning_notes.Base.{
  ℕ, suc, ◌+◌, ◌<◌, ◌≤◌, ◌≡◌, refl, ap, Option, List, arith, update, update_self,
}
use cs_learning_notes.Interleaving.{Moves, System, Reach, step, Solo, done, alone}

module _ {Mem Pc E : Type 0} (Move : Moves Mem Pc E) where
  -- The system after a step of thread `j`.
  abbrev pub moved : System Mem Pc → ℕ → Mem → Pc → System Mem Pc
  moved s j m p = record { mem = m; pc = update s.pc j p }

  abbrev pub CanStep : ℕ → Mem → Pc → Type 0
  CanStep i m p = (e : Option E) × (m' : Mem) × (p' : Pc) × Move i m p e m' p'

  -- The system goes on from `s`: thread `i` takes `k` steps from a place to another that `Own` allows, and any thread
  -- takes any number of steps that `Free` allows it.
  pub data Continues (i : ℕ) (Own : Pc → Pc → Type 0) (Free : ℕ → Pc → Pc → Type 0)
      (s : System Mem Pc) : ℕ → System Mem Pc → Type 0 where
    stay : Continues i Own Free s 0 s
    own :
        {k : ℕ} {s' : System Mem Pc} {e : Option E} {m : Mem} {p : Pc}
        → Continues i Own Free s k s'
        → Own (s'.pc i) p
        → Move i s'.mem (s'.pc i) e m p
        → Continues i Own Free s (suc k) (moved s' i m p)
    free :
        {k : ℕ} {s' : System Mem Pc} {e : Option E} {m : Mem} {p : Pc}
        → Continues i Own Free s k s'
        → (j : ℕ) → Free j (s'.pc j) p
        → Move j s'.mem (s'.pc j) e m p
        → Continues i Own Free s k (moved s' j m p)

  pub Solo-CanStep :
      {idle : Pc} {i k : ℕ} {m : Mem} {p : Pc}
      → Solo Move idle i m p k
      → ¬ (p ≡ idle)
      → CanStep i m p
  Solo-CanStep done ne = absurd (ne refl)
  Solo-CanStep (alone mv r) ne = (_, _, _, mv)

  -- A measure that each step of the thread lowers, and no other step raises, bounds their number; `I` holds
  -- all along.
  module _ (init : Mem) (idle : Pc) (i : ℕ) (Own : Pc → Pc → Type 0) (Free : ℕ → Pc → Pc → Type 0)
      (I : System Mem Pc → Type 0) (left : Mem → Pc → ℕ)
      (own_step : (tr : List E) (s : System Mem Pc) (e : Option E) (m : Mem) (p : Pc)
        → Reach Move init idle tr s
        → I s
        → Own (s.pc i) p
        → Move i s.mem (s.pc i) e m p
        → I (moved s i m p) × (left m p < left s.mem (s.pc i)))
      (free_step : (tr : List E) (s : System Mem Pc) (e : Option E) (m : Mem) (p : Pc)
        → Reach Move init idle tr s
        → I s
        → (j : ℕ) → Free j (s.pc j) p
        → Move j s.mem (s.pc j) e m p
        → I (moved s j m p) × (left m (update s.pc j p i) ≤ left s.mem (s.pc i))) where
    pub record Measured (s : System Mem Pc) (k : ℕ) (s' : System Mem Pc) : Type 0 where
      pub trace : List E
      pub reach : Reach Move init idle trace s'
      pub keeps : I s'
      pub bound : k + left s'.mem (s'.pc i) ≤ left s.mem (s.pc i)

    pub Continues-Measured :
        {tr : List E} {s s' : System Mem Pc} {k : ℕ}
        → Reach Move init idle tr s
        → I s
        → Continues i Own Free s k s'
        → Measured s k s'
    Continues-Measured r h stay = record { trace = _; reach = r; keeps = h; bound = omega arith }
    Continues-Measured {s} r h (own {k} {s'} {e} {m} {p} c o mv) =
        let d = Continues-Measured r h c in
        let (keeps, less) = own_step d.trace s' e m p d.reach d.keeps o mv in
        let same : left m (update s'.pc i p i) ≡ left m p = ap (left m) (update_self s'.pc i p) in
        record {
          trace = _;
          reach = step d.reach i mv;
          keeps = keeps;
          bound = omega (arith, d.bound, less, same);
        }
    Continues-Measured {s} r h (free {k} {s'} {e} {m} {p} c j f mv) =
        let d = Continues-Measured r h c in
        let (keeps, le) = free_step d.trace s' e m p d.reach d.keeps j f mv in
        record {
          trace = _;
          reach = step d.reach j mv;
          keeps = keeps;
          bound = omega (arith, d.bound, le);
        }
