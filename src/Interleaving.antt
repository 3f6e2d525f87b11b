-- ===== src/Interleaving.antt =====
-- Threads over one memory, interleaved in any order: the system that a relation of single steps
-- makes, its reachable states with the trace of what the steps did, and the rule that the
-- concurrent components are proved by.
pub mod Continuations
use cs_learning_notes.Base.{
  suc, ℕ, ◌≡◌, refl, ◌∙◌, ◌≢◌, Option, none, some, List, [], ◌∷◌, update, update_self, update_ne,
  ℕ_discrete, sym, subst,
}

-- An abstract machine: the events that its state allows, each with the state that follows.
abbrev pub Spec : Type 0 → Type 0 → Type 1
Spec X E = X → E → X → Type 0

abbrev pub After : {X E : Type 0} → Spec X E → X → Option E → X → Type 0
After next x none y = y ≡ x
After next x (some e) y = next x e y

-- The newest event stands first in a trace.
abbrev pub record_event : {E : Type 0} → Option E → List E → List E
record_event none tr = tr
record_event (some e) tr = e ∷ tr

-- The machine can do the events of the trace, from `x` to `y`.
abbrev pub Replays : {X E : Type 0} → Spec X E → X → List E → X → Type 0
Replays next x [] y = y ≡ x
Replays {X} next x (e ∷ tr) z = (y : X) × Replays next x tr y × next y e z

Replays-record_event :
    {X E : Type 0} (next : Spec X E) (x y z : X) (tr : List E) (e : Option E)
    → Replays next x tr y
    → After next y e z
    → Replays next x (record_event e tr) z
Replays-record_event next x y z tr none h k = subst (λ t. Replays next x tr t) (sym k) h
Replays-record_event next x y z tr (some e) h k = (y, h, k)

pub record System (Mem Pc : Type 0) : Type 0 where
  pub mem : Mem
  pub pc : ℕ → Pc

-- One step of thread `i`: its memory and its place before, what it did, and both after.
abbrev pub Moves : Type 0 → Type 0 → Type 0 → Type 1
Moves Mem Pc E = ℕ → Mem → Pc → Option E → Mem → Pc → Type 0

module _ {Mem Pc E : Type 0} (Move : Moves Mem Pc E) (init : Mem) (idle : Pc) where
  pub data Reach : List E → System Mem Pc → Type 0 where
    start : Reach [] (record { mem = init; pc = λ _. idle })
    step :
        {tr : List E} {s : System Mem Pc} {e : Option E} {m : Mem} {p : Pc}
        → Reach tr s
        → (i : ℕ) → Move i s.mem (s.pc i) e m p
        → Reach (record_event e tr) (record { mem = m; pc = update s.pc i p })

-- What a step of thread `i` from `p` to `p'` keeps of what any other thread knows.
abbrev pub Others :
    {Mem Pc X : Type 0}
    → (X → Mem → ℕ → Pc → Type 0)
    → (ℕ → Pc → ℕ → Pc → Type 0)
    → X
    → Mem
    → ℕ
    → Pc
    → X
    → Mem
    → Pc
    → Type 0
Others {Pc = Pc} L W x m i p x' m' p' =
    (j : ℕ) (q : Pc)
    → i ≢ j
    → L x m j q
    → W i p j q
    → W j q i p
    → L x' m' j q × W i p' j q × W j q i p'

-- A correctness argument for such a system against an abstract machine, whose state is a view of what
-- the argument keeps track of: a fact `G` on the memory, a
-- fact `L` on each thread, and a fact `W` on each two threads. `Kept` is what one step has to
-- re-establish, for the thread that moves and for any other.
module _ {Mem Pc E X Y : Type 0} (view : X → Y) (next : Spec Y E) (G : X → Mem → Type 0)
    (L : X → Mem → ℕ → Pc → Type 0) (W : ℕ → Pc → ℕ → Pc → Type 0) where
  pub record Kept (x : X) (m : Mem) (i : ℕ) (p : Pc) (e : Option E) (m' : Mem) (p' : Pc)
      : Type 0 where
    pub x' : X
    pub follows : After next (view x) e (view x')
    pub global : G x' m'
    pub local : L x' m' i p'
    pub others : Others L W x m i p x' m' p'

  -- What is known of a reachable state.
  pub record Sound (x₀ : X) (tr : List E) (s : System Mem Pc) : Type 0 where
    pub x : X
    pub replays : Replays next (view x₀) tr (view x)
    pub global : G x s.mem
    pub local : (i : ℕ) → L x s.mem i (s.pc i)
    pub pairs : (i j : ℕ) → i ≢ j → W i (s.pc i) j (s.pc j)

  module _ (Move : Moves Mem Pc E) (init : Mem) (idle : Pc) (x₀ : X) (g₀ : G x₀ init)
      (l₀ : (i : ℕ) → L x₀ init i idle) (w₀ : (i j : ℕ) → W i idle j idle)
      (keep : (x : X) (m : Mem) (i : ℕ) (p : Pc) (e : Option E) (m' : Mem) (p' : Pc)
        → Move i m p e m' p'
        → G x m
        → L x m i p
        → Kept x m i p e m' p') where
    Sound-step :
        {tr : List E} {s : System Mem Pc} {e : Option E} {m : Mem} {p : Pc}
        → Sound x₀ tr s
        → (i : ℕ) → Move i s.mem (s.pc i) e m p
        → Sound x₀ (record_event e tr) (record { mem = m; pc = update s.pc i p })
    Sound-step {tr} {s} {e} {m} {p} h i mv = record {
      x = k.x';
      replays = Replays-record_event next (view x₀) (view h.x) (view k.x') tr e h.replays k.follows;
      global = k.global;
      local = local';
      pairs = pairs';
    }
      where
        k : Kept h.x s.mem i (s.pc i) e m p
        k = keep h.x s.mem i (s.pc i) e m p mv h.global (h.local i)

        other : (j : ℕ) → i ≢ j → L k.x' m j (s.pc j) × W i p j (s.pc j) × W j (s.pc j) i p
        other j ne =
            k.others j (s.pc j) ne (h.local j) (h.pairs i j ne) (h.pairs j i (λ q. ne (sym q)))

        local' : (j : ℕ) → L k.x' m j (update s.pc i p j)
        local' j = elim (ℕ_discrete i j) [
          | yes q ↦
              subst (λ t. L k.x' m t (update s.pc i p t)) q (rw (update_self s.pc i p) k.local)
          | no ne ↦ rw (update_ne s.pc i p j ne) ((other j ne).0)
        ]

        pairs' : (a b : ℕ) → a ≢ b → W a (update s.pc i p a) b (update s.pc i p b)
        pairs' a b ne = elim (ℕ_discrete i a) [
          | yes q ↦
              let nb : i ≢ b = λ r. ne (sym q ∙ r) in
              subst (λ t. W t (update s.pc i p t) b (update s.pc i p b)) q
                (rw (update_self s.pc i p, update_ne s.pc i p b nb) ((other b nb).1))
          | no na ↦ elim (ℕ_discrete i b) [
            | yes r ↦
                subst (λ t. W a (update s.pc i p a) t (update s.pc i p t)) r
                  (rw (update_self s.pc i p, update_ne s.pc i p a na) ((other a na).2))
            | no nb ↦ rw (update_ne s.pc i p a na, update_ne s.pc i p b nb) (h.pairs a b ne)
          ]
        ]

    pub Reach-Sound : {tr : List E} {s : System Mem Pc} → Reach Move init idle tr s → Sound x₀ tr s
    Reach-Sound start = record {
      x = x₀;
      replays = refl;
      global = g₀;
      local = l₀;
      pairs = λ i j ne. w₀ i j;
    }
    Reach-Sound (step r i mv) = Sound-step (Reach-Sound r) i mv

    -- The same with a fact `I` on all threads together, which may speak of what the argument keeps track
    -- of.
    module _ (I : X → System Mem Pc → Type 0) (i₀ : I x₀ (record { mem = init; pc = λ _. idle }))
        (keepI : (x : X) (s : System Mem Pc) (i : ℕ) (e : Option E) (m : Mem) (p : Pc)
            (mv : Move i s.mem (s.pc i) e m p) (g : G x s.mem) (l : L x s.mem i (s.pc i))
          → I x s
          → I
              ((keep x s.mem i (s.pc i) e m p mv g l).x')
              (record { mem = m; pc = update s.pc i p })) where
      pub Reach-Sound-all :
          {tr : List E} {s : System Mem Pc}
          → Reach Move init idle tr s
          → (h : Sound x₀ tr s) × I h.x s
      unfolding Sound-step
      Reach-Sound-all start =
          (record { x = x₀; replays = refl; global = g₀; local = l₀; pairs = λ i j ne. w₀ i j }, i₀)
      Reach-Sound-all (step {s} {e} {m} {p} r i mv) =
          let (h, a) = Reach-Sound-all r in
          (Sound-step h i mv, keepI h.x s i e m p mv h.global (h.local i) a)

-- A run: a reachable state with its trace, built a step at a time.
pub record Run {Mem Pc E : Type 0} (Move : Moves Mem Pc E) (init : Mem) (idle : Pc) : Type 0 where
  pub trace : List E
  pub last : System Mem Pc
  pub reach : Reach Move init idle trace last

module _ {Mem Pc E : Type 0} {Move : Moves Mem Pc E} {init : Mem} {idle : Pc} where
  abbrev pub begin : Run Move init idle
  begin = record { trace = []; last = record { mem = init; pc = λ _. idle }; reach = start }

  abbrev pub go :
      (r : Run Move init idle) (i : ℕ) {e : Option E} {m : Mem} {p : Pc}
      → Move i r.last.mem (r.last.pc i) e m p
      → Run Move init idle
  go r i {e} {m} {p} mv = record {
    trace = record_event e r.trace;
    last = record { mem = m; pc = update r.last.pc i p };
    reach = step r.reach i mv;
  }

-- Thread `i` runs alone from `p`, and is back at `idle` after `k` steps.
pub data Solo {Mem Pc E : Type 0} (Move : Moves Mem Pc E) (idle : Pc) (i : ℕ)
    : Mem → Pc → ℕ → Type 0 where
  done : {m : Mem} → Solo Move idle i m idle 0
  alone :
      {m m' : Mem} {p p' : Pc} {e : Option E} {k : ℕ}
      → Move i m p e m' p'
      → Solo Move idle i m' p' k
      → Solo Move idle i m p (suc k)
