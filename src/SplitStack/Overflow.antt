-- ===== src/SplitStack/Overflow.antt =====
-- The external count of a null pointer in the stack with split counts.
use cs_learning_notes.Base.{
  ℕ, zero, suc, ◌-◌, ◌<◌, ◌≡◌, refl, sym, Option, none, some, List, ◌∷◌, arith, subst, ap,
  replicate, ◌∙◌,
}
use cs_learning_notes.Interleaving.{System, start, step}
use cs_learning_notes.Interleaving.Continuations.{CanStep}
use cs_learning_notes.Containers.{Event, empty}
use cs_learning_notes.SplitStack.{
  CountedNodePtr, Memory, Pc, Move, idle, null, int_max, pop_acquire, pop_begin, pop_head,
  acquire_null, acquire_node, acquire_fail, pop_load, returned, leave,
}
use cs_learning_notes.SplitStack.Linearizable.{Reaches, sound}
use cs_learning_notes.SplitStack.NullCount.{null_with, empties, null-Down, null_counts}

-- Thread 0 is idle, and `head` is null with the count `c`.
pub record Empty {A : Type 0} (tr : List (Event A)) (c : ℕ) : Type 0 where
  pub state : System (Memory A) (Pc A)
  pub reach : Reaches tr state
  pub ready : state.pc 0 ≡ idle
  pub head : state.mem.head ≡ null_with c

module _ {A : Type 0} where
  -- Up to the compare-exchange that raises the count.
  pub record Begun (tr : List (Event A)) (c : ℕ) : Type 0 where
    pub state : System (Memory A) (Pc A)
    pub reach : Reaches tr state
    pub ready : state.pc 0 ≡ pop_acquire (null_with c)
    pub head : state.mem.head ≡ null_with c

  begun : (tr : List (Event A)) (c : ℕ) → Empty tr c → Begun tr c
  begun tr c g =
      let s = g.state in
      let r =
        step g.reach 0 (subst (λ p. Move 0 s.mem p none s.mem pop_load) (sym g.ready) pop_begin) in
      let r = step r 0 pop_head in
      record { state = _; reach = r; ready = ap pop_acquire g.head; head = g.head }

  next_pop : (tr : List (Event A)) (c : ℕ) → c < int_max → Empty tr c → Empty (empty ∷ tr) (suc c)
  next_pop tr c lt g =
      let b = begun tr c g in
      let s = b.state in
      let raised : Memory A = record s.mem { head = null_with (suc c) } in
      let r = step b.reach 0 (
        subst (λ p. Move 0 s.mem p (some empty) raised (returned none)) (sym b.ready)
          (acquire_null b.head lt refl)) in
      let r = step r 0 leave in record { state = _; reach = r; ready = refl; head = refl }

  pops : (k : ℕ) → k < int_max → Empty {A = A} (replicate k empty) (suc k)
  pops zero lt = record { state = _; reach = start; ready = refl; head = refl }
  pops (suc k) lt = next_pop (replicate k empty) (suc k) lt (pops k (omega arith))

stuck :
    {A : Type 0} (m : Memory A) (i : ℕ) (l : CountedNodePtr) (e : Option (Event A)) (m' : Memory A)
    (p' : Pc A)
    → l.external_count ≡ int_max
    → m.head ≡ l
    → ¬ Move i m (pop_acquire l) e m' p'
stuck m i l e m' p' c h (acquire_fail f) = f h
stuck m i l e m' p' c h (acquire_null f lt z) = omega arith
stuck m i l e m' p' c h (acquire_node f lt z) = omega arith

-- A run after which the count is the largest `int`, and thread 0 is about to raise it.
pub record AtLimit (A : Type 0) : Type 0 where
  pub trace : List (Event A)
  pub state : System (Memory A) (Pc A)
  pub reach : Reaches trace state
  pub count : suc (empties trace) ≡ int_max
  pub null_head : state.mem.head.ptr ≡ null
  pub ready : state.pc 0 ≡ pop_acquire state.mem.head

empties-replicate : (A : Type 0) (k : ℕ) → empties {A = A} (replicate k empty) ≡ k
empties-replicate A zero = refl
empties-replicate A (suc k) = ap suc (empties-replicate A k)

-- A thread alone gets there, by one pop of the empty stack after another.
limit : {A : Type 0} (k : ℕ) → suc k ≡ int_max → AtLimit A
limit {A} k e =
    let b = begun (replicate k empty) (suc k) (pops {A = A} k (omega arith)) in
    record {
      trace = replicate k empty;
      state = b.state;
      reach = b.reach;
      count = ap suc (empties-replicate A k) ∙ e;
      null_head = ap (λ l. l.ptr) b.head;
      ready = b.ready ∙ ap pop_acquire (sym b.head);
    }

pub limit_reached : AtLimit ℕ
limit_reached = limit (int_max - 1) (omega arith)

-- When as many pops found the stack empty as make the count the largest `int`, in whatever run, and the stack is empty,
-- a thread that is about to raise the count has no step that is defined: it would overflow an `int`.
pub empty_pops_overflow :
    {A : Type 0} {tr : List (Event A)} {s : System (Memory A) (Pc A)}
    → Reaches tr s
    → suc (empties tr) ≡ int_max
    → s.mem.head.ptr ≡ null
    → (i : ℕ) → s.pc i ≡ pop_acquire s.mem.head
    → ¬ CanStep Move i s.mem (s.pc i)
empty_pops_overflow {tr} {s} r full z i ready (e, m, p, mv) =
    let (path, d) = null_counts r in
    let h = sound r in
    let at_null =
      null-Down s.mem.nodes h.x.role (suc (empties tr)) h.global.no_null s.mem.head path z d in
    stuck s.mem i s.mem.head e m p (ap (λ l. l.external_count) at_null ∙ full) refl
      (subst (λ q. Move i s.mem q e m p) ready mv)
