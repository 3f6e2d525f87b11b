-- ===== src/SplitStack/NullCount.antt =====
-- cpp/concurrency/concurrent_data_structure/lockfree_stack_split_ref_count.cpp: the external count beside the null pointer
-- at the bottom of the stack.
use cs_learning_notes.Base.{
  ℕ, suc, ◌≡◌, ◌≢◌, refl, sym, ◌∙◌, ap, subst, Option, none, some, List, [], ◌∷◌, arith, update,
  update_ne,
}
use cs_learning_notes.Interleaving.{System, start, step, record_event}
use cs_learning_notes.Containers.{Event, empty}
use cs_learning_notes.Chain.{Cell, Outside}
use cs_learning_notes.SplitStack.{
  CountedNodePtr, Node, Memory, Pc, Move, null, push_begin, push_head, allocate, push_win,
  push_fail, pop_begin, pop_head, acquire_fail, acquire_null, acquire_node, load_next, pop_win,
  pop_fail, emplace, merge_last, merge_more, delete_popped, release_last, release_more,
  delete_released, leave,
}
use cs_learning_notes.SplitStack.Roles.{Role, stacked}
use cs_learning_notes.SplitStack.Links.{Links, Links-Outside}
use cs_learning_notes.SplitStack.Invariant.{View, Global, Local}
use cs_learning_notes.SplitStack.Linearizable.{Reaches, sound}

abbrev pub null_with : ℕ → CountedNodePtr
null_with c = record { external_count = c; ptr = null }

-- How many pops found the stack empty.
abbrev pub empties : {A : Type 0} → List (Event A) → ℕ
empties [] = 0
empties (empty ∷ tr) = suc (empties tr)
empties (_ ∷ tr) = empties tr

-- From the pointer, over the nodes at these addresses, down to the null pointer with the count `c`.
abbrev pub Down : {A : Type 0} → (ℕ → Option (Node A)) → CountedNodePtr → List ℕ → ℕ → Type 0
Down h l [] c = l ≡ null_with c
Down {A} h l (a ∷ path) c = (l.ptr ≡ a) × (n : Node A) × (h a ≡ some n) × Down h n.next path c

module _ {A : Type 0} (h : ℕ → Option (Node A)) (role : ℕ → Role) (c : ℕ)
    (no_null : h null ≡ none) where
  -- To write a node that is not on the stack changes nothing.
  write-Down :
      (p : ℕ) (o : Option (Node A)) (l : CountedNodePtr) (cs : List (Cell A)) (path : List ℕ)
      → Outside p cs
      → Links role h l cs
      → Down h l path c
      → Down (update h p o) l path c
  write-Down p o l cs [] out k d = d
  write-Down p o l [] (a ∷ path) out k (e, n, f, d) = absurd (ground arith)
  write-Down p o l ((b, y) ∷ cs) (a ∷ path) out (eb, r, n', f', dy, rest) (e, n, f, d) = (
    e,
    n,
    update_ne h p o a (ground arith) ∙ f,
    write-Down p o n.next cs path out.1 (subst (λ t. Links role h t cs) (ground arith) rest) d,
  )

  pub null-Down :
      (l : CountedNodePtr) (path : List ℕ) → l.ptr ≡ null → Down h l path c → l ≡ null_with c
  null-Down l [] e d = d
  null-Down l (a ∷ path) e (ea, n, f, d) = absurd (ground arith)

  -- The external count of a pointer to a node does not matter.
  node-Down :
      (l l' : CountedNodePtr) (path : List ℕ)
      → l.ptr ≢ null
      → l'.ptr ≡ l.ptr
      → Down h l path c
      → Down h l' path c
  node-Down l l' [] ne e d = absurd (ne (ap (λ l. l.ptr) d))
  node-Down l l' (a ∷ path) ne e (ea, n, f, d) = (e ∙ ea, n, f, d)

  next-Down :
      (l : CountedNodePtr) (n : Node A) (path : List ℕ)
      → h l.ptr ≡ some n
      → Down h l path c
      → (bs : List ℕ) × Down h n.next bs c
  next-Down l n [] f d = absurd (ground arith)
  next-Down l n (a ∷ path) f (ea, k, g, d) = (path, subst (λ t. Down h t path c) (ground arith) d)

-- The stack leads down to the null pointer with this count.
abbrev pub Bottom : {A : Type 0} → Memory A → ℕ → Type 0
Bottom m c = (path : List ℕ) × Down m.nodes m.head path c

module _ {A : Type 0} (x : View A) (m : Memory A) (i : ℕ) where
  write-Bottom :
      (p : ℕ) (o : Option (Node A)) (c : ℕ) (r : Role)
      → Global x m
      → x.role p ≡ r
      → ((k : ℕ) → r ≢ stacked k)
      → (path : List ℕ) × Down m.nodes m.head path c
      → (path : List ℕ) × Down (update m.nodes p o) m.head path c
  write-Bottom p o c r g e ne (path, d) = (
    path,
    write-Down m.nodes x.role c g.no_null p o m.head x.stack path
        (Links-Outside x.role m.nodes p m.head x.stack (λ k z. ne k (sym e ∙ z)) g.links) g.links d,
  )

  -- A pop of an empty stack adds one to the count, and nothing else changes it.
  keep-Bottom :
      (tr : List (Event A)) (p : Pc A) (e : Option (Event A)) (m' : Memory A) (p' : Pc A)
      → Move i m p e m' p'
      → Global x m
      → Local x m i p
      → Bottom m (suc (empties tr))
      → Bottom m' (suc (empties (record_event e tr)))
  keep-Bottom tr p e m' p' (push_begin y) g l b = b
  keep-Bottom tr p e m' p' push_head g l b = b
  keep-Bottom tr p e m' p' (allocate q f nn) g l b =
      write-Bottom q _ _ _ g (g.free q f) (λ k z. cc) b
  keep-Bottom tr p e m' p' (push_win {p = q} f) g l (path, d) =
      (q ∷ path, (refl, _, l.knows, subst (λ t. Down m.nodes t path (suc (empties tr))) f d))
  keep-Bottom tr p e m' p' (push_fail {p = q} f) g l b = write-Bottom q _ _ _ g l.owns (λ k z. cc) b
  keep-Bottom tr p e m' p' pop_begin g l b = b
  keep-Bottom tr p e m' p' pop_head g l b = b
  keep-Bottom tr p e m' p' (acquire_fail f) g l b = b
  keep-Bottom tr p e m' p' (acquire_null f lt z) g l (path, d) =
      let at_null =
        null-Down m.nodes x.role (suc (empties tr)) g.no_null m.head path (ap (λ l. l.ptr) f ∙ z)
          d in
      (
        [],
        λ i. record {
          external_count = suc ((sym f ∙ at_null) i).external_count;
          ptr = ((sym f ∙ at_null) i).ptr;
        },
      )
  keep-Bottom tr p e m' p' (acquire_node {l = k} f lt ne) g l (path, d) = (
    path,
    node-Down m.nodes x.role (suc (empties tr)) g.no_null m.head _ path
        (λ z. ne (sym (ap (λ l. l.ptr) f) ∙ z)) (sym (ap (λ l. l.ptr) f)) d,
  )
  keep-Bottom tr p e m' p' (load_next f) g l b = b
  keep-Bottom tr p e m' p' (pop_win {c} {a} {l = k} {n} f fn) g l (path, d) =
      let (n', fn', next) = l.knows in
      let (bs, d') =
        next-Down m.nodes x.role (suc (empties tr)) g.no_null m.head n' path
          (ap (λ l. m.nodes l.ptr) f ∙ fn') d in
      (bs, subst (λ t. Down m.nodes t bs (suc (empties tr))) next d')
  keep-Bottom tr p e m' p' (pop_fail f) g l b = b
  keep-Bottom tr p e m' p' (emplace f) g l b = b
  keep-Bottom tr p e m' p' (merge_last f h) g l b = b
  keep-Bottom tr p e m' p' (merge_more f h) g l b = b
  keep-Bottom tr p e m' p' (delete_popped {a} f) g l b = write-Bottom a _ _ _ g l.owns (λ k z. cc) b
  keep-Bottom tr p e m' p' (release_last f h) g l b = b
  keep-Bottom tr p e m' p' (release_more f h) g l b = b
  keep-Bottom tr p e m' p' (delete_released {a} f) g l b =
      write-Bottom a _ _ _ g l.owns (λ k z. cc) b
  keep-Bottom tr p e m' p' leave g l b = b

-- In every reachable state the stack leads down to a null pointer whose external count is one more than the number
-- of pops so far that found the stack empty, by whichever threads, and whatever was pushed and popped
-- in between: nothing lowers it.
pub null_counts :
    {A : Type 0} {tr : List (Event A)} {s : System (Memory A) (Pc A)}
    → Reaches tr s
    → Bottom s.mem (suc (empties tr))
null_counts start = ([], refl)
null_counts (step {tr} {s} {e} {m} {p} r i mv) =
    let h = sound r in
    keep-Bottom h.x s.mem i tr (s.pc i) e m p mv h.global (h.local i) (null_counts r)
