-- ===== src/HazardStack/Lists.antt =====
-- The steps of the hazard-pointer stack that change `head` or the list of nodes to reclaim.
use cs_learning_notes.Base.{
  ℕ, ◌<◌, ◌≡◌, ◌≢◌, ◌⊎◌, refl, subst, ap, ◌∙◌, [], ◌∷◌, Option, none, some, List, true, arith,
  update,
}
use cs_learning_notes.Chain.{
  Cell, Chain, Distinct, Outside, Chain-cons, Chain-nil, Chain-Outside, values,
}
use cs_learning_notes.Containers.{put, took, empty}
use cs_learning_notes.StackNode.{Node, null, Points}
use cs_learning_notes.HazardStack.{
  Memory, Then, idle, push_cas, pop_cas, clear_won, reload, clear, add_cas, exchange, drain, resume,
  max_hazard_pointers, reclaim, go_on,
}
use cs_learning_notes.Chain.Labels.{
  AllRole, AllRole-Outside, AllRole-update, AllRole-map, AllRole-frame,
}
use cs_learning_notes.HazardStack.Roles.{
  fresh, on_stack, retired, to_reclaim, shown, Holds, taken_by,
}
use cs_learning_notes.HazardStack.Invariant.{View, Global, Local, Known, link, later, Pending}
use cs_learning_notes.HazardStack.Frames.{Frame}
use cs_learning_notes.HazardStack.Keeping.{K, settles, Frame-refl}
use cs_learning_notes.HazardStack.Writes.{resume-protected, resume-scanned}

module _ {A : Type 0} (x : View A) (m : Memory A) (i : ℕ) where
  -- A change of the roles only, which the others do not notice.
  Frame-roles :
      (x' : View A) (m' : Memory A)
      → m'.nodes ≡ m.nodes
      → m'.ids ≡ m.ids
      → m'.ptrs ≡ m.ptrs
      → m'.hazard ≡ m.hazard
      → ((a j : ℕ) → i ≢ j → Holds j (x.role a) → x'.role a ≡ x.role a)
      → ((a : ℕ)
          → shown (x.role a) ≡ true
          → (shown (x'.role a) ≡ true) × ((x.role a ≡ on_stack) ⊎ (x'.role a ≢ on_stack)))
      → Frame i none x m x' m'
  Frame-roles x' m' en ei ep eh held seen = record {
    ids = λ k j ne e. rw ei e;
    ptrs = λ k j ne e. rw ep refl;
    hazard = λ j ne. rw eh refl;
    held = λ a j ne h. (held a j ne h, rw en refl);
    seen = λ a n al s e. ((seen a s).0, n, rw en e);
    same = λ a n al s h. rw en (ground (arith, seen a s));
  }

  pub keep_push :
      (y : A) (p e : ℕ)
      → m.head ≡ e
      → Global x m
      → Local x m i (push_cas y p e)
      → K x m i (push_cas y p e) (some (put y)) (record m { head = p }) idle
  keep_push y p e f g l =
      let role : x.role p ≡ fresh i = l.makes.0 in
      let off : Outside p x.stack =
        AllRole-Outside x.role on_stack p x.stack (ground arith) g.stacked in
      let off' : Outside p x.list =
        AllRole-Outside x.role to_reclaim p x.list (ground arith) g.listed in
      let x' : View A = record x { stack = (p, y) ∷ x.stack; role = update x.role p on_stack } in
      settles x m i x' (push_cas y p e) (some (put y)) (record m { head = p }) idle refl refl refl
        (record {
          chain = (refl, e, l.makes.1, rw (← f) g.chain);
          stacked = (ground arith, AllRole-update x.role on_stack on_stack p x.stack off g.stacked);
          distinct = (off, g.distinct);
          list = g.list;
          listed = AllRole-update x.role to_reclaim on_stack p x.list off' g.listed;
          list_distinct = g.list_distinct;
          free = λ a. ground (arith, g.free a);
          no_null = g.no_null;
        })
        (ground arith)
        (Frame-roles x' (record m { head = p }) refl refl refl refl (λ a j ne h. ground arith)
          (λ a s. ground arith))

  -- The node at the head, where there is one.
  pub head_cell :
      Global x m
      → m.head ≢ null
      → (y : A) × (r : ℕ) × (ds : List (Cell A)) × (x.stack ≡ (m.head, y) ∷ ds)
        × Points m.nodes m.head y r
        × Chain (Points m.nodes) r ds null
  head_cell g ne = Chain-cons (Points m.nodes) m.head null x.stack ne g.chain

  pub head-on_stack : Global x m → m.head ≢ null → x.role m.head ≡ on_stack
  head-on_stack g ne =
      let (y, r, ds, e, pts, c) = head_cell g ne in
      let all : AllRole x.role on_stack ((m.head, y) ∷ ds) = rw e at (g.stacked) in all.0

  pub keep_pop :
      (k a : ℕ) (n : Node A)
      → m.head ≡ a
      → Global x m
      → Local x m i (pop_cas k a n)
      → K x m i
          (pop_cas k a n)
          (some (took n.data_))
          (record m { head = n.next })
          (clear_won k a n.data_)
  keep_pop k a n f g l =
      let (_, k', allocated) = l.protects in
      let ne : m.head ≢ null = ground (arith, g.no_null) in
      let (y, r, ds, e, pts, c) = head_cell g ne in
      let role : x.role a ≡ on_stack = subst (λ b. x.role b ≡ on_stack) f (head-on_stack g ne) in
      let node : n ≡ record { data_ = y; next = r } = ground (arith, l.reads) in
      let d : Distinct ((m.head, y) ∷ ds) = rw e at (g.distinct) in
      let all : AllRole x.role on_stack ((m.head, y) ∷ ds) = rw e at (g.stacked) in
      let off : Outside a ds = subst (λ b. Outside b ds) f d.0 in
      let off' : Outside a x.list =
        AllRole-Outside x.role to_reclaim a x.list (ground arith) g.listed in
      let x' : View A = record x { stack = ds; role = update x.role a (retired i) } in
      settles x m i x' (pop_cas k a n) (some (took n.data_)) (record m { head = n.next })
        (clear_won k a n.data_) refl refl (ground arith)
        (record {
          chain = rw node c;
          stacked = AllRole-update x.role on_stack (retired i) a ds off all.1;
          distinct = d.1;
          list = g.list;
          listed = AllRole-update x.role to_reclaim (retired i) a x.list off' g.listed;
          list_distinct = g.list_distinct;
          free = λ b. ground (arith, g.free b);
          no_null = g.no_null;
        })
        (record {
          spot = l.spot;
          uses = l.uses;
          makes = tt;
          stores = tt;
          protects = tt;
          reads = tt;
          spends = (ground arith, n, ground arith, refl);
          pends = tt;
        })
        (Frame-roles x' (record m { head = n.next }) refl refl refl refl (λ b j ne h. ground arith)
          (λ b s. ground arith))

  -- What a thread knows when its node is in the list.
  added-Local :
      (a : ℕ) (w : Known A) (t : Then) (r : Option A) (x' : View A)
      → x'.role ≡ update x.role a to_reclaim
      → ((k : ℕ) → m.hazard i ≡ some k → (m.ids k ≡ some i) × (k < max_hazard_pointers))
      → Pending x m i (later t) (some (a, w))
      → Local x' (record m { nodes_to_reclaim = a }) i (resume t r)
  added-Local a w reclaim r x' e spot h = ground arith
  added-Local a w (go_on b) r x' e spot (ds, c, all, d, off) = record {
    spot = spot;
    uses = tt;
    makes = tt;
    stores = tt;
    protects = tt;
    reads = tt;
    spends = tt;
    pends = (ds, c, rw e (AllRole-update x.role (retired i) to_reclaim a ds off all), d, tt);
  }

  pub keep_add :
      (a e : ℕ) (t : Then) (r : Option A)
      → m.nodes_to_reclaim ≡ e
      → Global x m
      → Local x m i (add_cas a e t r)
      → K x m i (add_cas a e t r) none (record m { nodes_to_reclaim = a }) (resume t r)
  keep_add a e t r f g l =
      let (role, n, at_a, next) = l.spends in
      let off : Outside a x.list =
        AllRole-Outside x.role to_reclaim a x.list (ground arith) g.listed in
      let off' : Outside a x.stack =
        AllRole-Outside x.role on_stack a x.stack (ground arith) g.stacked in
      let x' : View A = record x {
        list = (a, n.data_) ∷ x.list;
        role = update x.role a to_reclaim;
      } in
      settles x m i x' (add_cas a e t r) none (record m { nodes_to_reclaim = a }) (resume t r)
        (resume-protected t r) (resume-scanned t r) refl
        (record {
          chain = g.chain;
          stacked = AllRole-update x.role on_stack to_reclaim a x.stack off' g.stacked;
          distinct = g.distinct;
          list = (refl, e, ground arith, rw (← f) g.list);
          listed =
              (ground arith, AllRole-update x.role to_reclaim to_reclaim a x.list off g.listed);
          list_distinct = (off, g.list_distinct);
          free = λ b. ground (arith, g.free b);
          no_null = g.no_null;
        })
        (added-Local a (link e) t r x' refl l.spot l.pends)
        (Frame-roles x' (record m { nodes_to_reclaim = a }) refl refl refl refl
          (λ b j ne h. ground arith) (λ b s. ground arith))

  pub keep_take :
      (r : Option A)
      → Global x m
      → Local x m i (exchange r)
      → K x m i
          (exchange r)
          none
          (record m { nodes_to_reclaim = null })
          (drain m.nodes_to_reclaim r)
  keep_take r g l =
      let x' : View A = record x { list = []; role = λ a. taken_by i (x.role a) } in
      settles x m i x' (exchange r) none (record m { nodes_to_reclaim = null })
        (drain m.nodes_to_reclaim r) refl refl refl
        (record {
          chain = g.chain;
          stacked =
              AllRole-frame x.role (λ a. taken_by i (x.role a)) on_stack x.stack
                (λ a h. ap (taken_by i) h) g.stacked;
          distinct = g.distinct;
          list = refl;
          listed = tt;
          list_distinct = tt;
          free = λ a h. ap (taken_by i) (g.free a h);
          no_null = g.no_null;
        })
        (record {
          spot = l.spot;
          uses = tt;
          makes = tt;
          stores = tt;
          protects = tt;
          reads = tt;
          spends = tt;
          pends = (
            x.list,
            g.list,
            AllRole-map x.role (taken_by i) to_reclaim x.list g.listed,
            g.list_distinct,
            tt,
          );
        })
        (Frame-roles x' (record m { nodes_to_reclaim = null }) refl refl refl refl
          (λ b j ne h. ground arith) (λ b s. ground arith))

  -- A thread that sees no node at the head, twice, finds the stack empty.
  pub keep_empty :
      (k a : ℕ)
      → m.head ≡ a
      → a ≡ null
      → Global x m
      → Local x m i (reload k a)
      → K x m i (reload k a) (some empty) m (clear k)
  keep_empty k a f nil g l =
      let none_left : values x.stack ≡ [] =
        Chain-nil (Points m.nodes) m.head null x.stack (f ∙ nil)
          (Chain-Outside (Points m.nodes) null m.head null x.stack (λ y r q. cc (g.no_null))
            g.chain)
          g.chain in
      settles x m i x (reload k a) (some empty) m (clear k) refl refl (none_left, none_left) g
        (ground arith) (Frame-refl x m i)
