-- ===== src/HazardStack/Looking.antt =====
-- The steps of the hazard-pointer stack that read the memory or set a hazard pointer.
use cs_learning_notes.Base.{ℕ, suc, ◌≡◌, ◌≢◌, refl, ◌∷◌, subst, Option, none, some, arith, update}
use cs_learning_notes.Chain.{Chain, Chain-cons, Distinct}
use cs_learning_notes.StackNode.{Node, null, Points}
use cs_learning_notes.HazardStack.{Memory, Pc, idle, reload, read_next, pop_cas, scan, drain, go_on}
use cs_learning_notes.Chain.Labels.{AllRole}
use cs_learning_notes.HazardStack.Roles.{on_stack, retired}
use cs_learning_notes.HazardStack.Invariant.{View, Global, Local, Covered, protected, scanned}
use cs_learning_notes.HazardStack.Keeping.{K, keeps, settles, Frame-refl, Covered-none}
use cs_learning_notes.HazardStack.Lists.{head_cell, head-on_stack}

module _ {A : Type 0} (x : View A) (m : Memory A) where
  -- No thread looks for a node that is on the stack.
  pub shielded :
      (j k a : ℕ) (q : Pc A)
      → x.role a ≡ on_stack
      → Local x m j q
      → Covered (some (k, a)) (scanned q)
  shielded j k a (scan b c t r) role l = λ e. ground (arith, l.spends)
  shielded j k a idle role l = tt
  shielded j k a _ role l = tt

  -- Where the hazard pointer is not the node, it is not that of a thread that protects the node.
  pub passed :
      (j a k : ℕ) (q : Pc A)
      → m.ptrs k ≢ a
      → Local x m j q
      → Covered (protected q) (some (a, k))
      → Covered (protected q) (some (a, suc k))
  passed j a k (read_next c b) f l h = λ e. ground (arith, l.stores, h e)
  passed j a k (pop_cas c b n) f l h = λ e. ground (arith, l.stores, h e)
  passed j a k idle f l h = tt
  passed j a k _ f l h = tt

module _ {A : Type 0} (x : View A) (m : Memory A) (i : ℕ) where
  -- A step that leaves the memory alone.
  pub quiet :
      (p p' : Pc A)
      → protected p' ≡ none
      → scanned p' ≡ none
      → Global x m
      → Local x m i p'
      → K x m i p none m p'
  quiet p p' np ns g l = settles x m i x p none m p' np ns refl g l (Frame-refl x m i)

  -- A store to the thread's own hazard pointer.
  pub keep_store :
      (p p' : Pc A) (k a : ℕ)
      → protected p' ≡ none
      → scanned p' ≡ none
      → m.ids k ≡ some i
      → Global x m
      → Local x (record m { ptrs = update m.ptrs k a }) i p'
      → K x m i p none (record m { ptrs = update m.ptrs k a }) p'
  keep_store p p' k a np ns own g l =
      settles x m i x p none (record m { ptrs = update m.ptrs k a }) p' np ns refl
        (record {
          chain = g.chain;
          stacked = g.stacked;
          distinct = g.distinct;
          list = g.list;
          listed = g.listed;
          list_distinct = g.list_distinct;
          free = g.free;
          no_null = g.no_null;
        })
        l
        (record {
          ids = λ c j ne e. e;
          ptrs = λ c j ne e. ground arith;
          hazard = λ j ne. refl;
          held = λ a j ne h. (refl, refl);
          seen = λ a n al s e. (s, n, e);
          same = λ a n al s h. h;
        })

  -- A thread goes on to protect the node at the head, or has protected it before.
  pub keep_protect :
      (k a : ℕ)
      → m.head ≡ a
      → a ≢ null
      → Global x m
      → Local x m i (reload k a)
      → K x m i (reload k a) none m (read_next k a)
  keep_protect k a f nn g l =
      let ne : m.head ≢ null = ground arith in
      let (y, r, ds, e, pts, c) = head_cell x m i g ne in
      let role : x.role a ≡ on_stack =
        subst (λ b. x.role b ≡ on_stack) f (head-on_stack x m i g ne) in
      keeps x m i none x (reload k a) none m (read_next k a) refl g
        (record {
          spot = l.spot;
          uses = l.uses;
          makes = tt;
          stores = l.stores;
          protects = (
            ground arith,
            record { data_ = y; next = r },
            subst (λ b. Points m.nodes b y r) f pts,
          );
          reads = tt;
          spends = tt;
          pends = tt;
        })
        (Frame-refl x m i) (λ j q ne lj c. shielded x m j k a q role lj)
        (λ j q ne lj c. (Covered-none (protected q), tt))

  pub keep_read :
      (k a : ℕ) (n : Node A)
      → m.nodes a ≡ some n
      → Global x m
      → Local x m i (read_next k a)
      → K x m i (read_next k a) none m (pop_cas k a n)
  keep_read k a n f g l =
      keeps x m i none x (read_next k a) none m (pop_cas k a n) refl g (ground arith)
        (Frame-refl x m i) (λ j q ne lj c. c) (λ j q ne lj c. (Covered-none (protected q), tt))

  -- The next node of those that a thread took from the list is its own.
  pub drained-Local :
      (a : ℕ) (r : Option A) (n : Node A)
      → a ≢ null
      → m.nodes a ≡ some n
      → Global x m
      → Local x m i (drain a r)
      → Local x m i (scan a 0 (go_on n.next) r)
  drained-Local a r n nn f g l =
      let (ds, c, all, d, _) = l.pends in
      let (y, b, es, e, pts, rest) = Chain-cons (Points m.nodes) a null ds nn c in
      let all' : AllRole x.role (retired i) ((a, y) ∷ es) = rw e at all in
      let d' : Distinct ((a, y) ∷ es) = rw e at d in
      let next : b ≡ n.next = ground arith in
      record {
        spot = l.spot;
        uses = tt;
        makes = tt;
        stores = tt;
        protects = tt;
        reads = tt;
        spends = (all'.0, n, f, tt);
        pends = (es, subst (λ b. Chain (Points m.nodes) b es null) next rest, all'.1, d'.1, d'.0);
      }
