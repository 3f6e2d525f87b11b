-- ===== src/HazardStack/Writes.antt =====
-- The steps of the hazard-pointer stack that write to one node, or allocate or delete it.
use cs_learning_notes.Base.{
  ℕ, ◌<◌, ◌≡◌, ◌≢◌, refl, subst, Option, none, some, false, arith, update, ℕ_discrete,
}
use cs_learning_notes.Chain.{Outside}
use cs_learning_notes.StackNode.{Node, null, write-Chain}
use cs_learning_notes.HazardStack.{
  Memory, Pc, Then, push_new, push_cas, add_write, add_cas, scan, idle, read_next, pop_cas, resume,
  max_hazard_pointers, reclaim, go_on,
}
use cs_learning_notes.Chain.Labels.{AllRole-Outside, AllRole-update}
use cs_learning_notes.HazardStack.Roles.{
  Role, unused, fresh, on_stack, retired, to_reclaim, shown, Holds,
}
use cs_learning_notes.HazardStack.Invariant.{
  View, Global, Local, Covered, protected, scanned, Known, anything, link, later, Pending,
}
use cs_learning_notes.HazardStack.Frames.{Spared, Frame}
use cs_learning_notes.HazardStack.Keeping.{K, keeps, settles, Covered-none}

-- A write of a node leaves every address allocated.
update-some :
    {A : Type 0} (h : ℕ → Option (Node A)) (a : ℕ) (n : Node A) (b : ℕ) (k : Node A)
    → h b ≡ some k
    → (k' : Node A) × (update h a (some n) b ≡ some k')
update-some h a n b k e = elim (ℕ_discrete a b) [
  | yes q ↦ (n, ground arith)
  | no q ↦ (k, ground arith)
]

pub resume-protected : {A : Type 0} (t : Then) (r : Option A) → protected (resume t r) ≡ none
resume-protected reclaim r = refl
resume-protected (go_on b) r = refl

pub resume-scanned : {A : Type 0} (t : Then) (r : Option A) → scanned (resume t r) ≡ none
resume-scanned reclaim r = refl
resume-scanned (go_on b) r = refl

module _ {A : Type 0} (x : View A) (m : Memory A) (i : ℕ) where
  -- The node at one address, with its role.
  abbrev pub retold : ℕ → Role → View A
  retold a r = record x { role = update x.role a r }

  abbrev pub rewritten : ℕ → Option (Node A) → Memory A
  rewritten a o = record m { nodes = update m.nodes a o }

  -- A write to a node that is neither on the stack nor in the list.
  Global-write :
      (a : ℕ) (r : Role) (o : Option (Node A))
      → x.role a ≢ on_stack
      → x.role a ≢ to_reclaim
      → a ≢ null
      → (o ≡ none → r ≡ unused)
      → Global x m
      → Global (retold a r) (rewritten a o)
  Global-write a r o ns nl nn f g =
      let off : Outside a x.stack = AllRole-Outside x.role on_stack a x.stack ns g.stacked in
      let off' : Outside a x.list = AllRole-Outside x.role to_reclaim a x.list nl g.listed in
      record {
        chain = write-Chain m.nodes a m.head null o x.stack off g.chain;
        stacked = AllRole-update x.role on_stack r a x.stack off g.stacked;
        distinct = g.distinct;
        list = write-Chain m.nodes a m.nodes_to_reclaim null o x.list off' g.list;
        listed = AllRole-update x.role to_reclaim r a x.list off' g.listed;
        list_distinct = g.list_distinct;
        free = λ b. ground (arith, g.free b);
        no_null = ground (arith, g.no_null);
      }

  -- A write to a node that no other thread holds or sees.
  Frame-hidden :
      (a : ℕ) (n : Node A)
      → shown (x.role a) ≡ false
      → ((j : ℕ) → i ≢ j → ¬ Holds j (x.role a))
      → Frame i none x m (retold a (fresh i)) (rewritten a (some n))
  Frame-hidden a n h mine = record {
    ids = λ k j ne e. e;
    ptrs = λ k j ne e. refl;
    hazard = λ j ne. refl;
    held = λ b j ne hb. ground (arith, mine j ne);
    seen = λ b k al s e. let (k', e') = update-some m.nodes a n b k e in (ground arith, k', e');
    same = λ b k al s e. ground arith;
  }

  -- A write to a node that a thread has to delete.
  Frame-retired :
      (a : ℕ) (n : Node A)
      → x.role a ≡ retired i
      → Frame i none x m (retold a (retired i)) (rewritten a (some n))
  Frame-retired a n h = record {
    ids = λ k j ne e. e;
    ptrs = λ k j ne e. refl;
    hazard = λ j ne. refl;
    held = λ b j ne hb. ground arith;
    seen = λ b k al s e. let (k', e') = update-some m.nodes a n b k e in (ground arith, k', e');
    same = λ b k al s e. ground arith;
  }

  Frame-deleted :
      (a : ℕ) → x.role a ≡ retired i → Frame i (some a) x m (retold a unused) (rewritten a none)
  Frame-deleted a h = record {
    ids = λ k j ne e. e;
    ptrs = λ k j ne e. refl;
    hazard = λ j ne. refl;
    held = λ b j ne hb. ground arith;
    seen = λ b k al s e. (ground arith, k, ground arith);
    same = λ b k al s e. ground arith;
  }

  pub keep_allocate :
      (y : A) (e p : ℕ)
      → m.nodes p ≡ none
      → p ≢ null
      → Global x m
      → Local x m i (push_new y e)
      → K x m i
          (push_new y e)
          none
          (record m { nodes = update m.nodes p (some (record { data_ = y; next = e })) })
          (push_cas y p e)
  keep_allocate y e p f nn g l =
      let n : Node A = record { data_ = y; next = e } in
      let role : x.role p ≡ unused = g.free p f in
      settles x m i (retold p (fresh i)) (push_new y e) none (rewritten p (some n)) (push_cas y p e)
        refl refl refl
        (Global-write p (fresh i) (some n) (ground arith) (ground arith) nn (λ q. cc) g)
        (ground arith) (Frame-hidden p n (ground arith) (λ j ne. ground arith))

  pub keep_push_fail :
      (y : A) (p e : ℕ) (n : Node A)
      → m.nodes p ≡ some n
      → Global x m
      → Local x m i (push_cas y p e)
      → K x m i
          (push_cas y p e)
          none
          (record m { nodes = update m.nodes p (some (record n { next = m.head })) })
          (push_cas y p m.head)
  keep_push_fail y p e n f g l =
      let n' : Node A = record n { next = m.head } in
      let role : x.role p ≡ fresh i = l.makes.0 in
      settles x m i (retold p (fresh i)) (push_cas y p e) none (rewritten p (some n'))
        (push_cas y p m.head) refl refl refl
        (Global-write p (fresh i) (some n') (ground arith) (ground arith)
          (ground (arith, g.no_null)) (λ q. cc) g)
        (ground arith) (Frame-hidden p n' (ground arith) (λ j ne. ground arith))

  -- A write to the node that a thread is at keeps the nodes that it has still to look at.
  pub Pending-write :
      (o : Option ℕ) (a : ℕ) (r : Role) (n : Option (Node A)) (w w' : Known A)
      → Pending x m i o (some (a, w))
      → Pending (retold a r) (rewritten a n) i o (some (a, w'))
  Pending-write none a r n w w' h = tt
  Pending-write (some b) a r n w w' (ds, c, h, d, off) = (
    ds,
    write-Chain m.nodes a b null n ds off c,
    AllRole-update x.role (retired i) r a ds off h,
    d,
    off,
  )

  pub keep_write_next :
      (a e : ℕ) (t : Then) (r : Option A) (n : Node A)
      → m.nodes a ≡ some n
      → Global x m
      → Local x m i (add_write a e t r)
      → K x m i
          (add_write a e t r)
          none
          (record m { nodes = update m.nodes a (some (record n { next = e })) })
          (add_cas a e t r)
  keep_write_next a e t r n f g l =
      let n' : Node A = record n { next = e } in
      let role : x.role a ≡ retired i = l.spends.0 in
      settles x m i (retold a (retired i)) (add_write a e t r) none (rewritten a (some n'))
        (add_cas a e t r) refl refl refl
        (Global-write a (retired i) (some n') (ground arith) (ground arith)
          (ground (arith, g.no_null)) (λ q. cc) g)
        (record {
          spot = l.spot;
          uses = tt;
          makes = tt;
          stores = tt;
          protects = tt;
          reads = tt;
          spends = (ground arith, n', ground arith, refl);
          pends = Pending-write (later t) a (retired i) (some n') anything (link e) l.pends;
        })
        (Frame-retired a n' role)

  -- What a thread knows when it goes on after its node.
  resume-Local :
      (a : ℕ) (t : Then) (r : Option A) (s : Role) (n : Option (Node A))
      → ((k : ℕ) → m.hazard i ≡ some k → (m.ids k ≡ some i) × (k < max_hazard_pointers))
      → Pending x m i (later t) (some (a, anything))
      → Local (retold a s) (rewritten a n) i (resume t r)
  resume-Local a reclaim r s n spot h = ground arith
  resume-Local a (go_on b) r s n spot h =
      let (ds, c, all, d, off) = Pending-write (some b) a s n anything anything h in
      record {
        spot = spot;
        uses = tt;
        makes = tt;
        stores = tt;
        protects = tt;
        reads = tt;
        spends = tt;
        pends = (ds, c, all, d, tt);
      }

  Spared-deleted :
      (a j : ℕ) (q : Pc A)
      → Local x m j q
      → Covered (protected q) (some (a, max_hazard_pointers))
      → Spared (some a) (protected q)
  Spared-deleted a j (read_next k b) l c = ground (arith, l.spot k)
  Spared-deleted a j (pop_cas k b n) l c = ground (arith, l.spot k)
  Spared-deleted a j idle l c = tt
  Spared-deleted a j _ l c = tt

  pub keep_delete :
      (a k : ℕ) (t : Then) (r : Option A)
      → k ≡ max_hazard_pointers
      → Global x m
      → Local x m i (scan a k t r)
      → K x m i (scan a k t r) none (record m { nodes = update m.nodes a none }) (resume t r)
  keep_delete a k t r f g l =
      let role : x.role a ≡ retired i = l.spends.0 in
      keeps x m i (some a) (retold a unused) (scan a k t r) none (rewritten a none) (resume t r)
        refl
        (Global-write a unused none (ground arith) (ground arith) (ground (arith, g.no_null))
          (λ q. refl) g)
        (resume-Local a t r unused none l.spot l.pends) (Frame-deleted a role)
        (λ j q ne lj c. rw (resume-protected t r) tt)
        (λ j q ne lj c. (
          rw (resume-scanned t r) (Covered-none (protected q)),
          Spared-deleted a j q lj (subst (λ b. Covered (protected q) (some (a, b))) f c),
        ))
