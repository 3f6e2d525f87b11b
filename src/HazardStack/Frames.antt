-- ===== src/HazardStack/Frames.antt =====
-- What a step of one thread of the hazard-pointer stack leaves as it is for the others.
use cs_learning_notes.Base.{
  ℕ, ◌≡◌, ◌≢◌, ◌⊎◌, inl, inr, sym, ◌∙◌, [], ◌∷◌, Option, none, some, List, true,
}
use cs_learning_notes.Chain.{Cell, Chain}
use cs_learning_notes.StackNode.{Node, null, Points}
use cs_learning_notes.HazardStack.{Memory, Pc, idle, pop_cas}
use cs_learning_notes.Chain.Labels.{AllRole, AllRole-frame}
use cs_learning_notes.HazardStack.Roles.{on_stack, retired, shown, Holds}
use cs_learning_notes.HazardStack.Invariant.{
  View, Uses, Made, Stored, Protects, Read, Known, Spent, Pending, Local, protected, made, stored,
  read, spent, pending, used,
}

-- No hazard pointer protects the node that a step deletes, where it deletes one.
abbrev pub Spared : Option ℕ → Option (ℕ × ℕ) → Type 0
Spared none q = Unit {0}
Spared (some b) none = Unit {0}
Spared (some b) (some (k, a)) = a ≢ b

abbrev pub Alive : Option ℕ → ℕ → Type 0
Alive none a = Unit {0}
Alive (some b) a = a ≢ b

Spared-Alive : (freed : Option ℕ) (k a : ℕ) → Spared freed (some (k, a)) → Alive freed a
Spared-Alive none k a s = tt
Spared-Alive (some b) k a s = s

module _ {A : Type 0} where
  -- A step of thread `i` that deletes the node `freed`, where it deletes one, keeps what the others rely on.
  pub record Frame (i : ℕ) (freed : Option ℕ) (x : View A) (m : Memory A) (x' : View A)
      (m' : Memory A) : Type 0 where
    pub ids : (k j : ℕ) → i ≢ j → m.ids k ≡ some j → m'.ids k ≡ some j
    pub ptrs : (k j : ℕ) → i ≢ j → m.ids k ≡ some j → m'.ptrs k ≡ m.ptrs k
    pub hazard : (j : ℕ) → i ≢ j → m'.hazard j ≡ m.hazard j
    pub held :
        (a j : ℕ) → i ≢ j → Holds j (x.role a) → (x'.role a ≡ x.role a) × (m'.nodes a ≡ m.nodes a)
    pub seen :
        (a : ℕ) (n : Node A)
        → Alive freed a
        → shown (x.role a) ≡ true
        → m.nodes a ≡ some n
        → (shown (x'.role a) ≡ true) × (n' : Node A) × (m'.nodes a ≡ some n')
    pub same :
        (a : ℕ) (n : Node A)
        → Alive freed a
        → shown (x.role a) ≡ true
        → (m.nodes a ≡ some n) ⊎ (x.role a ≢ on_stack)
        → (m'.nodes a ≡ some n) ⊎ (x'.role a ≢ on_stack)

  module _ {i j : ℕ} {freed : Option ℕ} {x x' : View A} {m m' : Memory A}
      (f : Frame i freed x m x' m') (ne : i ≢ j) where
    frame-Uses : (o : Option ℕ) → Uses x m j o → Uses x' m' j o
    frame-Uses none h = tt
    frame-Uses (some k) h = f.hazard j ne ∙ h

    frame-Made : (o : Option (ℕ × Node A)) → Made x m j o → Made x' m' j o
    frame-Made none h = tt
    frame-Made (some (a, n)) h = let (r, k) = f.held a j ne (inl h.0) in (r ∙ h.0, k ∙ h.1)

    frame-Stored :
        (o : Option (ℕ × ℕ))
        → ((k : ℕ) → m.hazard j ≡ some k → m.ids k ≡ some j)
        → Stored x m j o
        → Stored x' m' j o
    frame-Stored none s h = tt
    frame-Stored (some (k, a)) s h = (f.ptrs k j ne (s k h.1) ∙ h.0, f.hazard j ne ∙ h.1)

    frame-Protects : (o : Option (ℕ × ℕ)) → Spared freed o → Protects x m j o → Protects x' m' j o
    frame-Protects none s h = tt
    frame-Protects (some (k, a)) s (sh, n, e) = f.seen a n (Spared-Alive freed k a s) sh e

    frame-Spent : (o : Option (ℕ × Known A)) → Spent x m j o → Spent x' m' j o
    frame-Spent none h = tt
    frame-Spent (some (a, w)) (r, n, e, k) =
        let (r', e') = f.held a j ne (inr r) in (r' ∙ r, n, e' ∙ e, k)

    frame-Chain :
        (b : ℕ) (ds : List (Cell A))
        → AllRole x.role (retired j) ds
        → Chain (Points m.nodes) b ds null
        → Chain (Points m'.nodes) b ds null
    frame-Chain b [] h c = c
    frame-Chain b ((a, y) ∷ ds) h c =
        (c.0, c.1, (f.held a j ne (inr h.0)).1 ∙ c.2, frame-Chain c.1 ds h.1 c.3)

    frame-Pending :
        (o : Option ℕ) (w : Option (ℕ × Known A)) → Pending x m j o w → Pending x' m' j o w
    frame-Pending none w h = tt
    frame-Pending (some b) w (ds, c, r, d, o) = (
      ds,
      frame-Chain b ds r c,
      AllRole-frame x.role x'.role (retired j) ds (λ a e. (f.held a j ne (inr e)).0 ∙ e) r,
      d,
      o,
    )

    frame-Read :
        (q : Pc A)
        → Spared freed (protected q)
        → Protects x m j (protected q)
        → Read x m j (read q)
        → Read x' m' j (read q)
    frame-Read (pop_cas k a n) s (sh, n', e) h = f.same a n (Spared-Alive freed k a s) sh h
    frame-Read idle s p h = tt
    frame-Read _ s p h = tt

    pub frame-Local : (q : Pc A) → Spared freed (protected q) → Local x m j q → Local x' m' j q
    frame-Local q s l = record {
      spot = λ k e.
          let old : m.hazard j ≡ some k = sym (f.hazard j ne) ∙ e in
          let (own, below) = l.spot k old in (f.ids k j ne own, below);
      uses = frame-Uses (used q) l.uses;
      makes = frame-Made (made q) l.makes;
      stores = frame-Stored (stored q) (λ k e. (l.spot k e).0) l.stores;
      protects = frame-Protects (protected q) s l.protects;
      reads = frame-Read q s l.protects l.reads;
      spends = frame-Spent (spent q) l.spends;
      pends = frame-Pending (pending q) (spent q) l.pends;
    }
