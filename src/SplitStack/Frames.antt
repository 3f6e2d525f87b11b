-- ===== src/SplitStack/Frames.antt =====
-- What a step of one thread of the stack with split counts leaves as it is for the others.
use cs_learning_notes.Base.{
  ℕ, ◌≡◌, ◌≢◌, refl, ◌∙◌, Option, none, some, arith, length, ℕ_discrete, subst,
}
use cs_learning_notes.Interleaving.{Kept, After}
use cs_learning_notes.Containers.{Event, Lifo}
use cs_learning_notes.SplitStack.{
  Memory, Pc, idle, push_cas, pop_cas, pop_take, pop_merge, pop_delete, retry_delete,
}
use cs_learning_notes.SplitStack.Roles.{Role, owner, occurrences, Tally}
use cs_learning_notes.SplitStack.Invariant.{
  View, items, Global, Local, Pair, owned, Owned, Owner, Knows,
}

module _ {A : Type 0} where
  -- A step of thread `i` keeps what the others rely on.
  pub record Frame (i : ℕ) (x : View A) (m : Memory A) (x' : View A) (m' : Memory A) : Type 0 where
    pub holders : (a j : ℕ) → i ≢ j → occurrences j (x'.holders a) ≡ occurrences j (x.holders a)
    pub owners :
        (a j : ℕ)
        → i ≢ j
        → owner (x.role a) ≡ some j
        → (x'.role a ≡ x.role a) × (m'.nodes a ≡ m.nodes a)
    pub new : (a j : ℕ) → i ≢ j → owner (x'.role a) ≡ some j → owner (x.role a) ≡ some j
    pub kept : (a j : ℕ) → i ≢ j → occurrences j (x.holders a) ≡ 1 → m'.nodes a ≡ m.nodes a

  module _ {i : ℕ} {x x' : View A} {m m' : Memory A} (f : Frame i x m x' m') where
    frame-Owned : (j : ℕ) (q : Pc A) → i ≢ j → Owned x (owned j q) → Owned x' (owned j q)
    frame-Owned j (push_cas y p l) ne h = ground (arith, f.owners p j ne)
    frame-Owned j (pop_take c a y) ne h = ground (arith, f.owners a j ne)
    frame-Owned j (pop_merge c a y) ne h = ground (arith, f.owners a j ne)
    frame-Owned j (pop_delete a y) ne h = ground (arith, f.owners a j ne)
    frame-Owned j (retry_delete a l) ne h = ground (arith, f.owners a j ne)
    frame-Owned j idle ne h = tt
    frame-Owned j _ ne h = tt

    frame-Owner : (j : ℕ) (o : Option (ℕ × Role)) → i ≢ j → Owner x j o → Owner x' j o
    frame-Owner j none ne h = λ a k. h a (f.new a j ne k)
    frame-Owner j (some (b, r)) ne h = λ a k. h a (f.new a j ne k)

    frame-Knows : (j : ℕ) (q : Pc A) → i ≢ j → Local x m j q → Knows m' q
    frame-Knows j (push_cas y p l) ne h = ground (arith, f.owners p j ne, h.owns, h.knows)
    frame-Knows j (pop_cas c a l) ne h =
        let (n, e, k) = h.knows in (n, ground (arith, f.kept a j ne, h.holds a), k)
    frame-Knows j (pop_take c a y) ne h =
        let (n, e, k) = h.knows in (n, ground (arith, f.kept a j ne, h.holds a), k)
    frame-Knows j idle ne h = tt
    frame-Knows j _ ne h = tt

    pub frame-Local : (j : ℕ) → i ≢ j → (q : Pc A) → Local x m j q → Local x' m' j q
    frame-Local j ne q l = record {
      holds = λ a. f.holders a j ne ∙ l.holds a;
      owns = frame-Owned j q ne l.owns;
      only = frame-Owner j (owned j q) ne l.only;
      knows = frame-Knows j q ne l;
    }

  module _ (x : View A) (m : Memory A) (i : ℕ) where
    abbrev pub K : Pc A → Option (Event A) → Memory A → Pc A → Type 0
    K p e m' p' = Kept items Lifo Global Local Pair x m i p e m' p'

    pub keeps :
        (x' : View A) (p : Pc A) (e : Option (Event A)) (m' : Memory A) (p' : Pc A)
        → After Lifo (items x) e (items x')
        → Global x' m'
        → Local x' m' i p'
        → Frame i x m x' m'
        → K p e m' p'
    keeps x' p e m' p' f g l fr = record {
      x' = x';
      follows = f;
      global = g;
      local = l;
      others = λ j q ne lj w w'.
          (frame-Local fr j ne q lj, record { nothing = tt }, record { nothing = tt });
    }

    -- A step that leaves the memory alone.
    pub quiet : (p p' : Pc A) → Global x m → Local x m i p' → K p none m p'
    quiet p p' g l = keeps x p none m p' refl g l (record {
      holders = λ a j ne. refl;
      owners = λ a j ne e. (refl, refl);
      new = λ a j ne e. e;
      kept = λ a j ne e. refl;
    })

-- The tallies after a change at one address.
pub Tally-frame :
    {A : Type 0} (x x' : View A) (m m' : Memory A) (a : ℕ)
    → ((b : ℕ)
        → a ≢ b
        → (x'.role b ≡ x.role b)
          × (x'.holders b ≡ x.holders b)
          × (m'.internal_count b ≡ m.internal_count b))
    → Tally (x'.role a) (length (x'.holders a)) (m'.internal_count a)
    → ((b : ℕ) → Tally (x.role b) (length (x.holders b)) (m.internal_count b))
    → (b : ℕ) → Tally (x'.role b) (length (x'.holders b)) (m'.internal_count b)
Tally-frame x x' m m' a f h old b = elim (ℕ_discrete a b) [
  | yes q ↦ subst (λ t. Tally (x'.role t) (length (x'.holders t)) (m'.internal_count t)) q h
  | no ne ↦ let (r, s, t) = f b ne in rw (r, s, t) (old b)
]
