-- ===== src/MpmcQueue/Frames.antt =====
-- What a step of one thread of the multi-producer queue leaves as it is for the others.
use cs_learning_notes.Base.{ℕ, ◌≡◌, ◌≢◌, ◌⊎◌, refl, sym, ◌∙◌, Option, none, some, Bool, true}
use cs_learning_notes.Interleaving.{Kept, After}
use cs_learning_notes.Containers.{Event, Fifo}
use cs_learning_notes.MpmcQueue.{Node, Memory, Pc, null, blank}
use cs_learning_notes.MpmcQueue.Roles.{spare, past, shown}
use cs_learning_notes.MpmcQueue.Invariant.{
  View, items, Global, Local, Pair, Front, Made, Visited, Filled, Linked, Popping, Taken, made,
  visited, filled, linked, popping, taken,
}

module _ {A : Type 0} where
  -- A node gets its item once, and its `next` once.
  abbrev pub Grows : Node A → Node A → Type 0
  Grows n n' = (n.item ≢ none → n'.item ≡ n.item) × (n.next ≢ null → n'.next ≡ n.next)

  -- A step of thread `i` keeps what the others rely on.
  pub record Frame (i : ℕ) (x : View A) (m : Memory A) (x' : View A) (m' : Memory A) : Type 0 where
    pub grows :
        (a : ℕ) (n : Node A)
        → m.nodes a ≡ some n
        → (n' : Node A) × (m'.nodes a ≡ some n') × Grows n n'
    pub spares :
        (a j : ℕ)
        → i ≢ j
        → x.role a ≡ spare j
        → m.nodes a ≡ some blank
        → (x'.role a ≡ spare j) × (m'.nodes a ≡ some blank)
    pub shows : (a : ℕ) → shown (x.role a) ≡ true → shown (x'.role a) ≡ true
    pub front :
        (a : ℕ) (b : Bool)
        → (x.role a ≡ past) ⊎ ((a ≡ m.head) × Front m b)
        → (x'.role a ≡ past) ⊎ ((a ≡ m'.head) × Front m' b)

  module _ {i : ℕ} {x x' : View A} {m m' : Memory A} (f : Frame i x m x' m') where
    frame-Made : (j : ℕ) → i ≢ j → (o : Option ℕ) → Made x m j o → Made x' m' j o
    frame-Made j ne none h = tt
    frame-Made j ne (some p) (r, e) = f.spares p j ne r e

    pub frame-Visited : (j : ℕ) (o : Option ℕ) → Visited x m j o → Visited x' m' j o
    frame-Visited j none h = tt
    frame-Visited j (some t) h = f.shows t h

    pub frame-Filled : (j : ℕ) (o : Option ℕ) → Filled x m j o → Filled x' m' j o
    frame-Filled j none h = tt
    frame-Filled j (some t) (n, e, c) =
        let (n', e', (same, _)) = f.grows t n e in (n', e', λ q. c (sym (same c) ∙ q))

    pub frame-Linked : (j : ℕ) (o : Option (ℕ × ℕ)) → Linked x m j o → Linked x' m' j o
    frame-Linked j none h = tt
    frame-Linked j (some (t, q)) (n, e, l, nn) =
        let (n', e', (_, same)) = f.grows t n e in (n', e', same (λ z. nn (sym l ∙ z)) ∙ l, nn)

    frame-Popping : (j : ℕ) (o : Option (ℕ × Bool)) → Popping x m j o → Popping x' m' j o
    frame-Popping j none h = tt
    frame-Popping j (some (a, b)) h = f.front a b h

    frame-Taken : (j : ℕ) (o : Option (ℕ × A)) → Taken x m j o → Taken x' m' j o
    frame-Taken j none h = tt
    frame-Taken j (some (a, y)) (n, e, c) =
        let (n', e', (same, _)) = f.grows a n e in (n', e', same (λ z. cc) ∙ c)

    pub frame-Local : (j : ℕ) → i ≢ j → (q : Pc A) → Local x m j q → Local x' m' j q
    frame-Local j ne q l = record {
      makes = frame-Made j ne (made q) l.makes;
      visits = frame-Visited j (visited q) l.visits;
      fills = frame-Filled j (filled q) l.fills;
      links = frame-Linked j (linked q) l.links;
      pops = frame-Popping j (popping q) l.pops;
      takes = frame-Taken j (taken q) l.takes;
    }

  module _ (x : View A) (m : Memory A) (i : ℕ) where
    abbrev pub K : Pc A → Option (Event A) → Memory A → Pc A → Type 0
    K p e m' p' = Kept items Fifo Global Local Pair x m i p e m' p'

    pub keeps :
        (x' : View A) (p : Pc A) (e : Option (Event A)) (m' : Memory A) (p' : Pc A)
        → After Fifo (items x) e (items x')
        → Global x' m'
        → Local x' m' i p'
        → Frame i x m x' m'
        → K p e m' p'
    keeps x' p e m' p' f g l fr = record {
      x' = x';
      follows = f;
      global = g;
      local = l;
      others = λ j q ne lj w w'.
          (frame-Local fr j ne q lj, record { nothing = tt }, record { nothing = tt });
    }

    -- A step that leaves the memory alone.
    pub quiet :
        (p : Pc A) (e : Option (Event A)) (p' : Pc A)
        → After Fifo (items x) e (items x)
        → Global x m
        → Local x m i p'
        → K p e m p'
    quiet p e p' f g l = keeps x p e m p' f g l (record {
      grows = λ a n e. (n, e, ((λ z. refl), (λ z. refl)));
      spares = λ a j ne r e. (r, e);
      shows = λ a s. s;
      front = λ a b h. h;
    })
