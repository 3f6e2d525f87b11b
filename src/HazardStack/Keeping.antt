-- ===== src/HazardStack/Keeping.antt =====
-- What a step of the hazard-pointer stack has to show, in the forms that the steps take.
use cs_learning_notes.Base.{ℕ, ◌≡◌, ◌≢◌, refl, Option, none, some}
use cs_learning_notes.Interleaving.{Kept, After}
use cs_learning_notes.Containers.{Event, Lifo}
use cs_learning_notes.HazardStack.{Memory, Pc}
use cs_learning_notes.HazardStack.Invariant.{
  View, items, Global, Local, Pair, Covered, protected, scanned,
}
use cs_learning_notes.HazardStack.Frames.{Spared, Frame, frame-Local}

pub Covered-none : (o : Option (ℕ × ℕ)) → Covered o none
Covered-none none = tt
Covered-none (some (k, a)) = tt

module _ {A : Type 0} (x : View A) (m : Memory A) (i : ℕ) where
  abbrev pub K : Pc A → Option (Event A) → Memory A → Pc A → Type 0
  K p e m' p' = Kept items Lifo Global Local Pair x m i p e m' p'

  pub keeps :
      (freed : Option ℕ) (x' : View A) (p : Pc A) (e : Option (Event A)) (m' : Memory A) (p' : Pc A)
      → After Lifo (items x) e (items x')
      → Global x' m'
      → Local x' m' i p'
      → Frame i freed x m x' m'
      → ((j : ℕ) (q : Pc A)
          → i ≢ j
          → Local x m j q
          → Covered (protected p) (scanned q)
          → Covered (protected p') (scanned q))
      → ((j : ℕ) (q : Pc A)
          → i ≢ j
          → Local x m j q
          → Covered (protected q) (scanned p)
          → Covered (protected q) (scanned p') × Spared freed (protected q))
      → K p e m' p'
  keeps freed x' p e m' p' f g l fr shield probe = record {
    x' = x';
    follows = f;
    global = g;
    local = l;
    others = λ j q ne lj w w'.
        let (c, s) = probe j q ne lj w'.covered in
        (
          frame-Local fr ne q s lj,
          record { covered = shield j q ne lj w.covered },
          record { covered = c },
        );
  }

  -- A thread that neither protects nor scans after its step.
  pub settles :
      (x' : View A) (p : Pc A) (e : Option (Event A)) (m' : Memory A) (p' : Pc A)
      → protected p' ≡ none
      → scanned p' ≡ none
      → After Lifo (items x) e (items x')
      → Global x' m'
      → Local x' m' i p'
      → Frame i none x m x' m'
      → K p e m' p'
  settles x' p e m' p' np ns f g l fr =
      keeps none x' p e m' p' f g l fr (λ j q ne lj c. rw np tt)
        (λ j q ne lj c. (rw ns (Covered-none (protected q)), tt))

  pub Frame-refl : Frame i none x m x m
  Frame-refl = record {
    ids = λ k j ne e. e;
    ptrs = λ k j ne e. refl;
    hazard = λ j ne. refl;
    held = λ a j ne h. (refl, refl);
    seen = λ a n al s e. (s, n, e);
    same = λ a n al s h. h;
  }
