-- ===== src/TypeErasure/Outcomes.antt =====
-- cpp/c++_software_design/type_erasure/te_sbo.hpp: what becomes of variables whose objects may be in a buffer.
use cs_learning_notes.Base.{
  ℕ, ◌≡◌, ◌≢◌, ◌<◌, ◌⊎◌, inl, inr, refl, sym, subst, ℕ_discrete, Bool, true, false, Option, none,
  some, arith, update,
}
use cs_learning_notes.TypeErasure.Models.{Classes, Model, with_new, with_model, without}
use cs_learning_notes.TypeErasure.SmallBuffer.{
  in_buf, on_heap, Memory, construct, copy, move, assign, destroy, draw, swap,
}

-- An address that was free is free again.
freed :
    {X : Type 0} (f : ℕ → Option X) (p : ℕ) (a : Option X)
    → f p ≡ none
    → (x : ℕ) → update (update f p a) p none x ≡ f x
freed f p a e x = elim (ℕ_discrete p x) [
  | yes same ↦ subst (λ y. update (update f p a) p none y ≡ f y) same (ground arith)
  | no other ↦ ground arith
]

module _ {A P : Type 0} (cl : Classes A P) (fits : ℕ → Bool) where
  -- After an assignment between variables whose objects are in their buffers, whichever they are, to draw the
  -- one that was assigned to is undefined.
  pub sbo_assign_dangles :
      (m : Memory A) (v w other : ℕ) (o n : Model A)
      → v ≢ other
      → w ≢ other
      → m.pimpl_ v ≡ some (in_buf v)
      → m.buf_ v ≡ some n
      → m.pimpl_ w ≡ some (in_buf w)
      → m.buf_ w ≡ some o
      → fits o.class ≡ true
      → (m' : Memory A) × (assign cl fits v w other m ≡ some (tt, m')) × (draw cl fits v m' ≡ none)
  unfolding assign copy swap destroy draw
  sbo_assign_dangles m v w other o n ne ne' e e' f f' h =
      let b = update m.buf_ other (some o) in
      let b = update (update b v (b other)) other (b v) in
      let q = update m.pimpl_ other (some (in_buf other)) in
      let q = update (update q v (q other)) other (q v) in
      (
        record m { buf_ = update (update b v none) other none; pimpl_ = update q other none },
        ground arith,
        ground arith,
      )

  -- `v` holds `o` in its buffer, if it fits, or else on the heap.
  abbrev pub Holds : Memory A → ℕ → Model A → Type 0
  Holds m v o =
      ((fits o.class ≡ true) × (m.pimpl_ v ≡ some (in_buf v)) × (m.buf_ v ≡ some o))
      ⊎ ((fits o.class ≡ false)
          × (p : ℕ) × (m.pimpl_ v ≡ some (on_heap p))
          × (m.heap.models p ≡ some o)
          × (p < m.heap.next))

  pub draws :
      (m : Memory A) (v : ℕ) (o : Model A)
      → Holds m v o
      → draw cl fits v m ≡ some (cl.drawn o.class o.state, m)
  unfolding draw
  draws m v o (inl (f, e, b)) = ground arith
  draws m v o (inr (f, p, e, b, lt)) = ground arith

  -- The objects of two variables are not the same one on the heap.
  abbrev pub Apart : Memory A → ℕ → ℕ → Type 0
  Apart m v w = (p : ℕ) → m.pimpl_ v ≡ some (on_heap p) → m.pimpl_ w ≢ some (on_heap p)

  -- A copy holds the same object as its source, which stays, and so does every other variable.
  pub copy-Holds :
      (m : Memory A) (v w : ℕ) (o : Model A)
      → v ≢ w
      → Holds m w o
      → (m' : Memory A) × (copy cl fits v w m ≡ some (tt, m'))
        × Holds m' v o
        × Apart m' v w
        × ((x : ℕ) (k : Model A) → x ≢ v → Holds m x k → Holds m' x k)
  unfolding copy
  copy-Holds m v w o ne (inl (f, e, b)) = (
    record m { buf_ = update m.buf_ v (some o); pimpl_ = update m.pimpl_ v (some (in_buf v)) },
    ground arith,
    inl (f, ground arith, ground arith),
    λ p a b. ground arith,
    λ x k z h. ground arith,
  )
  copy-Holds m v w o ne (inr (f, p, e, b, lt)) = (
    record m { heap = with_new o m.heap; pimpl_ = update m.pimpl_ v (some (on_heap m.heap.next)) },
    ground arith,
    inr (f, m.heap.next, ground arith, ground arith, omega arith),
    λ q a b. ground arith,
    λ x k z h. stays x k z h,
  )
    where
      stays :
          (x : ℕ) (k : Model A)
          → x ≢ v
          → Holds m x k
          → Holds
              (record m {
                heap = with_new o m.heap;
                pimpl_ = update m.pimpl_ v (some (on_heap m.heap.next));
              })
              x
              k
      stays x k z (inl h) = ground arith
      stays x k z (inr (g, q, u, c, below)) = inr (g, q, ground arith, ground arith, omega arith)

  -- To destroy a variable leaves another, with an object of its own, as it was.
  pub destroy-Holds :
      (m : Memory A) (v w : ℕ) (o k : Model A)
      → v ≢ w
      → Apart m v w
      → Holds m v o
      → Holds m w k
      → (m' : Memory A) × (destroy cl fits v m ≡ some (tt, m')) × Holds m' w k
  unfolding destroy
  destroy-Holds m v w o k ne ap' (inl (f, e, b)) h = (
    record m { buf_ = update (update m.buf_ v none) v none; pimpl_ = update m.pimpl_ v none },
    ground arith,
    ground arith,
  )
  destroy-Holds m v w o k ne ap' (inr (f, p, e, b, lt)) h = (
    record m {
      heap = without p m.heap;
      buf_ = update m.buf_ v none;
      pimpl_ = update m.pimpl_ v none;
    },
    ground arith,
    kept h,
  )
    where
      kept :
          Holds m w k
          → Holds
              (record m {
                heap = without p m.heap;
                buf_ = update m.buf_ v none;
                pimpl_ = update m.pimpl_ v none;
              })
              w
              k
      kept (inl z) = ground arith
      kept (inr (g, q, u, c, below)) = inr (g, q, ground arith, ground (arith, ap' p e), below)

  -- A copy holds the object of its source in its own buffer or in a new place, so that either draws the
  -- object still when the other is destroyed.
  pub sbo_copy_stands :
      (m : Memory A) (v w : ℕ) (o : Model A)
      → v ≢ w
      → Holds m w o
      → (m' m1 m2 : Memory A) × (copy cl fits v w m ≡ some (tt, m'))
        × (destroy cl fits w m' ≡ some (tt, m1))
        × (draw cl fits v m1 ≡ some (cl.drawn o.class o.state, m1))
        × (destroy cl fits v m' ≡ some (tt, m2))
        × (draw cl fits w m2 ≡ some (cl.drawn o.class o.state, m2))
  sbo_copy_stands m v w o ne h =
      let (m', c, hv, apart, others) = copy-Holds m v w o ne h in
      let hw : Holds m' w o = others w o (λ z. ne (sym z)) h in
      let (m1, d1, k1) = destroy-Holds m' w v o o (λ z. ne (sym z)) (λ p a b. apart p b a) hw hv in
      let (m2, d2, k2) = destroy-Holds m' v w o o ne apart hv hw in
      (m', m1, m2, c, d1, draws m1 v o k1, d2, draws m2 w o k2)

  -- A move constructor leaves the object to the new variable, and in the source what a move leaves.
  pub sbo_move_draws :
      (m : Memory A) (v w : ℕ) (o : Model A)
      → v ≢ w
      → Holds m w o
      → (m' : Memory A) × (move cl fits v w m ≡ some (tt, m'))
        × (draw cl fits v m' ≡ some (cl.drawn o.class o.state, m'))
        × (draw cl fits w m' ≡ some (cl.drawn o.class (cl.moved_from o.class o.state), m'))
  unfolding move draw
  sbo_move_draws m v w o ne (inl (f, e, b)) =
      let left = record o { state = cl.moved_from o.class o.state } in
      (
        record m {
          buf_ = update (update m.buf_ v (some o)) w (some left);
          pimpl_ = update m.pimpl_ v (some (in_buf v));
        },
        ground arith,
        ground arith,
        ground arith,
      )
  sbo_move_draws m v w o ne (inr (f, p, e, b, lt)) =
      let left = record o { state = cl.moved_from o.class o.state } in
      (
        record m {
          heap = with_model p left (with_new o m.heap);
          pimpl_ = update m.pimpl_ v (some (on_heap m.heap.next));
        },
        ground arith,
        ground arith,
        ground arith,
      )

  -- A variable that is constructed draws its object, and when it is destroyed the buffers, the pointers and the
  -- heap are as they were.
  pub sbo_construct_destroy :
      (m : Memory A) (v : ℕ) (o : Model A)
      → m.buf_ v ≡ none
      → m.pimpl_ v ≡ none
      → m.heap.models m.heap.next ≡ none
      → (m' m'' : Memory A) × (construct cl fits v o m ≡ some (tt, m'))
        × (draw cl fits v m' ≡ some (cl.drawn o.class o.state, m'))
        × (destroy cl fits v m' ≡ some (tt, m''))
        × ((x : ℕ)
            → (m''.buf_ x ≡ m.buf_ x)
              × (m''.pimpl_ x ≡ m.pimpl_ x)
              × (m''.heap.models x ≡ m.heap.models x))
  unfolding construct draw destroy
  sbo_construct_destroy m v o b e free = go (fits o.class) refl
    where
      Made : Type 0
      Made =
          (m' m'' : Memory A) × (construct cl fits v o m ≡ some (tt, m'))
          × (draw cl fits v m' ≡ some (cl.drawn o.class o.state, m'))
          × (destroy cl fits v m' ≡ some (tt, m''))
          × ((x : ℕ)
              → (m''.buf_ x ≡ m.buf_ x)
                × (m''.pimpl_ x ≡ m.pimpl_ x)
                × (m''.heap.models x ≡ m.heap.models x))

      go : (k : Bool) → fits o.class ≡ k → Made
      go true f =
          let bufs = update m.buf_ v (some o) in
          let ptrs = update m.pimpl_ v (some (in_buf v)) in
          (
            record m { buf_ = bufs; pimpl_ = ptrs },
            record m { buf_ = update (update bufs v none) v none; pimpl_ = update ptrs v none },
            ground arith,
            ground arith,
            ground arith,
            λ x. (ground arith, ground arith, refl),
          )
      go false f =
          let ptrs = update m.pimpl_ v (some (on_heap m.heap.next)) in
          let h = with_new o m.heap in
          (
            record m { heap = h; pimpl_ = ptrs },
            record m {
              heap = without m.heap.next h;
              buf_ = update m.buf_ v none;
              pimpl_ = update ptrs v none;
            },
            ground arith,
            ground arith,
            ground arith,
            λ x. (ground arith, ground arith, freed m.heap.models m.heap.next (some o) free x),
          )
