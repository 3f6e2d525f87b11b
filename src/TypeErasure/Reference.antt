-- ===== src/TypeErasure/Reference.antt =====
-- cpp/c++_software_design/type_erasure/te_ref.hpp: `ShapeConstRef`, which owns nothing; it points to a
-- shape and to a drawer of somebody else.
use cs_learning_notes.Base.{
  ℕ, ◌<◌, ◌≡◌, Option-cases, inl, inr, Option, none, some, List, [], ◌∷◌, ◌==◌, if◌then◌else◌,
  arith,
}
use cs_learning_notes.Base.Cmd.{Cmd, pure, ◌>>=◌, ◌>>◌, defined}
use cs_learning_notes.TypeErasure.Models.{Model, Heap, load, new_model, with_model, delete_model}
use cs_learning_notes.TypeErasure.FunctionPointers.{static_cast}

pub record ShapeConstRef (A P : Type 0) : Type 0 where
  pub shape_ : ℕ
  pub drawer_ : ℕ
  pub draw_ : ℕ → ℕ → Cmd (Heap A) P

-- `drawn d y s x`: what a drawer of the class `d` in the state `y` draws of a shape of the class `s` in
-- the state `x`.
module _ {A P : Type 0} (drawn : ℕ → A → ℕ → A → P) where
  -- The lambda expression in the constructor, for a `ShapeT` and a `DrawStrategy`.
  draw_as : ℕ → ℕ → ℕ → ℕ → Cmd (Heap A) P
  unfolding static_cast
  draw_as s d shape_bytes drawer_bytes = do
    drawer ← static_cast d drawer_bytes
    shape ← static_cast s shape_bytes
    pure (drawn d drawer.state s shape.state)

  -- The constructor, of a shape of the class `s` at `p` and a drawer of the class `d` at `q`
  unfoldable pub construct : ℕ → ℕ → ℕ → ℕ → ShapeConstRef A P
  unfolding draw_as
  construct s d p q = record { shape_ = p; drawer_ = q; draw_ = draw_as s d }

-- `draw`
unfoldable pub draw : {A P : Type 0} → ShapeConstRef A P → Cmd (Heap A) P
draw r = r.draw_ r.shape_ r.drawer_

-- What the owners of the objects do meanwhile.
pub data Edit (A : Type 0) : Type 0 where
  assign : (p : ℕ) (a : A) → Edit A
  destroy : (p : ℕ) → Edit A
  create : (c : ℕ) (a : A) → Edit A

abbrev pub edit : {A : Type 0} → Edit A → Cmd (Heap A) (Unit {0})
edit (assign p a) = do o ← load p; λ h. some (tt, with_model p (record o { state = a }) h)
edit (destroy p) = delete_model p
edit (create c a) = do p ← new_model (record { class = c; state = a }); pure tt

abbrev pub edits : {A : Type 0} → List (Edit A) → Cmd (Heap A) (Unit {0})
edits [] = pure tt
edits (e ∷ es) = edit e >> edits es

-- What becomes of the state of the object at `p`, while it is alive.
abbrev pub edited : {A : Type 0} → ℕ → Option A → Edit A → Option A
edited p none e = none
edited p (some a) (assign q b) = if p == q then some b else some a
edited p (some a) (destroy q) = if p == q then none else some a
edited p (some a) (create c b) = some a

abbrev pub state_after : {A : Type 0} → ℕ → Option A → List (Edit A) → Option A
state_after p v [] = v
state_after p v (e ∷ es) = state_after p (edited p v e) es

abbrev pub object : {A : Type 0} → ℕ → Option A → Option (Model A)
object c none = none
object c (some a) = some (record { class = c; state = a })

edit-object :
    {A : Type 0} (c p : ℕ) (e : Edit A) (v : Option A) (h h' : Heap A)
    → p < h.next
    → h.models p ≡ object c v
    → edit e h ≡ some (tt, h')
    → (p < h'.next) × (h'.models p ≡ object c (edited p v e))
edit-object c p (assign q b) none h h' lt e r = ground arith
edit-object c p (assign q b) (some a) h h' lt e r = ground arith
edit-object c p (destroy q) none h h' lt e r = ground arith
edit-object c p (destroy q) (some a) h h' lt e r = ground arith
edit-object c p (create k b) none h h' lt e r = ground arith
edit-object c p (create k b) (some a) h h' lt e r = ground arith

edits-object :
    {A : Type 0} (c p : ℕ) (es : List (Edit A)) (v : Option A) (h h' : Heap A)
    → p < h.next
    → h.models p ≡ object c v
    → edits es h ≡ some (tt, h')
    → h'.models p ≡ object c (state_after p v es)
edits-object c p [] v h h' lt e r = ground arith
edits-object {A} c p (d ∷ es) v h h' lt e r = elim (Option-cases (edit d h)) [
  | inl bad ↦ absurd (no_run bad)
  | inr (u, ran) ↦
      let (lt', e') = edit-object c p d v h u.1 lt e ran in
      edits-object c p es (edited p v d) u.1 h' lt' e' (rw (ran, ◌>>=◌) at r)
]
  where
    no_run : edit d h ≡ none → ⊥
    no_run bad = cc

-- A ShapeConstRef draws its shape and its drawer as they are now, whatever was done to them and to other
-- objects since it was made, and to draw it is undefined as soon as either is destroyed.
pub ref_draws_present :
    {A P : Type 0} (drawn : ℕ → A → ℕ → A → P) (s d p q : ℕ) (x y : A) (es : List (Edit A))
    (h h' : Heap A)
    → p < h.next
    → q < h.next
    → h.models p ≡ some (record { class = s; state = x })
    → h.models q ≡ some (record { class = d; state = y })
    → edits es h ≡ some (tt, h')
    → draw (construct drawn s d p q) h'
      ≡ (do
        y' ← defined (state_after q (some y) es)
        x' ← defined (state_after p (some x) es)
        pure (drawn d y' s x'))
          h'
unfolding draw construct
ref_draws_present drawn s d p q x y es h h' lp lq ep eq r =
    let xs = edits-object s p es (some x) h h' lp ep r in
    let ys = edits-object d q es (some y) h h' lq eq r in ground arith
