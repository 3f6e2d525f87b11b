-- ===== src/QueueNode/Draining.antt =====
-- The destructors of the queues, which free a chain of nodes from its head on: what a loop does that
-- takes one node at a time.
use cs_learning_notes.Base.{
  ℕ, zero, suc, ◌<◌, ◌≡◌, refl, sym, ◌∙◌, ◌≢◌, ap, subst, Option, none, some, List, [], ◌∷◌, length,
  arith, update, update_ne,
}
use mathlib.Core.Path.{fun_ext}
use cs_learning_notes.Base.Cmd.{Cmd, collect}
use cs_learning_notes.Chain.{Cell, Chain, Distinct, Outside, values}
use cs_learning_notes.QueueNode.{Heap, Node, Points, delete-Free, write-Chain}

pub update_twice :
    {A : Type 0} (h : Heap A) (a : ℕ) (o : Option (Node A))
    → update (update h a o) a none ≡ update h a none
update_twice h a o = fun_ext (λ b. ground arith)

-- What one round takes off a queue.
pub record Takes {A : Type 0} (h : Heap A) (head r : ℕ) (h' : Heap A) (head' : ℕ) : Type 0 where
  pub next : head' ≡ r
  pub freed : h' ≡ update h head none

module _ {S A : Type 0} (head tail : S → ℕ) (nodes : S → Heap A) (round : Cmd S (Option A))
    (at_end : (s : S) → head s ≡ tail s → round s ≡ some (none, s))
    (more : (s : S) (x : A) (r : ℕ)
      → head s ≢ tail s
      → Points (nodes s) (head s) x r
      → (s' : S) × (round s ≡ some (some x, s'))
        × (tail s' ≡ tail s)
        × Takes (nodes s) (head s) r (nodes s') (head s')) where
  -- What the loop leaves of the chain `cs`.
  pub record Drained (s : S) (cs : List (Cell A)) (fuel : ℕ) : Type 0 where
    pub end : S
    pub runs : collect fuel round s ≡ some (values cs, end)
    pub ends : head end ≡ tail s
    pub same : (a : ℕ) → Outside a cs → nodes end a ≡ nodes s a
    pub freed : (a : ℕ) → (Outside a cs → nodes s a ≡ none) → nodes end a ≡ none

  pub drained :
      (cs : List (Cell A)) (s : S) (fuel : ℕ)
      → length (values cs) < fuel
      → Distinct cs
      → Outside (tail s) cs
      → Chain (Points (nodes s)) (head s) cs (tail s)
      → Drained s cs fuel
  unfolding collect
  drained cs s zero h d o c = absurd (omega arith)
  drained [] s (suc fuel) h d o c = record {
    end = s;
    runs = rw (at_end s c, collect) refl;
    ends = c;
    same = λ a o. refl;
    freed = λ a f. f tt;
  }
  drained ((b, x) ∷ cs) s (suc fuel) h d o c =
      let (s', e, et, t) =
        more s x c.1 (λ z. o.0 (sym z ∙ c.0))
          (subst (λ a. Points (nodes s) a x c.1) (sym c.0) c.2) in
      let eq : nodes s' ≡ update (nodes s) b none =
        t.freed ∙ ap (λ a. update (nodes s) a none) c.0 in
      let rest = write-Chain (nodes s) b c.1 (tail s) none cs d.0 c.3 in
      let ih =
        drained cs s' fuel (omega arith) d.1 (subst (λ a. Outside a cs) (sym et) o.1)
          (rw (eq, t.next, et) rest) in
      record {
        end = ih.end;
        runs = rw (e, collect, ih.runs) refl;
        ends = ih.ends ∙ et;
        same = λ a o'.
            ih.same a o'.1 ∙ (ap (λ h. h a) eq) ∙ update_ne (nodes s) b none a (λ z. o'.0 (sym z));
        freed = λ a f.
            ih.freed a (λ o'. ap (λ h. h a) eq ∙ delete-Free (nodes s) a b (λ ne. f (ne, o')));
      }
