-- ===== src/SplitStack/Links.antt =====
-- The nodes of the stack with split counts, as a list of their addresses and data.
use cs_learning_notes.Base.{
  ℕ, ◌≡◌, ◌≢◌, refl, sym, ◌∙◌, subst, Option, none, some, List, [], ◌∷◌, arith,
}
use cs_learning_notes.Chain.{Cell, Outside}
use cs_learning_notes.SplitStack.{CountedNodePtr, Node, null}
use cs_learning_notes.SplitStack.Roles.{Role, stacked}

-- From a pointer to a null pointer; each pointer has the external count of its node.
abbrev pub Links :
    {A : Type 0} → (ℕ → Role) → (ℕ → Option (Node A)) → CountedNodePtr → List (Cell A) → Type 0
Links role h l [] = l.ptr ≡ null
Links {A} role h l ((a, x) ∷ cs) =
    (l.ptr ≡ a)
    × (role a ≡ stacked l.external_count)
    × (n : Node A) × (h a ≡ some n)
    × (n.data_ ≡ x)
    × Links role h n.next cs

module _ {A : Type 0} (role : ℕ → Role) (h : ℕ → Option (Node A)) where
  -- A change at one address keeps the links that it is outside of.
  pub Links-frame :
      (role' : ℕ → Role) (h' : ℕ → Option (Node A)) (a : ℕ) (l : CountedNodePtr)
      (cs : List (Cell A))
      → ((b : ℕ) → a ≢ b → (role' b ≡ role b) × (h' b ≡ h b))
      → Outside a cs
      → Links role h l cs
      → Links role' h' l cs
  Links-frame role' h' a l [] f o c = c
  Links-frame role' h' a l ((b, x) ∷ cs) f o (e, r, n, p, d, rest) =
      let (fr, fh) = f b o.0 in
      (e, fr ∙ r, n, fh ∙ p, d, Links-frame role' h' a n.next cs f o.1 rest)

  -- Outside are the addresses that are not of the stack.
  pub Links-Outside :
      (a : ℕ) (l : CountedNodePtr) (cs : List (Cell A))
      → ((c : ℕ) → role a ≢ stacked c)
      → Links role h l cs
      → Outside a cs
  Links-Outside a l [] ne c = tt
  Links-Outside a l ((b, x) ∷ cs) ne (e, r, n, p, d, rest) = (
    λ q. ne l.external_count (subst (λ t. role t ≡ stacked l.external_count) (sym q) r),
    Links-Outside a n.next cs ne rest,
  )

  pub Links-cons :
      (l : CountedNodePtr) (cs : List (Cell A))
      → l.ptr ≢ null
      → Links role h l cs
      → (x : A) × (ds : List (Cell A)) × (n : Node A) × (cs ≡ (l.ptr, x) ∷ ds)
        × (role l.ptr ≡ stacked l.external_count)
        × (h l.ptr ≡ some n)
        × (n.data_ ≡ x)
        × Links role h n.next ds
  Links-cons l [] ne c = absurd (ne c)
  Links-cons l ((a, x) ∷ cs) ne (e, r, n, p, d, rest) = (
    x,
    cs,
    n,
    (λ i. (sym e i, x) ∷ cs),
    subst (λ t. role t ≡ stacked l.external_count) (sym e) r,
    subst (λ t. h t ≡ some n) (sym e) p,
    d,
    rest,
  )

  pub Links-nil :
      (l : CountedNodePtr) (cs : List (Cell A))
      → l.ptr ≡ null
      → h null ≡ none
      → Links role h l cs
      → cs ≡ []
  Links-nil l [] e f c = refl
  Links-nil l ((a, x) ∷ cs) e f (q, r, n, p, d, rest) = absurd (ground arith)
