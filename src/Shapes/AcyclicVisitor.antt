-- ===== src/Shapes/AcyclicVisitor.antt =====
-- cpp/c++_software_design/visitor/acyclic_visitor.cpp: shapes that ask a visitor whether it can visit
-- their class.
use cs_learning_notes.Base.{Option, none, some}
use cs_learning_notes.Shapes.Graphics.{Graphics, Request, a_circle, a_square}

-- How a class derives from a base class.
pub data Access : Type 0 where
  public_base private_base : Access

-- An object that is an `AbstractVisitor`, with its bases `Visitor<Circle>` and `Visitor<Square>`, where
-- it has them: how it derives from them and what their `visit` does.
pub record AbstractVisitor (Number Canvas : Type 0) : Type 0 where
  pub access : Access
  pub circle_visitor : Option (Access × (Number → Canvas → Canvas))
  pub square_visitor : Option (Access × (Number → Canvas → Canvas))

-- A shape is what its `accept` does.
pub record Shape (Number Canvas : Type 0) : Type 0 where
  pub accept : AbstractVisitor Number Canvas → Canvas → Canvas

module _ {Number Canvas : Type 0} where
  -- `dynamic_cast` from one base to another, which needs both to be public.
  abbrev pub cast :
      Access → Option (Access × (Number → Canvas → Canvas)) → Option (Number → Canvas → Canvas)
  cast public_base (some (public_base, visit)) = some visit
  cast _ _ = none

  -- `if (auto const* cv = …) cv->visit(*this);`
  abbrev pub visit_if : Option (Number → Canvas → Canvas) → Number → Canvas → Canvas
  visit_if none r c = c
  visit_if (some visit) r c = visit r c

  unfoldable pub make : Request Number → Shape Number Canvas
  make (a_circle r) = record { accept = λ v. visit_if (cast v.access v.circle_visitor) r }
  make (a_square s) = record { accept = λ v. visit_if (cast v.access v.square_visitor) s }

  -- `Draw`, as declared: its bases are private.
  unfoldable pub draw : Graphics Number Canvas → AbstractVisitor Number Canvas
  draw lib = record {
    access = private_base;
    circle_visitor = some (private_base, lib.circle);
    square_visitor = some (private_base, lib.square);
  }
