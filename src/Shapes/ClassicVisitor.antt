-- ===== src/Shapes/ClassicVisitor.antt =====
-- cpp/c++_software_design/visitor/classic_visitor.cpp: shapes that accept a visitor of both classes.
use cs_learning_notes.Base.{List, [], ◌∷◌, map}
use cs_learning_notes.Shapes.Graphics.{Graphics, Request, a_circle, a_square, main_shapes}

pub record ShapeVisitor (Number Canvas : Type 0) : Type 0 where
  pub visit_circle : Number → Canvas → Canvas
  pub visit_square : Number → Canvas → Canvas

-- A shape is what its `accept` does.
pub record Shape (Number Canvas : Type 0) : Type 0 where
  pub accept : ShapeVisitor Number Canvas → Canvas → Canvas

module _ {Number Canvas : Type 0} where
  unfoldable pub make : Request Number → Shape Number Canvas
  make (a_circle r) = record { accept = λ v. v.visit_circle r }
  make (a_square s) = record { accept = λ v. v.visit_square s }

  -- `Draw`
  unfoldable pub draw : Graphics Number Canvas → ShapeVisitor Number Canvas
  draw lib = record { visit_circle = lib.circle; visit_square = lib.square }

  unfoldable pub draw_all_shapes :
      Graphics Number Canvas → List (Shape Number Canvas) → Canvas → Canvas
  draw_all_shapes lib [] c = c
  draw_all_shapes lib (shape ∷ shapes) c = draw_all_shapes lib shapes (shape.accept (draw lib) c)

module _ {Number Canvas : Type 0} (lib : Graphics Number Canvas) where
  unfoldable pub main : (radius side : Number) → Canvas → Canvas
  main radius side = draw_all_shapes lib (map (make) (main_shapes radius side))
