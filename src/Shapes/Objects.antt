-- ===== src/Shapes/Objects.antt =====
-- cpp/c++_software_design/visitor/oop.cpp: a virtual function.
use cs_learning_notes.Base.{List, [], ◌∷◌, map}
use cs_learning_notes.Shapes.Graphics.{Graphics, Request, a_circle, a_square, main_shapes}

-- A shape is what its virtual function does.
pub record Shape (Canvas : Type 0) : Type 0 where
  pub draw : Canvas → Canvas

module _ {Number Canvas : Type 0} (lib : Graphics Number Canvas) where
  -- The objects of the two classes, with `Circle::draw` and `Square::draw`.
  unfoldable pub make : Request Number → Shape Canvas
  make (a_circle r) = record { draw = lib.circle r }
  make (a_square s) = record { draw = lib.square s }

module _ {Canvas : Type 0} where
  unfoldable pub draw_all_shapes : List (Shape Canvas) → Canvas → Canvas
  draw_all_shapes [] c = c
  draw_all_shapes (shape ∷ shapes) c = draw_all_shapes shapes (shape.draw c)

module _ {Number Canvas : Type 0} (lib : Graphics Number Canvas) where
  unfoldable pub main : (radius side : Number) → Canvas → Canvas
  main radius side = draw_all_shapes (map (make lib) (main_shapes radius side))
