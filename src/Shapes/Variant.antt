-- ===== src/Shapes/Variant.antt =====
-- cpp/c++_software_design/visitor/visitor_variant.cpp: a shape is a `std::variant`.
use cs_learning_notes.Base.{List, [], ◌∷◌, map}
use cs_learning_notes.Shapes.Graphics.{Graphics, Request, a_circle, a_square, main_shapes}

-- `std::variant<Circle, Square>`
pub data Shape (Number : Type 0) : Type 0 where
  circle : (radius : Number) → Shape Number
  square : (side : Number) → Shape Number

module _ {Number : Type 0} where
  unfoldable pub make : Request Number → Shape Number
  make (a_circle r) = circle r
  make (a_square s) = square s

  module _ {Canvas : Type 0} (lib : Graphics Number Canvas) where
    -- `Draw::operator()`, with `std::visit`
    abbrev pub draw : Shape Number → Canvas → Canvas
    draw (circle r) c = lib.circle r c
    draw (square s) c = lib.square s c

    unfoldable pub draw_all_shapes : List (Shape Number) → Canvas → Canvas
    draw_all_shapes [] c = c
    draw_all_shapes (shape ∷ shapes) c = draw_all_shapes shapes (draw shape c)

module _ {Number Canvas : Type 0} (lib : Graphics Number Canvas) where
  unfoldable pub main : (radius side : Number) → Canvas → Canvas
  main radius side = draw_all_shapes lib (map (make) (main_shapes radius side))
