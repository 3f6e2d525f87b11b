-- ===== src/Shapes/Procedural.antt =====
-- cpp/c++_software_design/visitor/procedural.cpp: a tag in each shape, and a switch on it.
use cs_learning_notes.Base.{Option, none, some, List, [], ◌∷◌, map}
use cs_learning_notes.Shapes.Graphics.{Graphics, Request, a_circle, a_square, main_shapes}

pub data ShapeType : Type 0 where
  circle square : ShapeType

-- What an object is besides a `Shape`: the members of the class that it is of.
pub data Derived (Number : Type 0) : Type 0 where
  circle_part : (radius : Number) → Derived Number
  square_part : (side : Number) → Derived Number

pub record Shape (Number : Type 0) : Type 0 where
  pub type : ShapeType
  pub derived : Derived Number

module _ {Number : Type 0} where
  -- `std::make_unique<Circle>(radius)` and `std::make_unique<Square>(side)`
  unfoldable pub make : Request Number → Shape Number
  make (a_circle r) = record { type = circle; derived = circle_part r }
  make (a_square s) = record { type = square; derived = square_part s }

  module _ {Canvas : Type 0} (lib : Graphics Number Canvas) where
    -- The cases of the switch; a cast to a class that the object is not of is undefined.
    abbrev pub draw : ShapeType → Derived Number → Canvas → Option Canvas
    draw circle (circle_part r) c = some (lib.circle r c)
    draw square (square_part s) c = some (lib.square s c)
    draw _ _ c = none

    unfoldable pub draw_all_shapes : List (Shape Number) → Canvas → Option Canvas
    draw_all_shapes [] c = some c
    draw_all_shapes (shape ∷ shapes) c = elim (draw shape.type shape.derived c) [
      | none ↦ none
      | some c' ↦ draw_all_shapes shapes c'
    ]

module _ {Number Canvas : Type 0} (lib : Graphics Number Canvas) where
  unfoldable pub main : (radius side : Number) → Canvas → Option Canvas
  main radius side = draw_all_shapes lib (map (make) (main_shapes radius side))
