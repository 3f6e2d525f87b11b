-- ===== src/Shapes/Graphics.antt =====
-- What the programs of cpp/c++_software_design/visitor share: the two functions that draw, which are
-- left open there, and the shapes that a main program asks for.
use cs_learning_notes.Base.{List, [], ◌∷◌}

-- "some graphics library", drawing on a canvas.
pub record Graphics (Number Canvas : Type 0) : Type 0 where
  pub circle : Number → Canvas → Canvas
  pub square : Number → Canvas → Canvas

-- `Circle(radius)` or `Square(side)`, as written in a main program.
pub data Request (Number : Type 0) : Type 0 where
  a_circle : (radius : Number) → Request Number
  a_square : (side : Number) → Request Number

-- The shapes of `main`, in the order in which it makes them, for its numbers 2.3 and 1.2.
abbrev pub main_shapes : {Number : Type 0} → (radius side : Number) → List (Request Number)
main_shapes radius side = a_circle radius ∷ a_square side ∷ []
