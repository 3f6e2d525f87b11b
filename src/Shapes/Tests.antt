-- ===== src/Shapes/Tests.antt =====
-- The shapes of the main programs, drawn as a list of numbers.
use cs_learning_notes.Base.{ℕ, ◌≡◌, some, List, [], ◌∷◌}
use mathlib.Core.List.{map}
use cs_learning_notes.Shapes.Graphics.{Graphics, Request, a_circle, a_square}
use cs_learning_notes.Shapes.Procedural
use cs_learning_notes.Shapes.Objects
use cs_learning_notes.Shapes.ClassicVisitor
use cs_learning_notes.Shapes.Variant
use cs_learning_notes.Shapes.Agreement.{designs_agree}

abbrev plotter : Graphics ℕ (List ℕ)
plotter = record { circle = λ r c. r ∷ c; square = λ s c. 0 ∷ s ∷ c }

abbrev main_shapes : List (Request ℕ)
main_shapes = a_circle 23 ∷ a_square 12 ∷ []

designs_agree_example :
    (Procedural.draw_all_shapes plotter (map Procedural.make main_shapes) []
      ≡ some (Variant.draw_all_shapes plotter (map Variant.make main_shapes) []))
    × (Objects.draw_all_shapes (map (Objects.make plotter) main_shapes) []
        ≡ Variant.draw_all_shapes plotter (map Variant.make main_shapes) [])
    × (ClassicVisitor.draw_all_shapes plotter (map ClassicVisitor.make main_shapes) []
        ≡ Variant.draw_all_shapes plotter (map Variant.make main_shapes) [])
designs_agree_example = designs_agree plotter main_shapes []
