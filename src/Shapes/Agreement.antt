-- ===== src/Shapes/Agreement.antt =====
-- What the programs of cpp/c++_software_design/visitor draw.
use cs_learning_notes.Base.{◌≡◌, refl, some, List, [], ◌∷◌}
use mathlib.Core.List.{map}
use cs_learning_notes.Shapes.Graphics.{Graphics, Request, a_circle, a_square}
use cs_learning_notes.Shapes.Procedural
use cs_learning_notes.Shapes.Objects
use cs_learning_notes.Shapes.ClassicVisitor
use cs_learning_notes.Shapes.Variant

module _ {Number Canvas : Type 0} (lib : Graphics Number Canvas) where
  -- Of the same shapes four programs draw the same picture, on every canvas; the procedural one never
  -- casts a shape to a class that it is not of.
  pub designs_agree :
      (shapes : List (Request Number)) (c : Canvas)
      → (Procedural.draw_all_shapes lib (map Procedural.make shapes) c
          ≡ some (Variant.draw_all_shapes lib (map Variant.make shapes) c))
        × (Objects.draw_all_shapes (map (Objects.make lib) shapes) c
            ≡ Variant.draw_all_shapes lib (map Variant.make shapes) c)
        × (ClassicVisitor.draw_all_shapes lib (map ClassicVisitor.make shapes) c
            ≡ Variant.draw_all_shapes lib (map Variant.make shapes) c)
  unfolding Procedural.draw_all_shapes Procedural.make Objects.draw_all_shapes Objects.make
      ClassicVisitor.draw_all_shapes ClassicVisitor.make ClassicVisitor.draw Variant.draw_all_shapes
      Variant.make
  designs_agree [] c = (refl, refl, refl)
  designs_agree (a_circle r ∷ shapes) c = designs_agree shapes (lib.circle r c)
  designs_agree (a_square s ∷ shapes) c = designs_agree shapes (lib.square s c)

  -- Each `main` draws its circle, and then its square.
  mains_agree :
      (radius side : Number) (c : Canvas)
      → let drawn : Canvas = lib.square side (lib.circle radius c) in
        (Procedural.main lib radius side c ≡ some drawn)
        × (Objects.main lib radius side c ≡ drawn)
        × (ClassicVisitor.main lib radius side c ≡ drawn)
        × (Variant.main lib radius side c ≡ drawn)
  unfolding Procedural.main Procedural.draw_all_shapes Procedural.make Objects.main
      Objects.draw_all_shapes Objects.make ClassicVisitor.main ClassicVisitor.draw_all_shapes
      ClassicVisitor.make ClassicVisitor.draw Variant.main Variant.draw_all_shapes Variant.make
  mains_agree radius side c = (refl, refl, refl, refl)
