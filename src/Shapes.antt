-- ===== src/Shapes.antt =====
-- cpp/c++_software_design/visitor: five programs that draw shapes, one module each. The names that one
-- program has of the shapes are kept in each of them.
pub mod Graphics
pub mod Procedural
pub mod Objects
pub mod ClassicVisitor
pub mod AcyclicVisitor
pub mod Variant
pub mod Agreement
mod Tests
