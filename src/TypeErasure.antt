-- ===== src/TypeErasure.antt =====
-- cpp/c++_software_design/type_erasure: a class `Shape` that holds an object of any class.
pub mod Models
pub mod Design
pub mod Virtual
pub mod FunctionPointers
pub mod Values
pub mod Owners
pub mod Statements
pub mod Refinement
pub mod SmallBuffer
pub mod Outcomes
pub mod Agreement
pub mod Reference
mod Tests
