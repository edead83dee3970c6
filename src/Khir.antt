-- ===== src/Khir.antt =====
-- khir/: the intermediate language that a query is translated to.
pub mod Word
mod Fields
pub mod Layout
pub mod Instruction
pub mod Type1
pub mod Type2
pub mod Type3
pub mod Type5
pub mod Value
pub mod Opcode
pub mod ConstantOpcode
pub mod Result
pub mod Instr
pub mod Function
pub mod Builder
pub mod TypeManager
mod Tests
