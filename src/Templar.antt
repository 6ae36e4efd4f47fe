-- ===== src/Templar.antt =====
-- templar.c: the interpreter of the scripting language Templar, a part of it in each child.
pub mod Word
pub mod Value
pub mod State
pub mod Vars
pub mod Lexer
pub mod Expr
pub mod Builtin
pub mod Exec
pub mod Load
pub mod Sound
pub mod Faults
mod Tests
