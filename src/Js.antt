-- ===== src/Js.antt =====
-- The JavaScript language and its standard library, as far as the program uses them.
pub mod BigInt
pub mod Number
pub mod Sort
pub mod Text
