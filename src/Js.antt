-- ===== src/Js.antt =====
-- What the programs use of the JavaScript language and its standard library.
pub mod Number
pub mod Text
pub mod Loop
pub mod Sort
pub mod Object
pub mod Element
