-- ===== src/Js.antt =====
-- What the web application uses of the JavaScript runtime: whole numbers held as doubles, dynamic
-- values, decimal text and `BigInt(…)`, and `localStorage`.
pub mod Number
pub mod Value
pub mod Decimal
pub mod Storage
