-- ===== src/BigInt.antt =====
-- class BigInt of src/types/MiniNumber.cpp: whole numbers as big-endian two's complement bytes,
-- calculated with by their magnitudes.
pub mod Mag
pub mod Value
pub mod Sum
pub mod Product
pub mod Compare
pub mod SearchDigit
pub mod Quotient
pub mod Signed
pub mod Decimal
pub mod Integer
pub mod SignMag
pub mod Refinement
pub mod Signs
pub mod Operators
pub mod Printed
pub mod Digits
mod Tests
