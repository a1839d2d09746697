-- ===== src/Decimal.antt =====
-- Decimal numbers kept as texts: backend/src/ingest/decimal.util.ts (`Scaled`) and
-- backend/src/db/numeric.ts (`Numeric`). A text is the list of its code points, `BigInt` an integer.
pub mod Digits
pub mod Scaled
pub mod Numeric
mod Tests
