-- ===== src/Host.antt =====
-- What the source takes from JavaScript's library and the model does not define: Unicode tables,
-- the locale's collation, dates and hashes. A time is counted in milliseconds from the earliest
-- time value of ECMAScript, so that it is a natural number; differences and orders are the same.
use metaclaw.Base.{ℕ, Bool, Option, String}

pub record Host : Type 0 where
  -- `localeCompare(a, b) <= 0`
  pub locale_le : String → String → Bool
  -- `Date.parse`, with `none` for NaN
  pub parse_date : String → Option ℕ
  -- `new Date(ms).toISOString()`
  pub iso_date : ℕ → String
  -- `normalize('NFC')`, `toLowerCase()`
  pub nfc : String → String
  pub lower : String → String
