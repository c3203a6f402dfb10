-- ===== src/State/Platform.antt =====
-- What the browser computes for the scripts: numbers with a fraction and their texts, and dates.
use shortq.Prelude.{ℕ, Text, Bool, Option}

-- A JavaScript number with a fraction, by its 64-bit pattern.
pub record Double : Type 0 where
  pub bits : ℕ

-- The arithmetic of numbers and the texts that they are shown as.
pub record Numbers : Type 0 where
  pub of_nat : ℕ → Double
  -- `Number(s)` of a string
  pub of_text : Text → Double
  pub add : Double → Double → Double
  pub sub : Double → Double → Double
  pub mul : Double → Double → Double
  pub div : Double → Double → Double
  pub greater : Double → Double → Double
  pub lt : Double → Double → Bool
  pub equal : Double → Double → Bool
  -- `String(x)`, `x.toFixed(d)`, and `toLocaleString` with at most `d` digits of a fraction.
  pub to_text : Double → Text
  pub to_fixed : ℕ → Double → Text
  pub to_locale : ℕ → Double → Text

-- Dates in local time, by the number of the day they fall on, counted from a day in the far past.
-- `setDate` moves a date by days.
pub record Calendar : Type 0 where
  -- `new Date()`
  pub today : ℕ
  -- `getFullYear`, `getMonth` and `getDate`
  pub year : ℕ → ℕ
  pub month : ℕ → ℕ
  pub day : ℕ → ℕ
  -- `new Date(text + "T00:00:00")`, if it is valid
  pub day_of : Text → Option ℕ
  -- `Intl.DateTimeFormat().resolvedOptions().timeZone`
  pub time_zone : Text
