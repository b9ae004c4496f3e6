-- ===== src/Cron.antt =====
-- The package cron/cron.go: `Outcome` is what one of its functions does, `Steps` has the loops and
-- the two range notations, `Fields` the five field parsers, `Expression` the whole expression and
-- the match against a time. The other modules prove.
pub mod Outcome
pub mod Steps
pub mod Fields
pub mod Expression
pub mod Progression
pub mod StepText
pub mod RangeText
pub mod Bounds
pub mod FieldBounds
pub mod RoundTrip
pub mod Names
pub mod FieldRoundTrip
pub mod Meaning
pub mod Whole
pub mod Defects
mod Examples
