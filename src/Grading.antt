-- ===== src/Grading.antt =====
-- Server-side answer grading: src/business/grading.
pub mod Options
pub mod Templates
pub mod Answer
pub mod Grade
pub mod Normalise
pub mod Prototypes
pub mod Choices
pub mod Ordering
pub mod Parsing
pub mod Verdicts
pub mod Typed
