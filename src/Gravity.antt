-- ===== src/Gravity.antt =====
-- How well a node suits a capsule, and what the election makes of it: election/gravity and
-- election/delay.
pub mod Eligibility
pub mod Floats
pub mod Weights
pub mod Factors
pub mod Calculator
pub mod Delay
pub mod Samples
mod Tests
