-- ===== src/Examples.antt =====
-- The programs of src/examples: what they ask of a source or a sink, without what they print. The frames that
-- they work out in floating point are a parameter, by the number of the round.
pub mod Loop
pub mod Yellow
pub mod Sine
pub mod Complementary
pub mod Show
pub mod Runs
