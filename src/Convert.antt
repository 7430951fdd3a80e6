-- ===== src/Convert.antt =====
-- `audio_converter` of src/audio.c, its loops over the samples of a buffer, and the functions
-- that choose its operations. `Tables` has the companding tables.
pub mod Tables
pub mod Loops
pub mod Choose
pub mod Run
pub mod LoopLaws
pub mod InPlace
pub mod Samples
pub mod Words
pub mod Stages
pub mod ToS16
mod Tests
