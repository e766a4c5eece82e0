-- ===== src/Bits.antt =====
-- `&`, `|` and `^` on unsigned words, as the arithmetic that they stand for.
mod Step
mod Xor
mod Mask
mod Comm
pub use Step.{bit_and_step, bit_or_step, bit_xor_step}
pub use Xor.*
pub use Mask.*
pub use Comm.*
