-- ===== src/Payload/P65535.antt =====
-- src/payload.rs, `P65535<[u8; 32]>`: 17 digits in base 65535 over four 64-bit limbs.
mod Limbs
mod Digits
unfoldable pub use Limbs.*
unfoldable pub use Digits.*
