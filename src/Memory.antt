-- ===== src/Memory.antt =====
-- Raw memory: buffers of bytes with `memcpy`, and the little-endian layout of the integers that
-- the program stores in them (`*(uint32_t*)p = v`, `memcpy(p, &v, sizeof(v))` on x86-64).
pub mod Copy
pub mod Integers
pub mod Double
