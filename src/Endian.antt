-- ===== src/Endian.antt =====
-- src/endian.c, src/endianba.c and src/endian_helper.h: integers of 1 to 8 bytes in a string or a
-- bigarray, in big, little or host byte order.
pub mod Memory
pub mod Convert
pub mod Macros
pub mod Getters
pub mod Setters
pub mod Converters
pub mod Laws
pub mod RoundTrip
pub mod Places
pub mod Bigarray
mod Tests
