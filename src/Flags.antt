-- ===== src/Flags.antt =====
-- Lists of flags and bit masks: src/common.c, and the tables of src/statvfs.c and src/syslog.c.
pub mod Table
pub mod Open
pub mod Statvfs
pub mod Volume
pub mod Syslog
mod Tests
