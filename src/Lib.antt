-- ===== src/Lib.antt =====
-- extunix: bindings of system calls for OCaml.
--
-- The library is a set of C stubs, one file of src/ per group of calls. A stub decodes OCaml
-- values, calls the system and encodes the result or raises. All files of C in src/ are modelled:
-- loops over partial transfers, conversions between byte orders, tables of flags, buffers that
-- grow, state that outlives a call, emulations of a call by others, and the stubs of one call. The
-- stubs do not call one another; what they share are the flags of `open` and the conventions for
-- errors.
-- In front of the transfer loops and of the accessors of strings stand the checks of
-- src/extUnix.pp.ml.
--
-- The system and the runtime of OCaml are parameters. A system call is a function from the state
-- `K` of the kernel to an `Answer` (a result, or the error number) and a new state, so an errno
-- is a value. An exception of OCaml is an `Exn`, and a stub gives a `Result`. The macros of system
-- headers are a `Header`, a function from names. Where a theorem needs more of the system than its
-- type, a named hypothesis says so (`IsSource`, `IsSink`, `IsConvert`, `IsSetlogmask`, `IsLink`,
-- `Remembers`, `Connects`, `IsFile`, `NeverFails`, `IsSigset`, `IsStatus`, `IsTerminal`), and the
-- tests show systems that meet it. A stub that makes several calls is a `Stub` (Base/Stub), a
-- function from the state to a `Result` and a state, in `do` blocks where nothing runs after an
-- exception. What a stub owns is counted: blocks on the heap of C, open handles, lists to be freed.
--
-- - Base: names, Boolean tests, lists that native numbers index, bits (Base/Bits), 64-bit words
--   (Base/Word), signed integers and two's complement (Base/Int), answers and errors (Base/Call),
--   stubs over a state and the rules for their sequences (Base/Stub), the blocks that stubs own on
--   the heap of C (Base/Heap).
-- - Transfer: the loops `*_common` of src/unistd.c and src/pread_pwrite_ba.c. Transfer/Loop has the
--   mode bits and the handling of an error; Transfer/Input and Transfer/Output have the loops for
--   `pread` and `read`, and for `pwrite` and `write`; Transfer/Unistd and Transfer/Bigarray have the
--   48 entry points; Transfer/Errors says when a loop may end at an error. Offsets and lengths are
--   64-bit patterns, with their wrap-around. The bytes of the buffer are a list, and an access past
--   its end is the outcome `fault`. A loop runs on fuel:
--   each round moves a byte or is one of the interruptions that the system has left (`patience`),
--   so `len + patience k` rounds and one more are enough, and the theorems prove it.
-- - Endian: src/endian.c, src/endianba.c and src/endian_helper.h. The macros `CONV`, `GET` and
--   `SET` are the functions of Endian/Macros and Endian/Bigarray, and each instance is a definition.
--   Whether the host is little-endian is a parameter. The offset is a natural number, as the OCaml
--   code checks it; an access outside the bytes is `none`.
-- - Flags: the table and the loop of src/common.c (Flags/Open), src/statvfs.c for POSIX systems
--   (Flags/Statvfs) and for Windows (Flags/Volume), and src/syslog.c (Flags/Syslog), with the copy
--   of the identity that `openlog` keeps in a static variable.
-- - Checked: the functions of src/extUnix.pp.ml that check offsets and lengths, which are any
--   integers of OCaml, and then run a loop of Transfer/Unistd.
-- - Accessors: the modules BigEndian, LittleEndian and HostEndian of src/extUnix.pp.ml, whose `get_X`
--   and `set_X` check the offset in front of src/endian.c.
-- - Sockopt: src/sockopt.c for POSIX systems, with options that a system may lack, and for Windows
--   (Sockopt/Windows).
-- - Atfile: src/atfile.c, with the number of blocks that the stubs own on the heap of C, and the
--   buffer of `readlinkat` that doubles (Atfile/Readlink), on fuel above the length of the link.
--   Atfile/Flags has the flags that its stubs let through.
-- - Resource: src/resource.c, and the module Rlimit of src/extUnix.pp.ml (Resource/Rlimits), whose
--   text is the list of the numbers and units that are printed. Poll: src/poll.c. Sendmsg:
--   src/sendmsg.c, where the system has `CMSG_SPACE`.
-- - Fallocate: src/fallocate.c, and src/TODO/ftruncate/ftruncateC.c, which is not built. The file of
--   Windows that its calls show is Fallocate/File, and Fallocate/Seek has a move of its pointer.
-- - Splice: src/splice.c; Splice/Inside has the memory that `vmsplice` hands over,
--   also where a negative offset leads out of a bigarray.
-- - Signalfd: src/signalfd.c, with its structure (Signalfd/Siginfo) and its set (Signalfd/Set).
-- - Paths: src/mount.c, src/mktemp.c, src/rename.c and `chroot`. Paths/Renames has the
--   flags of `renameat2`, whose table and whose constructors in OCaml differ in order.
--   Realpath: src/realpath.c on POSIX
--   systems and on Windows. Ifaddrs: src/ioctl_siocgifconf.c. Wait4: src/wait4.c. Time: src/time.c,
--   with Time/Windows.
-- - Calls: the stubs of one call or few. Calls/Process has src/ptrace.c, src/unshare.c,
--   src/fexecve.c, src/read_cred.c and part of src/unistd.c; Calls/Files src/fsync.c, src/fadvise.c,
--   src/dirfd.c and src/eventfd.c; Calls/Memory src/memalign.c, src/malloc.c, src/mman.c,
--   src/bigarray.c and src/execinfo.c; Calls/Terminal src/tty_ioctl.c and src/pts.c; Calls/Info
--   src/uname.c, src/sysinfo.c, src/sysconf.c and src/stdlib.c; Calls/Protocol has what they keep.
--
-- A macro that the code uses without a default is 0 in the model if the header lacks it; the code
-- does not compile there. An `int` of OCaml has 63 bits: the systems are 64-bit ones.
--
-- Not modelled: floats, which are a type and functions that make them (timeouts, times, loads); the
-- garbage collector and the release of the runtime's lock; the branch of src/sendmsg.c for systems
-- without `CMSG_SPACE`; the table of `custom_operations` and `poll_constants`, a tuple of macros;
-- `splice_bytecode`, which spreads an array; in src/extUnix.pp.ml, all but the checks and Rlimit.
pub mod Base
pub mod Transfer
pub mod Endian
pub mod Flags
pub mod Accessors
pub mod Atfile
pub mod Calls
pub mod Checked
pub mod Fallocate
pub mod Ifaddrs
pub mod Paths
pub mod Poll
pub mod Realpath
pub mod Resource
pub mod Sendmsg
pub mod Signalfd
pub mod Sockopt
pub mod Splice
pub mod Time
pub mod Wait4
