-- ===== src/Lib.antt =====
-- KCF, an archiver with a file format of its own (spec.md): its library, kcf/ and io/, and what
-- makes it correct.
--
-- An archive is a file that begins with a marker; behind it stands a sequence of records. A record
-- has a head (a CRC of 16 bits, a type, flags, its size, and optional fields for the size and the
-- CRC of added data), data of its own, and added data behind it. The library reads and writes
-- archives over streams, which are tables of methods (io/io.c), and its state is that of a parser
-- (struct kcf_st) that goes from record to added data and back.
--
-- The parts and their files:
--   Base      the names that the other modules share: lists, integers, tests, results
--   Env       what the library calls and does not own: crc32c, malloc, and the names that the
--             source uses and does not declare
--   Errors    include/kcf/errors.h, kcf/errors.c: the error codes and their texts
--   Action    C functions that change a state and return an error code, as actions with do blocks.
--             An action ends with a value, with an error, with undefined behaviour, or has not
--             ended when the fuel of a loop is used up
--   Bytes     kcf/bytepack.c: integers of 8 to 64 bits in little-endian buffers; Bytes.Calls has the
--             exported functions, ReadU64LE as read_u64_le and so on
--   Io        io/io.c and io/io_local.h: streams (io_read stands for IO_read and so on). Io.Stdio is
--             the C library's FILE and Io.CFile the methods of io/cfile.c over it; Io.Fd is io/fd.c
--             over the calls of Io.Posix, Io.Win32 is io/win32.c over those of the Windows API, and
--             Io.Chunks has the loops that the three share. Io.ByteFile is the abstract file that
--             a stream stands for. A FILE keeps whether the handle is NULL, as after fclose; that C
--             wants a positioning between reading and writing is in Io.ByteFile's run_cfile
--   Record    kcf/record.c: rec_fix, rec_validate, rec_to_buffer and the others under their own
--             names; Record.Layout is the layout of spec.md, to which they are compared, and
--             Record.Decoding the record that a string of bytes stands for
--   ArchiveHeader  kcf/archhdr.c
--   FileInfo  kcf/files.c
--   Kcf       kcf/kcf_impl.h: struct kcf_st as the record Kcf. Kcf.Read is kcf/read.c, Kcf.Write
--             kcf/write.c, Kcf.Marker kcf/marker.c, Kcf.Archive kcf/archive.c, Kcf.Insert
--             kcf/insert.c, Kcf.Extract kcf/extract.c; a function KCF_read_record is
--             kcf_read_record. Kcf.Reach has the sequences of calls on one archive, Kcf.RoundTrip
--             the writer and the reader over one file, Kcf.Items an archive as the list of its
--             records
--   Report    what the program prints and how it exits
--   Unpacking cmd/kcf/main.c: unpack, over the functions that it calls
--   Program   cmd/kcf/main.c: the commands, and packing
--   Runs      the theorems on test data
--
-- A buffer is the list of its bytes; a pointer that may be null is an Option. Sizes are natural
-- numbers with their wrap-around written out. Reading an indeterminate value or past a buffer, and
-- writing past one, is the result `undefined`, with two exceptions. Where a CRC reads past a block
-- (rec_calculate_crc, crc_of_added), the CRC is a value of which nothing is known (Env.crc32c_past).
-- And the writers of Bytes leave a byte outside the list out; those that go on from there, the
-- exported functions of Bytes.Calls and the memcpy in rec_to_buffer and record_to_file_info, are
-- undefined then. The local buffers that have no initial value, and the local BytesRead of
-- KCF_insert_file_data, are arguments. A function that checks its pointers gets a Boolean that says
-- that they are not null.
--
-- Loops that wait for a stream (KCF_find_marker, IO_skip, KCF_skip_file, KCF_extract and
-- KCF_insert_file_data) take fuel, one unit for a round; for KCF_find_marker over a file, one round
-- more than there are bytes left is enough.
--
-- The calls of POSIX and of the Windows API are parameters of Io.Fd and Io.Win32; what they do to
-- regular files is written out from their documentation in Io.Posix and Io.Win32.Regular. The loops
-- over more than INT32_MAX bytes take fuel; Io.Win32 gives them one round more than there are bytes,
-- which is enough. A value that a function returns without having set it is an argument. The
-- functions that unpack of cmd/kcf/main.c calls are declared nowhere: they are a parameter
-- (Unpacking), and its loop takes fuel, one unit for a file.
--
-- Not modelled: the traces; free; the copies of other projects' code (kcf/crc32c.c,
-- kcf/msapi_utf8.h, tests/tap.c, tests/asprintf.c), of which crc32c is a parameter with its
-- documented behaviour as hypotheses (Env.CrcLaws); the tests, which are for an earlier interface.
-- malloc is a parameter too (Env.AlwaysAllocates: it never fails).
pub mod Base
pub mod Env
pub mod Errors
pub mod Action
pub mod Bytes
pub mod Io
pub mod Record
pub mod ArchiveHeader
pub mod FileInfo
pub mod Kcf
pub mod Report
pub mod Unpacking
pub mod Program
pub mod Runs
