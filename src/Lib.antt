-- ===== src/Lib.antt =====
-- Block Device Logger: a log of blocks on a block device or in a file.
--
-- A device begins with a master header (struct bdl_header), padded to `header_size` bytes. Behind it
-- lie regions of 8 MiB: blocks of `block_size` bytes, at the end of the region its hint block, which
-- names the block that was written last, and 4 MiB before that a backup of the hint block. A write
-- looks for a region with room, puts the block behind the last one, and updates the hint block and
-- the backup; a read goes over the regions, the oldest first, and over the blocks of each.
--
-- The files and what they model (src/ is the directory of that name in the repository):
--   Base (Tests, Lists, Words, Bytes): names of the libraries, Boolean tests, lists, machine words
--     with their wrap-around, little-endian fields.
--   Crc32 (Table, Xor, Reference): src/lib/crc32.c, and the CRC32 bit by bit.
--   Layout (RoundTrip): the stored structs of src/lib/blocks.h as bytes, as a 64-bit little-endian
--     target lays them out, and the numbers of src/lib/defaults.h.
--   Device (Contents, Monad, Bytes, Termination): struct bdl_io_file of src/include/bdl.h with the
--     bytes of the device. A C function is a function from the file to an outcome and a file: `ok` with results,
--     `err` with the status, `exit` where the program ends. The stream functions and msync of the
--     host are fields of `Host`; `Works` says of them what their documentation says.
--   Io (Sync, Block, Termination, Open, Open/Size): src/lib/io.c. What the system calls of io_open
--     give is a record of functions, `Os`. A file that is not mapped has no `memorymap`.
--   Crypt: src/lib/crypt.c.
--   Validate (Laws): src/lib/validate.c. An int result is its bit pattern. A master header with
--     `block_size` 0 divides by 0 in C; here the remainder is taken as `total_size`, and the header
--     is refused for its size.
--   Blocks (Laws, Termination): the readers of src/lib/blocks.c.
--   Put (Laws, ReadBack, Block, Termination): the functions of src/lib/write.c that store blocks.
--   Hint (Laws, State, Fresh, Termination): block_get_hintblock_state of src/lib/blocks.c with the recovery from
--     the backup.
--   Loop (Termination, Regions, Steps, HintSteps): the loops of src/lib/blocks.c, with their callbacks as arguments.
--     They run on fuel: two more than the distance from the first position to the last, divided by
--     the step, which is enough because no position wraps on a device below 2^63 bytes.
--     `out_of_fuel` marks a run that would need more.
--   Write (PutAt, Found, Stamp, Place): the rest of src/lib/write.c.
--   Read (Limit), Update, Clear, Init (RoundTrip, Requested): the files of src/lib/ of these names; Init also
--     holds bdl_init_dev of src/lib/interface.c.
--   Region: the abstract view of a region as a log of entries. Places, Log, State, Find, Kept, Write,
--     Full: what a write does to it; Print, Read, Logs, Rounds, Oldest, ReadAll, ReadBlocks: what a read
--     prints of all regions; WriteRead, Init, Sequence: both together, from a blank device on.
--   Session (Refinement): src/lib/session.c, and the session as its users see it.
--   Interface (State, Users, NoLeak, Steps): bdl_interpret_command of src/lib/interface.c, one function
--     per command, with the functions of src/cmdlineparser/cmdline.h as a record, `Parser`.
--   Main (Words, Termination): src/bdl.c. The loop over the commands has two rounds more than there
--     are letters in the input, which is enough because each command takes letters from it.
--   Examples (Regions, Commands): the theorems at concrete devices and inputs.
--
-- Positions are numbers, 64-bit sums are reduced, and the conversions to int and unsigned int of
-- write_put_and_pad_block and write_checksum_and_put_block are written out. The int length of
-- crypt_hash_data is not cut: it stands for lengths below 2^31, as all of accepted block sizes are. Messages to the standard
-- error are left out; what a read prints is a list.
--
-- Not modelled: the system calls behind `Host` and `Os`; the clock (an argument of the write); the
-- command line parser, which is another project's library; messages, and what a read that fails has
-- printed before it does. The regions of the abstract view lie below 2^31, since the writers cut
-- positions to an int; logs whose hint block has been damaged, and what a recovery makes of them,
-- are outside of it.
pub mod Base
pub mod Crc32
pub mod Layout
pub mod Device
pub mod Io
pub mod Crypt
pub mod Validate
pub mod Blocks
pub mod Put
pub mod Hint
pub mod Loop
pub mod Write
pub mod Read
pub mod Update
pub mod Clear
pub mod Init
pub mod Session
pub mod Interface
pub mod Main
pub mod Region
pub mod Examples
