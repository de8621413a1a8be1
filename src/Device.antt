-- ===== src/Device.antt =====
-- The open device: struct bdl_io_file of src/include/bdl.h with the bytes behind it, and the shape
-- of the C functions, which return a status, may store results, and change the file on the way.
mod Contents
mod Monad
mod Bytes
mod Termination
unfoldable pub use Contents.{read_bytes}
pub use Contents.*
pub use Monad.*
pub use Bytes.*
pub use Termination.*
