-- ===== src/Io/Termination.antt =====
-- src/lib/io.c: the accesses to the device always end.
use blockdevlogger.Base.{ℕ, List, length, add64, arith}
use blockdevlogger.Device.{AlwaysEnds, Ends-call, Ends-or_return}
use blockdevlogger.Io.{io_seek, io_read, io_write, put_bytes, io_write_block, io_read_block}

-- A result of which nothing is said.
abbrev pub Any {ℓ} : {A : Type ℓ} → A → Type 0
Any a = Unit

io_seek-Ends : (pos : ℕ) → AlwaysEnds Any (io_seek pos)
unfolding io_seek
io_seek-Ends pos f = ground arith

io_read-Ends : (n : ℕ) → AlwaysEnds Any (io_read n)
unfolding io_read
io_read-Ends n f = ground arith

io_write-Ends : (bytes : List ℕ) → AlwaysEnds Any (io_write bytes)
unfolding io_write put_bytes
io_write-Ends bytes f = ground arith

pub io_read_block-Ends : (pos n : ℕ) → AlwaysEnds Any (io_read_block pos n)
unfolding io_read_block
io_read_block-Ends pos n =
    Ends-call Any Any 1 (io_seek pos) _ (io_seek-Ends pos)
      (λ a h. Ends-or_return Any 1 (io_read n) (io_read-Ends n))

pub io_write_block-Ends :
    (pos : ℕ) (bytes padding : List ℕ) → AlwaysEnds Any (io_write_block pos bytes padding)
unfolding io_write_block
io_write_block-Ends pos bytes padding =
    Ends-call Any Any 1 (io_seek pos) _ (io_seek-Ends pos) (λ a h.
      Ends-call Any Any 1 (io_write bytes) _ (io_write-Ends bytes) (λ a h.
        Ends-call Any Any 1 (io_seek (add64 pos (length bytes))) _ (io_seek-Ends _)
          (λ a h. Ends-or_return Any 1 (io_write padding) (io_write-Ends padding))))
