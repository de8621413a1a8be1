-- ===== src/Interface.antt =====
-- src/lib/interface.c: the commands.
pub mod State
pub mod Users
pub mod NoLeak
pub mod Steps
use blockdevlogger.Base.{
  ℕ, ◌+◌, ◌^◌, Bool, true, false, ◌||◌, not, Option, none, some, List, [], ◌∷◌, ◌++◌, ltb, leb,
  ◌==◌, if◌then◌else◌, length, u32, codes,
}
use blockdevlogger.Layout.{default_blocksize, default_header_pad}
use blockdevlogger.Device.{File, M}
use blockdevlogger.Io.Open.{Os}
use blockdevlogger.Session.{Session}
use blockdevlogger.Blocks.{block_get_validate_master_header}
use blockdevlogger.Write.{write_put_block}
use blockdevlogger.Read.{read_blocks}
use blockdevlogger.Clear.{clear_dev}
use blockdevlogger.Init.{bdl_init_dev}
use blockdevlogger.Interface.State.{
  Parser, Shell, Command, pure, fail, ◌>>=◌, ◌>>◌, and_then, ask, fail_if, start, close, on_device,
  print,
}

abbrev default_pad_char : ℕ
default_pad_char = 0xff

-- A `long int` below zero.
abbrev is_negative : ℕ → Bool
is_negative n = leb (2 ^ 63) n

-- `parser` is the command line parser, `os` what opening a file needs, `now` the time, and
-- `stream_position` where the stream of a device stands.
module _ {Data : Type 0} (parser : Parser Data) (os : Os) (now : ℕ)
    (stream_position : File → ℕ) where
  pub value : List ℕ → Command Data (Option (List ℕ))
  value key = ask (λ d. parser.cmd_get_value d key)

  pub check_all_args_used : Command Data (Unit {0})
  check_all_args_used s = fail_if (not (parser.cmd_check_all_args_used s.cmd_data == 0)) s

  -- An argument that is converted if it is there, and its default if it is not.
  argument :
      Option (List ℕ)
      → List ℕ
      → (Data → List ℕ → ℕ × Data)
      → (Data → List ℕ → ℕ × Data)
      → ℕ
      → Command Data ℕ
  argument none key convert get default = pure default
  argument (some text) key convert get default = do
    status ← ask (λ d. convert d key)
    fail_if (not (status == 0))
    ask (λ d. get d key)

  -- The same for a number of `cmd_get_integer`, which may not be negative.
  natural_argument : Option (List ℕ) → List ℕ → ℕ → Command Data ℕ
  unfolding argument
  natural_argument text key default = do
    n ← argument text key parser.cmd_convert_integer_10 parser.cmd_get_integer default
    fail_if (is_negative n)
    pure n

  -- The device, which may not be missing, is opened if no session is.
  pub open_path : Option (List ℕ) → Command Data (Unit {0})
  unfolding check_all_args_used
  open_path none = fail 1
  open_path (some path) = do
    check_all_args_used
    λ s. fail_if (not (s.session.usercount == 0)) s
    start os (some path)

  pub command_open : Command Data (Unit {0})
  unfolding value open_path
  command_open = do device_path ← value (codes "dev"); open_path device_path

  pub command_close : Command Data (Unit {0})
  command_close s = if s.session.usercount == 0 then fail 1 s else close s

  -- The device that a command names, with a session on it.
  with_device : Option (List ℕ) → Command Data (Unit {0})
  unfolding check_all_args_used
  with_device device_string = do check_all_args_used; start os device_string

  pub command_clear : Command Data (Unit {0})
  unfolding value with_device
  command_clear = do
    device_string ← value (codes "dev")
    with_device device_string
    result ← on_device clear_dev
    close

  pub command_validate : Command Data (Unit {0})
  unfolding value with_device
  command_validate = do
    device_string ← value (codes "dev")
    with_device device_string
    master ← on_device block_get_validate_master_header
    close

  pub command_read : Command Data (Unit {0})
  unfolding value with_device argument natural_argument
  command_read = do
    device_string ← value (codes "dev")
    timestamp_gteq_string ← value (codes "ts_gteq")
    limit_string ← value (codes "limit")
    timestamp_gteq ←
        argument timestamp_gteq_string (codes "ts_gteq") parser.cmd_convert_uint64_10
          parser.cmd_get_uint64 0
    limit ← natural_argument limit_string (codes "limit") 0
    with_device device_string
    dumps ← on_device (read_blocks timestamp_gteq limit)
    print dumps
    close

  -- `faketimestamp_tmp` is an `int`.
  faketimestamp_argument : Option (List ℕ) → Command Data ℕ
  unfolding argument
  faketimestamp_argument text = do
    n ← argument text (codes "faketimestamp") parser.cmd_convert_integer_10 parser.cmd_get_integer 0
    fail_if (leb (2 ^ 31) (u32 n))
    pure (u32 n)

  -- The text of the block, which may not be missing or empty.
  block_text : Option (List ℕ) → Command Data (List ℕ)
  block_text none = fail 1
  block_text (some []) = fail 1
  block_text (some (c ∷ text)) = pure (c ∷ text)

  -- The block holds the text with its NUL.
  pub command_write : Command Data (Unit {0})
  unfolding value with_device argument faketimestamp_argument block_text
  command_write = do
    device_string ← value (codes "dev")
    appdata_string ← value (codes "appdata")
    timestamp_string ← value (codes "timestamp")
    faketimestamp_string ← value (codes "faketimestamp")
    last_argument ← ask parser.cmd_get_last_argument
    text ← block_text last_argument
    appdata ←
        argument appdata_string (codes "appdata") parser.cmd_convert_hex_64 parser.cmd_get_hex_64 0
    timestamp ←
        argument timestamp_string (codes "timestamp") parser.cmd_convert_uint64_10
          parser.cmd_get_uint64 0
    faketimestamp ← faketimestamp_argument faketimestamp_string
    with_device device_string
    on_device (write_put_block now (text ++ 0 ∷ []) appdata timestamp faketimestamp)
    close

  pub command_init : Command Data (Unit {0})
  unfolding value with_device argument natural_argument
  command_init = do
    device_string ← value (codes "dev")
    bs_string ← value (codes "bs")
    hpad_string ← value (codes "hpad")
    padchar_string ← value (codes "padchar")
    blocksize ← natural_argument bs_string (codes "bs") default_blocksize
    header_pad ← natural_argument hpad_string (codes "hpad") default_header_pad
    padchar ←
        argument padchar_string (codes "padchar") parser.cmd_convert_hex_byte
          parser.cmd_get_hex_byte default_pad_char
    with_device device_string
    on_device (λ f. bdl_init_dev (stream_position f) blocksize header_pad padchar f)
    close

  -- The first command that the words match. `help` only prints.
  unfoldable pub dispatch : Bool → (List ℕ → Bool) → Command Data (Unit {0})
  unfolding command_open command_close command_clear command_validate command_read command_write
      command_init
  dispatch alone matches =
      if alone || matches (codes "help")
      then pure tt
      else if matches (codes "open")
      then command_open
      else if matches (codes "close")
      then command_close
      else if matches (codes "clear")
      then command_clear
      else if matches (codes "validate")
      then command_validate
      else if matches (codes "read")
      then command_read
      else if matches (codes "write")
      then command_write
      else if matches (codes "init")
      then command_init
      else fail 1

  -- `argv` begins with the name of the program. The status is 0 for `ok`.
  unfoldable pub bdl_interpret_command : List (List ℕ) → Command Data (Unit {0})
  unfolding dispatch
  bdl_interpret_command argv s =
      let (status, cmd_data) = parser.cmd_parse argv in
      let s' = record s { cmd_data = cmd_data } in
      if not (status == 0)
      then fail 1 s'
      else dispatch (length argv == 1) (parser.cmd_match cmd_data) s'
