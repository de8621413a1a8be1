-- ===== src/Io/Open.antt =====
-- src/lib/io.c: opening a device, with the size that may stand behind an `@` in its path.
pub mod Size
use blockdevlogger.Base.{
  ℕ, ◌+◌, ◌-◌, ◌*◌, ◌%◌, ◌^◌, Bool, true, false, ◌&&◌, ◌||◌, Option, none, some, List, [], ◌∷◌, ltb,
  leb, ◌==◌, if◌then◌else◌, min, u64,
}
use mathlib.Core.Option
use blockdevlogger.Device.{Host, File, Memory}

-- What `stat` says of the kind of a file.
pub data FileKind : Type 0 where
  block_device : FileKind
  regular : FileKind
  other : FileKind

-- What the system calls of `io_open` give for a path: `none`, or `false`, is a failure. `size` is what
-- `ioctl` or `ftell` tells, `mmap` the address of the map for a length.
pub record Os : Type 0 where
  pub fopen : List ℕ → Option (Host × Memory)
  pub stat : List ℕ → Option FileKind
  pub ioctl : List ℕ → Option ℕ
  pub seek_end : List ℕ → Bool
  pub ftell : List ℕ → ℕ
  pub mmap : List ℕ → ℕ → Option ℕ

pub io_get_file_size : Os → List ℕ → Option ℕ
io_get_file_size os filepath = elim (os.stat filepath) [
  | none ↦ none
  | some kind ↦ elim kind [
    | FileKind.block_device ↦ os.ioctl filepath
    | FileKind.regular ↦ if os.seek_end filepath then some (os.ftell filepath) else none
    | FileKind.other ↦ none
  ]
]

-- `strchr (path, '@')`: what stands before it, and behind it if it is there.
pub split_at_sign : List ℕ → List ℕ × Option (List ℕ)
split_at_sign [] = ([], none)
split_at_sign (c ∷ path) =
    if c == b'@'
    then ([], some path)
    else let (before, behind) = split_at_sign path in (c ∷ before, behind)

unfoldable pub is_digit : ℕ → Bool
is_digit c = leb b'0' c && leb c b'9'

-- The digits at the front as a number, and the rest.
unfoldable pub digits_from : ℕ → List ℕ → ℕ × List ℕ
digits_from n [] = (n, [])
digits_from n (c ∷ text) =
    if is_digit c then digits_from (n * 10 + (c - b'0')) text else (n, c ∷ text)

pub is_space : ℕ → Bool
is_space c = c == b' ' || (leb 9 c && leb c 13)

pub skip_spaces : List ℕ → List ℕ
skip_spaces [] = []
skip_spaces (c ∷ text) = if is_space c then skip_spaces text else c ∷ text

-- A number that is too large gives the largest one, and a minus sign negates the others.
pub as_unsigned_long : Bool → ℕ → ℕ
as_unsigned_long negative n =
    if leb (2 ^ 64) n then 0xffff_ffff_ffff_ffff else if negative then u64 (2 ^ 64 - n) else n

-- The digits if there is one at least.
pub signed_digits : Bool → List ℕ → Option (ℕ × List ℕ)
signed_digits negative [] = none
signed_digits negative (c ∷ text) =
    let (n, rest) = digits_from 0 (c ∷ text) in
    if is_digit c then some (as_unsigned_long negative n, rest) else none

-- `strtoul (text, &end, 10)`: the value and what `end` points to; `none` where it points to `text`.
pub strtoul : List ℕ → Option (ℕ × List ℕ)
strtoul text = elim (skip_spaces text) [
  | [] ↦ none
  | c ∷ rest ↦
      if c == b'-'
      then signed_digits true rest
      else if c == b'+'
      then signed_digits false rest
      else signed_digits false (c ∷ rest)
]

-- The multiplier that the first character stands for, and what follows it.
unfoldable pub multiplier : List ℕ → ℕ × List ℕ
multiplier [] = (1, [])
multiplier (c ∷ end) =
    if c == b'G' || c == b'g'
    then (1024 * 1024 * 1024, end)
    else if c == b'M' || c == b'm'
    then (1024 * 1024, end)
    else if c == b'K' || c == b'k'
    then (1024, end)
    else (1, c ∷ end)

-- The multiplied size, if nothing follows the multiplier. The product wraps.
pub multiplied : ℕ × List ℕ → Option ℕ
multiplied (size, end) =
    let (factor, rest) = multiplier end in
    elim rest [ [] ↦ some (u64 (size * factor)) | _ ∷ _ ↦ none ]

-- The size behind the `@`, as a number of bytes; `none` for each of the three syntax errors.
pub custom_size : List ℕ → Option ℕ
custom_size [] = none
custom_size (c ∷ text) = elim (strtoul (c ∷ text)) [ none ↦ none | some parsed ↦ multiplied parsed ]

-- The size that the file gets; `none` where a custom size is refused.
pub chosen_size : Option (List ℕ) → ℕ → Option ℕ
chosen_size none size = some size
chosen_size (some text) size = elim (custom_size text) [
  | none ↦ none
  | some custom ↦ if ltb size custom then none else some custom
]

-- The file with its map. A map that fails is no error.
pub mapped : Os → List ℕ → Bool → Host × Memory → ℕ → File
mapped os path no_mmap (host, contents) size = record {
  host = host;
  size = size;
  seek = 0;
  unsynced_write_bytes = 0;
  memorymap = if no_mmap then none else os.mmap path size;
  sync_queue = [];
  contents = contents;
  msynced = [];
}

-- The open file, or `none` for the status 1. `no_mmap` is an `int` that is 0 for `false`.
pub io_open : Os → List ℕ → Bool → Option File
io_open os path no_mmap =
    let (new_path, custom) = split_at_sign path in
    elim (os.fopen new_path) [
      | none ↦ none
      | some opened ↦ elim (io_get_file_size os new_path) [
        | none ↦ none
        | some size ↦ Option.map (mapped os new_path no_mmap opened) (chosen_size custom size)
      ]
    ]
