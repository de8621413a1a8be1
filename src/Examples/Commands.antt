-- ===== src/Examples/Commands.antt =====
-- The theorems on sessions, commands and the main program at concrete inputs.
use blockdevlogger.Base.{
  inr, ◌==◌, ◌*◌, ◌≡◌, Bool, true, false, none, some, List, [], ◌∷◌, codes, arith,
}
use blockdevlogger.Io.Open.{Os, FileKind, io_open, io_get_file_size, custom_size, split_at_sign}
use blockdevlogger.Io.Open.Size.{
  IsWithin, io_open-IsWithin, AllDigits, decimal, StartsNoDigit, unit_exponent, custom_size-decimal,
}
use blockdevlogger.Session.{Session}
use blockdevlogger.Session.Refinement.{Call, run, run_users, seen, users_of, run_refines}
use blockdevlogger.Interface.{bdl_interpret_command}
use blockdevlogger.Interface.State.{Parser, Shell}
use blockdevlogger.Interface.Steps.{Effect, effect, effect_of, IsStep, bdl_interpret_command-IsStep}
use blockdevlogger.Main.{words}
use blockdevlogger.Main.Words.{joined, AllWords, words-joined}
use blockdevlogger.Examples.{host, device}

-- A system with one regular file of 512 MiB, which it maps.
abbrev os : Os
os = record {
  fopen = λ path. some (host, (λ a. 0));
  stat = λ path. some FileKind.regular;
  ioctl = λ path. none;
  seek_end = λ path. true;
  ftell = λ path. 512 * 1024 * 1024;
  mmap = λ path size. some 4096;
}

abbrev session : Session
session = record { device = device; usercount = 0 }

io_open-IsWithin_example :
    IsWithin
      (io_get_file_size os (split_at_sign (codes "log@1M")).0)
      (io_open os (codes "log@1M") false)
io_open-IsWithin_example = io_open-IsWithin os (codes "log@1M") false

-- 17179869185 GiB are 2^64 bytes and 1 GiB, which wrap to 1 GiB.
custom_size-decimal_example : custom_size (codes "17179869185g") ≡ some 1073741824
unfolding AllDigits decimal StartsNoDigit unit_exponent
custom_size-decimal_example =
    custom_size-decimal b'1' (codes "7179869185") (codes "g") (omega arith) (omega arith)
      (inr (omega arith))

abbrev calls : List Call
calls =
    Call.start (some (codes "log")) false
    ∷ Call.start none false
    ∷ Call.start (some (codes "other")) false
    ∷ Call.close
    ∷ Call.close
    ∷ []

run_refines_example : seen (run os calls session) ≡ run_users os calls (users_of session)
run_refines_example = run_refines os calls session

words-joined_example :
    (joined (words (codes "read  limit=3")) ≡ codes "read  limit=3 ")
    × AllWords (words (codes "read  limit=3"))
words-joined_example = words-joined (codes "read  limit=3")

-- A parser that finds every command to be `open` with the device "log"; it keeps nothing.
abbrev parser : Parser (Unit {0})
parser = record {
  cmd_parse = λ argv. (0, tt);
  cmd_match = λ d word. elim word as (λ x. Bool) [ [] ↦ false | c ∷ rest ↦ c == b'o' ];
  cmd_convert_hex_64 = λ d key. (0, tt);
  cmd_convert_hex_byte = λ d key. (0, tt);
  cmd_convert_integer_10 = λ d key. (0, tt);
  cmd_convert_uint64_10 = λ d key. (0, tt);
  cmd_get_hex_byte = λ d key. (0, tt);
  cmd_get_hex_64 = λ d key. (0, tt);
  cmd_get_integer = λ d key. (0, tt);
  cmd_get_uint64 = λ d key. (0, tt);
  cmd_get_last_argument = λ d. (none, tt);
  cmd_get_value = λ d key. (some (codes "log"), tt);
  cmd_check_all_args_used = λ d. 0;
}

abbrev shell : Shell (Unit {0})
shell = record { cmd_data = tt; session = session; printed = [] }

bdl_interpret_command-IsStep_example :
    IsStep Effect.opens 0
      (bdl_interpret_command parser os 1000 (λ f. 0) (codes "bdl" ∷ codes "open" ∷ []) shell).0
      (bdl_interpret_command parser os 1000 (λ f. 0) (codes "bdl" ∷ codes "open" ∷ []) shell).1
unfolding effect effect_of
bdl_interpret_command-IsStep_example =
    bdl_interpret_command-IsStep parser os 1000 (λ f. 0) (codes "bdl" ∷ codes "open" ∷ []) shell
