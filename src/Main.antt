-- ===== src/Main.antt =====
-- src/bdl.c: the main program, which interprets its arguments and, after an `open`, the lines of the
-- standard input.
pub mod Words
pub mod Termination
use blockdevlogger.Base.{
  ℕ, zero, suc, ◌+◌, ◌-◌, Bool, true, false, ◌&&◌, ◌||◌, not, Option, none, some, List, [], ◌∷◌,
  ◌++◌, ltb, leb, ◌==◌, if◌then◌else◌, length,
}
use blockdevlogger.Device.{File, Ret, ok, err, exit, out_of_fuel}
use blockdevlogger.Io.Open.{Os}
use blockdevlogger.Session.{Session, bdl_init_session, bdl_close_session}
use blockdevlogger.Interface.{bdl_interpret_command}
use blockdevlogger.Interface.State.{Parser, Shell}

-- BDL_MAXIMUM_CMDLINE_LENGTH of src/lib/defaults.h.
abbrev pub maximum_cmdline_length : ℕ
maximum_cmdline_length = 4096

-- CMD_MAXIMUM_CMDLINE_ARGS of configure.ac.
abbrev pub maximum_cmdline_args : ℕ
maximum_cmdline_args = 8

-- The letters that end a command: line feed, carriage return and NUL.
abbrev pub is_end : ℕ → Bool
is_end letter = letter == 10 || (letter == 13 || letter == 0)

-- What the loop over the letters comes to: a command, with what follows it; the end of the input; or a
-- command that is too long.
pub data Line : Type 0 where
  command : List ℕ → List ℕ → Line
  end_of_input : Line
  too_long : Line

-- The loop over the letters. `cmdline` holds the letters so far, at most 4093. At the end of the input
-- `getchar` gives EOF, which counts as one letter more, and the loop ends.
pub read_letters : List ℕ → List ℕ → Line
read_letters cmdline [] =
    if length cmdline + 1 == maximum_cmdline_length - 2 then too_long else end_of_input
read_letters cmdline (letter ∷ input) = elim (is_end letter && ltb 0 (length cmdline)) [
  | true ↦ command cmdline input
  | false ↦ elim (is_end letter) [
    | true ↦ read_letters cmdline input
    | false ↦ elim (length cmdline + 1 == maximum_cmdline_length - 2) [
      | true ↦ too_long
      | false ↦ read_letters (cmdline ++ letter ∷ []) input
    ]
  ]
]

-- The words of a command, to which a space has been added at its end. Each space ends a word: the
-- loop that should skip more of them looks at a letter that has just been set to NUL.
pub words_from : List ℕ → List ℕ → List (List ℕ)
words_from word [] = []
words_from word (letter ∷ cmdline) =
    if letter == b' '
    then word ∷ words_from [] cmdline
    else words_from (word ++ letter ∷ []) cmdline

pub words : List ℕ → List (List ℕ)
words cmdline = words_from [] (cmdline ++ b' ' ∷ [])

module _ {Data : Type 0} (parser : Parser Data) (os : Os) (now : ℕ) (stream_position : File → ℕ)
    (program_name : List ℕ) where
  pub interpret : List (List ℕ) → Shell Data → Ret (Unit {0}) × Shell Data
  interpret = bdl_interpret_command parser os now stream_position

  -- What a round of the loop comes to: the status to return, or another round with the rest of the
  -- input; `none` is the end of the program, or of the fuel.
  pub data Round : Type 0 where
    return_status : ℕ → Shell Data → Round
    again : List ℕ → Shell Data → Round
    ended : Ret (Unit {0}) → Shell Data → Round

  -- The end of a command: status 1 ends the loop, and so does a session without users.
  pub after_command : List ℕ → Ret (Unit {0}) × Shell Data → Round
  after_command input (ok a, s) =
      if s.session.usercount == 0 then return_status 0 s else again input s
  after_command input (err c, s) = return_status 1 s
  after_command input (exit, s) = ended exit s
  after_command input (out_of_fuel, s) = ended out_of_fuel s

  -- A round, from the line that it has read on.
  pub round_of : ℕ → Shell Data → Line → Round
  unfolding interpret after_command
  round_of ret s (command cmdline rest) =
      if ltb maximum_cmdline_args (length (words cmdline) + 1)
      then return_status 1 s
      else after_command rest (interpret (program_name ∷ words cmdline) s)
  round_of ret s end_of_input = return_status ret s
  round_of ret s too_long = return_status 1 s

  pub round : List ℕ → ℕ → Shell Data → Round
  unfolding round_of
  round input ret s = round_of ret s (read_letters [] input)

  -- The loop over the commands, and its status. `ret` is the status so far.
  pub main_loop : ℕ → List ℕ → ℕ → Shell Data → Ret ℕ × Shell Data
  main_loop zero input ret s = (out_of_fuel, s)
  main_loop (suc fuel) input ret s = elim (s.session.usercount == 0) [
    | true ↦ (ok ret, s)
    | false ↦ elim (round input ret s) [
      | return_status status s' ↦ (ok status, s')
      | again rest s' ↦ main_loop fuel rest 0 s'
      | ended r s' ↦ elim r [
        | ok a ↦ (exit, s')
        | err c ↦ (exit, s')
        | exit ↦ (exit, s')
        | out_of_fuel ↦ (out_of_fuel, s')
      ]
    ]
  ]

  -- The sessions that are left are closed; a status of 1 tells that there were any.
  pub close_all : ℕ → Session → Session
  close_all zero session = session
  close_all (suc users) session = elim (bdl_close_session session) [
    | none ↦ session
    | some session' ↦ close_all users session'
  ]

  -- The status of the program from that of the commands: EXIT_FAILURE is 1.
  pub finish : Ret ℕ × Shell Data → Ret ℕ × Session
  finish (ok ret, s) =
      let users = s.session.usercount in
      (ok (if ret == 0 && users == 0 then 0 else 1), close_all users s.session)
  finish (err c, s) = (ok 1, s.session)
  finish (exit, s) = (exit, s.session)
  finish (out_of_fuel, s) = (out_of_fuel, s.session)

  -- The status after the first command, and the loop if that has opened a device.
  pub continue_with : List ℕ → Ret (Unit {0}) × Shell Data → Ret ℕ × Session
  unfolding finish
  continue_with stdin (ok a, s) =
      finish
        (if s.session.usercount == 0 then (ok 0, s) else main_loop (length stdin + 2) stdin 1 s)
  continue_with stdin (err c, s) =
      finish
        (if s.session.usercount == 0 then (ok c, s) else main_loop (length stdin + 2) stdin 1 s)
  continue_with stdin (exit, s) = (exit, s.session)
  continue_with stdin (out_of_fuel, s) = (out_of_fuel, s.session)

  -- `argv` begins with the name of the program.
  pub main : List (List ℕ) → List ℕ → Shell Data → Ret ℕ × Session
  unfolding continue_with interpret
  main arguments stdin s =
      continue_with stdin
        (interpret (program_name ∷ arguments) (record s { session = bdl_init_session s.session }))
