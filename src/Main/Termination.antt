-- ===== src/Main/Termination.antt =====
-- src/bdl.c: the loop over the commands ends.
use blockdevlogger.Base.{ℕ, ◌<◌, ◌≡◌, List, length}
use blockdevlogger.Device.{File, Ret, ok, err, exit, out_of_fuel}
use blockdevlogger.Io.Open.{Os}
use blockdevlogger.Interface.{bdl_interpret_command}
use blockdevlogger.Interface.State.{Parser, Shell}
use blockdevlogger.Main.{Line, Round}

-- A line leaves less input than there was.
abbrev pub Leaves : ℕ → Line → Type 0
Leaves n (Line.command cmdline rest) = length rest < n
Leaves n Line.end_of_input = Unit
Leaves n Line.too_long = Unit

-- A result that is not for want of fuel, unless `S` holds.
abbrev pub EndsOr : {A : Type 0} → Type 0 → Ret A → Type 0
EndsOr S (ok a) = Unit
EndsOr S (err c) = Unit
EndsOr S exit = Unit
EndsOr S out_of_fuel = S

module _ {Data : Type 0} (parser : Parser Data) (os : Os) (now : ℕ)
    (stream_position : File → ℕ) where
  -- A shell that commands come to from `start`, one after the other.
  pub data ComesFrom (start : Shell Data) : Shell Data → Type 0 where
    begins : ComesFrom start start
    goes :
        (argv : List (List ℕ)) (s : Shell Data)
        → ComesFrom start s
        → ComesFrom start (bdl_interpret_command parser os now stream_position argv s).1

  -- A command, in a shell that others came to, has a loop that does not end.
  pub SomeRunsOut : Shell Data → Type 0
  SomeRunsOut start =
      (argv : List (List ℕ)) × (s : Shell Data) × ComesFrom start s
      × ((bdl_interpret_command parser os now stream_position argv s).0 ≡ out_of_fuel)

module _ {Data : Type 0} (parser : Parser Data) (os : Os) (now : ℕ) (stream_position : File → ℕ)
    (program_name : List ℕ) (start : Shell Data) where
  abbrev Outcome : {A : Type 0} → Ret A → Type 0
  Outcome r = EndsOr (SomeRunsOut parser os now stream_position start) r

  abbrev Comes : Shell Data → Type 0
  Comes s = ComesFrom parser os now stream_position start s

  -- A round returns a status, or leaves less input, or ends the program.
  RoundLeaves : ℕ → Round parser os now stream_position program_name → Type 0
  RoundLeaves n (Round.return_status status s) = Unit
  RoundLeaves n (Round.again input s) = (length input < n) × Comes s
  RoundLeaves n (Round.ended r s) = Outcome r

  -- What the loop makes of a round.
  abbrev of_round :
      (List ℕ → Shell Data → Ret ℕ × Shell Data)
      → Round parser os now stream_position program_name
      → Ret ℕ × Shell Data
  of_round go r = elim r as (λ x. Ret ℕ × Shell Data) [
    | Round.return_status status s' ↦ (ok status, s')
    | Round.again rest s' ↦ go rest s'
    | Round.ended r s' ↦ elim r as (λ x. Ret ℕ × Shell Data) [
      | ok a ↦ (exit, s')
      | err c ↦ (exit, s')
      | exit ↦ (exit, s')
      | out_of_fuel ↦ (out_of_fuel, s')
    ]
  ]
