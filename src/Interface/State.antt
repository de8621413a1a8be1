-- ===== src/Interface/State.antt =====
-- What src/lib/interface.c works on: the session and the parsed command line. The functions of
-- src/cmdlineparser/cmdline.h are a parameter, since they are another project's.
use blockdevlogger.Base.{ℕ, Option, none, some, List, ◌++◌}
use blockdevlogger.Device.{Ret, ok, err, exit, out_of_fuel, M}
use blockdevlogger.Session.{Session, bdl_start_session, bdl_close_session}
use blockdevlogger.Io.Open.{Os}
use blockdevlogger.Read.{Dump}
use blockdevlogger.Base.{Bool, false, true, if◌then◌else◌, ◌==◌}

-- The functions that the program calls, over the `struct cmd_data` that they keep. Statuses are 0 for
-- success, signed numbers are 64-bit patterns, and a NULL is `none`.
pub record Parser (Data : Type 0) : Type 0 where
  pub cmd_parse : List (List ℕ) → ℕ × Data
  pub cmd_match : Data → List ℕ → Bool
  pub cmd_convert_hex_64 : Data → List ℕ → ℕ × Data
  pub cmd_convert_hex_byte : Data → List ℕ → ℕ × Data
  pub cmd_convert_integer_10 : Data → List ℕ → ℕ × Data
  pub cmd_convert_uint64_10 : Data → List ℕ → ℕ × Data
  pub cmd_get_hex_byte : Data → List ℕ → ℕ × Data
  pub cmd_get_hex_64 : Data → List ℕ → ℕ × Data
  pub cmd_get_integer : Data → List ℕ → ℕ × Data
  pub cmd_get_uint64 : Data → List ℕ → ℕ × Data
  pub cmd_get_last_argument : Data → Option (List ℕ) × Data
  pub cmd_get_value : Data → List ℕ → Option (List ℕ) × Data
  pub cmd_check_all_args_used : Data → ℕ

-- `printed` is what reads have printed.
pub record Shell (Data : Type 0) : Type 0 where
  pub cmd_data : Data
  pub session : Session
  pub printed : List Dump

abbrev pub Command : Type 0 → Type 0 → Type 0
Command Data A = Shell Data → Ret A × Shell Data

module _ {Data : Type 0} where
  abbrev pub pure : {A : Type 0} → A → Command Data A
  pure a s = (ok a, s)

  abbrev pub fail : {A : Type 0} → ℕ → Command Data A
  fail c s = (err c, s)

  abbrev pub and_then : {A : Type 0} {B : Type 0} → (A → Command Data B) → Ret A → Command Data B
  and_then k (ok a) s = k a s
  and_then k (err c) s = (err c, s)
  and_then k exit s = (exit, s)
  and_then k out_of_fuel s = (out_of_fuel, s)

  infixl 5 ◌>>=◌ ◌>>◌
  abbrev pub ◌>>=◌ :
      {A : Type 0} {B : Type 0} → Command Data A → (A → Command Data B) → Command Data B
  ◌>>=◌ m k s = let (r, s') = m s in and_then k r s'

  abbrev pub ◌>>◌ : {B : Type 0} → Command Data (Unit {0}) → Command Data B → Command Data B
  m >> k = m >>= λ _. k

  -- A call of the parser, which may note that an argument was used.
  abbrev pub ask : {A : Type 0} → (Data → A × Data) → Command Data A
  ask call s = let (a, cmd_data) = call s.cmd_data in (ok a, record s { cmd_data = cmd_data })

  abbrev pub fail_if : Bool → Command Data (Unit {0})
  fail_if true = fail 1
  fail_if false = pure tt

  -- The status of a call for a session: 0, or the command fails.
  abbrev pub start : Os → Option (List ℕ) → Command Data (Unit {0})
  start os path s =
      let (result, session) = bdl_start_session os s.session path false in
      (if result == 0 then ok tt else err 1, record s { session = session })

  abbrev pub close : Command Data (Unit {0})
  close s = elim (bdl_close_session s.session) [
    | none ↦ (exit, s)
    | some session ↦ (ok tt, record s { session = session })
  ]

  -- A call on the device of the session, which is closed where the call fails, as the command does.
  abbrev pub close_after : {A : Type 0} → Ret A → Command Data A
  close_after (ok a) s = (ok a, s)
  close_after (err c) s = and_then (λ x. fail 1) (close s).0 (close s).1
  close_after exit s = (exit, s)
  close_after out_of_fuel s = (out_of_fuel, s)

  abbrev pub on_device : {A : Type 0} → M A → Command Data A
  on_device call s =
      let (r, device) = call s.session.device in
      close_after r (record s { session = record (s.session) { device = device } })

  abbrev pub print : List Dump → Command Data (Unit {0})
  print dumps s = (ok tt, record s { printed = s.printed ++ dumps })
