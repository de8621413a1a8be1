-- ===== src/Interface/Steps.antt =====
-- src/lib/interface.c: what any command does to the number of users of the session.
use blockdevlogger.Base.{
  ℕ, suc, ◌-◌, ◌≡◌, refl, sym, ap, ◌∙◌, inl, inr, Bool, true, false, ◌||◌, Bool-cases, not, Option,
  none, some, List, ◌==◌, if◌then◌else◌, length, codes, arith,
}
use blockdevlogger.Device.{File, Ret, ok, err, exit, out_of_fuel}
use blockdevlogger.Io.Open.{Os}
use blockdevlogger.Interface.State.{Parser, Shell, Command, pure, fail, ◌>>◌, fail_if, start, close}
use blockdevlogger.Interface.{
  value, check_all_args_used, open_path, command_open, command_close, dispatch,
  bdl_interpret_command,
}
use blockdevlogger.Interface.Users.{
  Ended, Moves, Moves-bind, Moves-fail_if, Moves-start, Moves-close,
}
use blockdevlogger.Interface.NoLeak.{
  Moves-command_clear, Moves-command_validate, Moves-command_read, Moves-command_write,
  Moves-command_init,
}

-- What a command promises of the users of the session, by its name.
pub data Effect : Type 0 where
  keeps : Effect
  opens : Effect
  closes : Effect
  refused : Effect

-- The words of the command line say which command it is. No command at
-- all, or `help`, only prints.
unfoldable pub effect_of : Bool → (List ℕ → Bool) → Effect
effect_of alone matches =
    if alone || matches (codes "help")
    then keeps
    else if matches (codes "open")
    then opens
    else if matches (codes "close")
    then closes
    else if matches (codes "clear")
    then keeps
    else if matches (codes "validate")
    then keeps
    else if matches (codes "read")
    then keeps
    else if matches (codes "write")
    then keeps
    else if matches (codes "init")
    then keeps
    else refused

-- A command line that the parser refuses is no command.
unfoldable pub effect : {Data : Type 0} → Parser Data → List (List ℕ) → Effect
effect parser argv =
    if not ((parser.cmd_parse argv).0 == 0)
    then refused
    else effect_of (length argv == 1) (parser.cmd_match (parser.cmd_parse argv).1)

-- From `n` users: `keeps` succeeds with as many, `opens` from none with one, `closes` with one less, and
-- `refused` fails with status 1. What fails keeps the number; `exit` ends the program.
abbrev pub IsStep : {Data : Type 0} → Effect → ℕ → Ret (Unit {0}) → Shell Data → Type 0
IsStep keeps n (ok a) s = s.session.usercount ≡ n
IsStep opens n (ok a) s = (n ≡ 0) × (s.session.usercount ≡ 1)
IsStep closes n (ok a) s = suc s.session.usercount ≡ n
IsStep refused n (ok a) s = ⊥
IsStep keeps n (err c) s = s.session.usercount ≡ n
IsStep opens n (err c) s = s.session.usercount ≡ n
IsStep closes n (err c) s = s.session.usercount ≡ n
IsStep refused n (err c) s = (c ≡ 1) × (s.session.usercount ≡ n)
IsStep keeps n exit s = Unit
IsStep opens n exit s = Unit
IsStep closes n exit s = Unit
IsStep refused n exit s = ⊥
IsStep keeps n out_of_fuel s = Unit
IsStep opens n out_of_fuel s = Unit
IsStep closes n out_of_fuel s = Unit
IsStep refused n out_of_fuel s = ⊥

module _ {Data : Type 0} (parser : Parser Data) (os : Os) (now : ℕ) (stream_position : File → ℕ)
    (n : ℕ) where
  Steps : Effect → Command Data (Unit {0}) → Type 0
  Steps e m = (s : Shell Data) → s.session.usercount ≡ n → IsStep e n (m s).0 (m s).1

  kept : (r : Ret (Unit {0})) (s : Shell Data) → Ended n n r s → IsStep keeps n r s
  kept (ok a) s h = h
  kept (err c) s h = h
  kept exit s h = tt
  kept out_of_fuel s h = tt

  Moves-Steps : (m : Command Data (Unit {0})) → Moves n n n m → Steps keeps m
  unfolding Steps
  Moves-Steps m h s at = kept (m s).0 (m s).1 (h s at)

  first : (r : Ret (Unit {0})) (s : Shell Data) → n ≡ 0 → Ended n 1 r s → IsStep opens n r s
  first (ok a) s z h = (z, h)
  first (err c) s z h = h
  first exit s z h = tt
  first out_of_fuel s z h = tt

  -- What would leave no user and would leave one does not succeed.
  fails : (r : Ret (Unit {0})) (s : Shell Data) → Ended n 0 r s → Ended n 1 r s → IsStep opens n r s
  fails (ok a) s h h' = absurd (omega (arith, h, h'))
  fails (err c) s h h' = h
  fails exit s h h' = tt
  fails out_of_fuel s h h' = tt

  taken :
      (r : Ret (Unit {0})) (s : Shell Data) (a : ℕ)
      → suc a ≡ n
      → Ended n a r s
      → IsStep closes n r s
  taken (ok u) s a e h = ap suc h ∙ e
  taken (err c) s a e h = h
  taken exit s a e h = tt
  taken out_of_fuel s a e h = tt

  -- A session without users is opened.
  opens_session :
      (path : List ℕ)
      → n ≡ 0
      → Moves {Data = Data} n n 1
          ((λ s. fail_if (not (s.session.usercount == 0)) s) >> start os (some path))
  opens_session path z =
      Moves-bind n n n 1 (λ s. fail_if (not (s.session.usercount == 0)) s)
        (λ u. start os (some path)) (λ s at. Moves-fail_if n _ s at)
        (λ u. rw z (Moves-start os (some path) 0))

  -- A session with users is not.
  refuses :
      (b : ℕ) (path : List ℕ)
      → (n == 0) ≡ false
      → Moves {Data = Data} n n b
          ((λ s. fail_if (not (s.session.usercount == 0)) s) >> start os (some path))
  refuses b path some_user s at =
      let test : not (s.session.usercount == 0) ≡ true =
        ap (λ k. not (k == 0)) at ∙ ap not some_user in
      rw test at

  -- What an `open` does, if it can be done from the check of the session on.
  Moves-open :
      (b : ℕ)
      → ((path : List ℕ)
          → Moves {Data = Data} n n b
              ((λ s. fail_if (not (s.session.usercount == 0)) s) >> start os (some path)))
      → Moves n n b (command_open parser os now stream_position)
  unfolding command_open open_path value check_all_args_used
  Moves-open b h =
      Moves-bind n n n b (value parser os now stream_position (codes "dev"))
        (open_path parser os now stream_position) (λ s at. at) opens_path
    where
      opens_path :
          (text : Option (List ℕ)) → Moves n n b (open_path parser os now stream_position text)
      opens_path none = λ s at. at
      opens_path (some path) =
          Moves-bind n n n b (check_all_args_used parser os now stream_position)
            (λ u. (λ s. fail_if (not (s.session.usercount == 0)) s) >> start os (some path))
            (λ s at. Moves-fail_if n _ s at) (λ u. h path)

  open-Steps : Steps opens (command_open parser os now stream_position)
  unfolding Steps
  open-Steps s at =
      let r = command_open parser os now stream_position s in
      elim (Bool-cases (n == 0)) [
        | inl no_user ↦
            let z : n ≡ 0 = ground (arith, no_user) in
            first r.0 r.1 z (Moves-open 1 (λ path. opens_session path z) s at)
        | inr some_user ↦
            fails r.0 r.1 (Moves-open 0 (λ path. refuses 0 path some_user) s at)
              (Moves-open 1 (λ path. refuses 1 path some_user) s at)
      ]

  close-Steps : Steps closes (command_close parser os now stream_position)
  unfolding Steps command_close
  close-Steps s at = elim (Bool-cases (s.session.usercount == 0)) [
    | inl no_user ↦ rw no_user at
    | inr some_user ↦
        let one_less : suc (s.session.usercount - 1) ≡ s.session.usercount =
          ground (arith, some_user) in
        rw some_user (
          taken (close s).0 (close s).1 (s.session.usercount - 1) (one_less ∙ at)
            (Moves-close n (s.session.usercount - 1) s (sym one_less)))
  ]

  dispatch-Steps :
      (alone : Bool) (matches : List ℕ → Bool)
      → Steps (effect_of alone matches) (dispatch parser os now stream_position alone matches)
  unfolding Steps dispatch effect_of
  dispatch-Steps alone matches =
      either (alone || matches (codes "help")) keeps _ (pure tt) _ (λ s at. at)
        (either (matches (codes "open")) opens _ _ _ open-Steps (
          either (matches (codes "close")) closes _ _ _ close-Steps (
            either (matches (codes "clear")) keeps _ _ _
              (of _ (Moves-command_clear parser os now stream_position n))
              (either (matches (codes "validate")) keeps _ _ _
                (of _ (Moves-command_validate parser os now stream_position n))
                (either (matches (codes "read")) keeps _ _ _
                  (of _ (Moves-command_read parser os now stream_position n))
                  (either (matches (codes "write")) keeps _ _ _
                    (of _ (Moves-command_write parser os now stream_position n))
                    (either (matches (codes "init")) keeps refused _ (fail 1)
                      (of _ (Moves-command_init parser os now stream_position n))
                      (λ s at. (refl, at)))))))))
    where
      either :
          (b : Bool) (e e' : Effect) (m k : Command Data (Unit {0}))
          → Steps e m
          → Steps e' k
          → Steps (if b then e else e') (if b then m else k)
      either true e e' m k h h' = h
      either false e e' m k h h' = h'

      of : (m : Command Data (Unit {0})) → Moves n n n m → Steps keeps m
      of m h = Moves-Steps m h

-- A command line that is refused, or names no command, fails with status 1. An `open` succeeds only
-- where the session has no user, and leaves one; a `close` that succeeds takes one away; every other
-- command that succeeds, so each that works on a device, leaves as many users as it found. A command
-- that fails leaves as many as it found.
pub bdl_interpret_command-IsStep :
    {Data : Type 0} (parser : Parser Data) (os : Os) (now : ℕ) (stream_position : File → ℕ)
    (argv : List (List ℕ)) (s : Shell Data)
    → IsStep
        (effect parser argv)
        s.session.usercount
        (bdl_interpret_command parser os now stream_position argv s).0
        (bdl_interpret_command parser os now stream_position argv s).1
unfolding bdl_interpret_command Steps effect
bdl_interpret_command-IsStep parser os now stream_position argv s =
    elim (Bool-cases (not ((parser.cmd_parse argv).0 == 0))) [
      | inl bad ↦ rw bad (refl, refl)
      | inr good ↦ rw good (
          dispatch-Steps parser os now stream_position s.session.usercount (length argv == 1)
            (parser.cmd_match (parser.cmd_parse argv).1)
            (record s { cmd_data = (parser.cmd_parse argv).1 }) refl)
    ]
