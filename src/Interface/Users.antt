-- ===== src/Interface/Users.antt =====
-- src/lib/interface.c: what the commands do to the number of users of the session.
use blockdevlogger.Base.{
  ℕ, zero, suc, ◌-◌, ◌≡◌, refl, sym, subst, ap, ◌∙◌, ◌⊎◌, inl, inr, Bool, true, false, Option, none,
  some, List, ltb, ◌==◌, arith,
}
use blockdevlogger.Device.{File, Ret, ok, err, exit, out_of_fuel, M}
use blockdevlogger.Io.Open.{Os, io_open}
use blockdevlogger.Session.{Session, bdl_start_session, bdl_close_session}
use blockdevlogger.Interface.State.{
  Shell, Command, fail, ◌>>=◌, and_then, fail_if, start, close, close_after, on_device,
}

-- A start adds a user, or fails and adds none.
started :
    (os : Os) (device : File) (users : ℕ) (path : Option (List ℕ))
    → let r = bdl_start_session os (record { device = device; usercount = users }) path false in
      (r.0 ≡ 0) × ((r.1).usercount ≡ suc users) ⊎ (r.0 ≡ 1) × ((r.1).usercount ≡ users)
unfolding bdl_start_session
started os device zero none = inr (refl, refl)
started os device zero (some path) =
    elim (io_open os path false)
      as (λ r.
        let r' = elim r as (λ x. ℕ × Session) [
          | none ↦ (1, record { device = device; usercount = 0 })
          | some opened_device ↦ (0, record { device = opened_device; usercount = 1 })
        ] in
        (r'.0 ≡ 0) × ((r'.1).usercount ≡ 1) ⊎ (r'.0 ≡ 1) × ((r'.1).usercount ≡ 0)) [
          | none ↦ inr (refl, refl)
          | some d ↦ inl (refl, refl)
        ]
started os device (suc more) none =
    let test : ltb 0 (suc more) ≡ true = ground arith in rw test (inl (refl, omega arith))
started os device (suc more) (some path) =
    let test : ltb 0 (suc more) ≡ true = ground arith in rw test (inr (refl, refl))

-- A close takes away a user that there is.
closed :
    (device : File) (a : ℕ)
    → (session : Session) × (bdl_close_session (record { device = device; usercount = suc a })
        ≡ some session)
      × (session.usercount ≡ a)
unfolding bdl_close_session
closed device zero = (_, refl, refl)
closed device (suc more) =
    let rest : suc (suc more) - 1 ≡ suc more = omega arith in
    let test : (suc (suc more) == 0) ≡ false = ground arith in
    let test' : (suc more == 0) ≡ false = ground arith in
    (record { device = device; usercount = suc more }, rw (test, rest, test') refl, refl)

module _ {Data : Type 0} where
  -- The number of users after a command that succeeds is `b`, and after one that fails `e`.
  abbrev pub Ended : {A : Type 0} → ℕ → ℕ → Ret A → Shell Data → Type 0
  Ended e b (ok a) s = s.session.usercount ≡ b
  Ended e b (err c) s = s.session.usercount ≡ e
  Ended e b exit s = Unit
  Ended e b out_of_fuel s = Unit

  -- From `a` users a command comes to `b` users where it succeeds, and to `e` where it fails.
  abbrev pub Moves : {A : Type 0} → ℕ → ℕ → ℕ → Command Data A → Type 0
  Moves e a b m = (s : Shell Data) → s.session.usercount ≡ a → Ended e b (m s).0 (m s).1

  bind_next :
      {A : Type 0} {B : Type 0} (e b c : ℕ) (k : A → Command Data B) (r : Ret A) (s : Shell Data)
      → ((x : A) → Moves e b c (k x))
      → Ended e b r s
      → Ended e c (and_then k r s).0 (and_then k r s).1
  bind_next e b c k (ok x) s h g = h x s g
  bind_next e b c k (err x) s h g = g
  bind_next e b c k exit s h g = tt
  bind_next e b c k out_of_fuel s h g = tt

  pub Moves-bind :
      {A : Type 0} {B : Type 0} (e a b c : ℕ) (m : Command Data A) (k : A → Command Data B)
      → Moves e a b m
      → ((x : A) → Moves e b c (k x))
      → Moves e a c (m >>= k)
  Moves-bind e a b c m k h h' s at = bind_next e b c k (m s).0 (m s).1 h' (h s at)

  pub Moves-fail_if : (e : ℕ) (b : Bool) → Moves e e e (fail_if b)
  Moves-fail_if e true s at = at
  Moves-fail_if e false s at = at

  pub Moves-start : (os : Os) (path : Option (List ℕ)) (a : ℕ) → Moves a a (suc a) (start os path)
  Moves-start os path a s at =
      let r = bdl_start_session os s.session path false in
      elim (started os s.session.device s.session.usercount path) [
        | inl (fine, more) ↦
            let test : (r.0 == 0) ≡ true = ground (arith, fine) in rw test (omega (arith, more, at))
        | inr (bad, same) ↦
            let test : (r.0 == 0) ≡ false = ground (arith, bad) in rw test (same ∙ at)
      ]

  pub Moves-close : (e a : ℕ) → Moves e (suc a) a close
  Moves-close e a s at =
      let (session, closes, left) = closed s.session.device a in
      let closes' : bdl_close_session s.session ≡ some session =
        ap (λ n. bdl_close_session (record { device = s.session.device; usercount = n })) at
        ∙ closes in
      subst
        (λ o.
          let r = elim o as (λ x. Ret (Unit {0}) × Shell Data) [
            | none ↦ (exit, s)
            | some session' ↦ (ok tt, record s { session = session' })
          ] in
          Ended e a r.0 r.1)
        (sym closes') left

  close_failed :
      {A : Type 0} (a : ℕ) (r : Ret A) (s : Shell Data)
      → s.session.usercount ≡ suc a
      → Ended a (suc a) (close_after r s).0 (close_after r s).1
  close_failed a (ok x) s at = at
  close_failed {A = A} a (err x) s at =
      bind_next {A = Unit {0}} {B = A} a a (suc a) (λ u. fail 1) (close s).0 (close s).1
        (λ u s' at'. at') (Moves-close a a s at)
  close_failed a exit s at = tt
  close_failed a out_of_fuel s at = tt

  -- A call on the device keeps the user, or takes it away where it fails.
  pub Moves-on_device : {A : Type 0} (call : M A) (a : ℕ) → Moves a (suc a) (suc a) (on_device call)
  Moves-on_device call a s at =
      close_failed a (call s.session.device).0
        (record s { session = record (s.session) { device = (call s.session.device).1 } }) at
