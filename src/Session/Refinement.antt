-- ===== src/Session/Refinement.antt =====
-- src/lib/session.c: what a session promises, as a device that is closed, or open with its users.
use blockdevlogger.Base.{
  ℕ, zero, suc, ◌+◌, ◌-◌, ◌≡◌, refl, ap, ap₂, ◌∙◌, subst, Bool, true, false, Option, none, some,
  List, [], ◌∷◌, ◌++◌, append-nil, sym, ltb, ◌==◌, if◌then◌else◌, arith,
}
use mathlib.Core.Option
use blockdevlogger.Device.{SyncEntry, File}
use blockdevlogger.Io.Open.{Os, io_open}
use blockdevlogger.Io.{io_close}
use blockdevlogger.Session.{Session, bdl_start_session, bdl_close_session}

-- A session as its users see it. The number is that of the users behind the first one; a session without
-- users has what the last close has left of its device.
pub data Users : Type 0 where
  closed : File → Users
  opened : File → ℕ → Users

-- The range that a mapped device occupies.
pub whole_map : File → List SyncEntry
whole_map device = elim device.memorymap [
  | none ↦ []
  | some base ↦ record { start_address = base; end_address = base + device.size } ∷ []
]

-- A device is closed behind its last user with everything it has mapped synced, and no byte changed.
pub synced_whole : File → File
synced_whole device = record device { msynced = device.msynced ++ whole_map device }

-- What a session stands for.
pub users_of : Session → Users
users_of session = elim session.usercount [
  | zero ↦ closed session.device
  | suc more ↦ opened session.device more
]

-- The status, and the users then.
pub start_users : Os → Users → Option (List ℕ) → Bool → ℕ × Users
start_users os (closed device) none no_mmap = (1, closed device)
start_users os (closed device) (some path) no_mmap = elim (io_open os path no_mmap) [
  | none ↦ (1, closed device)
  | some new_device ↦ (0, opened new_device 0)
]
start_users os (opened device more) none no_mmap = (0, opened device (suc more))
start_users os (opened device more) (some path) no_mmap = (1, opened device more)

pub close_users : Users → Option Users
close_users (closed device) = none
close_users (opened device zero) = some (closed (synced_whole device))
close_users (opened device (suc more)) = some (opened device more)

-- What a caller does: it starts with a path and a wish for no map, or it closes.
pub data Call : Type 0 where
  start : Option (List ℕ) → Bool → Call
  close : Call

abbrev pub then_status : {A : Type 0} → ℕ → Option (List ℕ × A) → Option (List ℕ × A)
then_status status none = none
then_status status (some (statuses, end)) = some (status ∷ statuses, end)

-- The statuses of a sequence of calls, and what they leave; `none` where the program ends.
pub run : Os → List Call → Session → Option (List ℕ × Session)
run os [] session = some ([], session)
run os (start path no_mmap ∷ calls) session =
    let (status, session') = bdl_start_session os session path no_mmap in
    then_status status (run os calls session')
run os (close ∷ calls) session = elim (bdl_close_session session) [
  | none ↦ none
  | some session' ↦ run os calls session'
]

pub run_users : Os → List Call → Users → Option (List ℕ × Users)
run_users os [] users = some ([], users)
run_users os (start path no_mmap ∷ calls) users =
    let (status, users') = start_users os users path no_mmap in
    then_status status (run_users os calls users')
run_users os (close ∷ calls) users = elim (close_users users) [
  | none ↦ none
  | some users' ↦ run_users os calls users'
]

-- A start does to the session what it does to its users.
start_refines :
    (os : Os) (device : File) (users : ℕ) (path : Option (List ℕ)) (no_mmap : Bool)
    → ((bdl_start_session os (record { device = device; usercount = users }) path no_mmap).0
        ≡ (start_users os
            (users_of (record { device = device; usercount = users }))
            path
            no_mmap).0)
      × (users_of
            (bdl_start_session os (record { device = device; usercount = users }) path no_mmap).1
          ≡ (start_users os
              (users_of (record { device = device; usercount = users }))
              path
              no_mmap).1)
unfolding bdl_start_session users_of start_users
start_refines os device zero none no_mmap = (refl, refl)
start_refines os device zero (some path) no_mmap =
    elim (io_open os path no_mmap)
      as (λ r.
        ((elim r as (λ x. ℕ × Session) [
          | none ↦ (1, record { device = device; usercount = 0 })
          | some opened_device ↦ (0, record { device = opened_device; usercount = 1 })
        ]).0
          ≡ (elim r as (λ x. ℕ × Users) [ none ↦ (1, closed device) | some d ↦ (0, opened d 0) ]).0)
        × (users_of
              (elim r as (λ x. ℕ × Session) [
                | none ↦ (1, record { device = device; usercount = 0 })
                | some opened_device ↦ (0, record { device = opened_device; usercount = 1 })
              ]).1
            ≡ (elim r as (λ x. ℕ × Users) [
              | none ↦ (1, closed device)
              | some d ↦ (0, opened d 0)
            ]).1)) [ none ↦ (refl, refl) | some d ↦ (refl, refl) ]
start_refines os device (suc more) none no_mmap =
    let more_users : suc more + 1 ≡ suc (suc more) = omega arith in
    let test : ltb 0 (suc more) ≡ true = ground arith in
    rw test (refl, ap (λ n. users_of (record { device = device; usercount = n })) more_users)
start_refines os device (suc more) (some path) no_mmap =
    let test : ltb 0 (suc more) ≡ true = ground arith in rw test (refl, refl)

closes_whole : (f : File) → (io_close f).1 ≡ synced_whole f
unfolding io_close synced_whole whole_map
closes_whole f = of_map f.memorymap
  where
    of_map :
        (o : Option ℕ)
        → (elim o as (λ x. ℕ × File) [
          | some base ↦
              let whole : SyncEntry = record {
                start_address = base;
                end_address = base + f.size;
              } in
              (if f.host.msync whole then 0 else 1, record f { msynced = f.msynced ++ whole ∷ [] })
          | none ↦ (0, f)
        ]).1
          ≡ record f {
            msynced = f.msynced ++ (elim o as (λ x. List SyncEntry) [
              | none ↦ []
              | some base ↦ record { start_address = base; end_address = base + f.size } ∷ []
            ]);
          }
    of_map none = ap (λ m. record f { msynced = m }) (sym (append-nil f.msynced))
    of_map (some base) = refl

-- A close does to the session what it does to its users; it ends the program for both or for none.
close_refines :
    (device : File) (users : ℕ)
    → Option.map users_of (bdl_close_session (record { device = device; usercount = users }))
      ≡ close_users (users_of (record { device = device; usercount = users }))
unfolding bdl_close_session users_of close_users
close_refines device zero = refl
close_refines device (suc zero) = ap (λ d. some (closed d)) (closes_whole device)
close_refines device (suc (suc more)) =
    let rest : suc (suc more) - 1 ≡ suc more = omega arith in
    let test : (suc (suc more) == 0) ≡ false = ground arith in
    let test' : (suc more == 0) ≡ false = ground arith in rw (test, rest, test') refl

-- What a run leaves, as its users see it.
abbrev pub seen : Option (List ℕ × Session) → Option (List ℕ × Users)
seen none = none
seen (some (statuses, session)) = some (statuses, users_of session)

seen-then_status :
    (status : ℕ) (o : Option (List ℕ × Session))
    → seen (then_status status o) ≡ then_status status (seen o)
seen-then_status status none = refl
seen-then_status status (some (statuses, end)) = refl

-- Any sequence of starts and closes gives the statuses, and ends or goes on, as the users of the
-- session say, and leaves a session with the users and the device that they say: opened for the first
-- user, kept while there are any, and with its whole map synced once the last one has closed it.
pub run_refines :
    (os : Os) (calls : List Call) (session : Session)
    → seen (run os calls session) ≡ run_users os calls (users_of session)
unfolding run run_users
run_refines os [] session = refl
run_refines os (start path no_mmap ∷ calls) session =
    let started = start_refines os session.device session.usercount path no_mmap in
    seen-then_status _ (run os calls (bdl_start_session os session path no_mmap).1)
    ∙ ap (then_status _) (run_refines os calls (bdl_start_session os session path no_mmap).1)
    ∙ ap₂ (λ status users. then_status status (run_users os calls users)) started.0 started.1
run_refines os (close ∷ calls) session =
    closes (bdl_close_session session) (close_users (users_of session))
      (close_refines session.device session.usercount) (run_refines os calls)
  where
    closes :
        (o : Option Session) (u : Option Users)
        → Option.map users_of o ≡ u
        → ((session' : Session)
            → seen (run os calls session') ≡ run_users os calls (users_of session'))
        → seen (elim o as (λ x. Option (List ℕ × Session)) [
          | none ↦ none
          | some session' ↦ run os calls session'
        ])
          ≡ (elim u as (λ x. Option (List ℕ × Users)) [
            | none ↦ none
            | some users' ↦ run_users os calls users'
          ])
    closes none u e rest =
        subst
          (λ v. seen none ≡ (elim v as (λ x. Option (List ℕ × Users)) [
            | none ↦ none
            | some users' ↦ run_users os calls users'
          ]))
          e refl
    closes (some session') u e rest =
        subst
          (λ v. seen (run os calls session') ≡ (elim v as (λ x. Option (List ℕ × Users)) [
            | none ↦ none
            | some users' ↦ run_users os calls users'
          ]))
          e (rest session')
