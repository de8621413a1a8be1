-- ===== src/Session.antt =====
-- src/lib/session.c: a session, which opens its device for the first user and closes it behind the
-- last one.
pub mod Refinement
use blockdevlogger.Base.{
  ℕ, ◌+◌, ◌-◌, Bool, true, false, Option, none, some, List, ltb, ◌==◌, if◌then◌else◌,
}
use blockdevlogger.Device.{File}
use blockdevlogger.Io.{io_close}
use blockdevlogger.Io.Open.{Os, io_open}

-- struct bdl_session. What stands in `device` before it has been opened is not looked at.
pub record Session : Type 0 where
  pub device : File
  pub usercount : ℕ

unfoldable pub bdl_init_session : Session → Session
bdl_init_session session = record session { usercount = 0 }

-- The status, and the session. The path is `none` for NULL.
unfoldable pub bdl_start_session : Os → Session → Option (List ℕ) → Bool → ℕ × Session
bdl_start_session os session device_path no_mmap =
    if ltb 0 session.usercount
    then elim device_path [
      | some path ↦ (1, session)
      | none ↦ (0, record session { usercount = session.usercount + 1 })
    ]
    else elim device_path [
      | none ↦ (1, session)
      | some path ↦ elim (io_open os path no_mmap) [
        | none ↦ (1, session)
        | some device ↦ (0, record { device = device; usercount = 1 })
      ]
    ]

-- `none` where the program ends because no session is active.
unfoldable pub bdl_close_session : Session → Option Session
bdl_close_session session =
    if session.usercount == 0
    then none
    else if session.usercount - 1 == 0
    then some (record { device = (io_close session.device).1; usercount = 0 })
    else some (record session { usercount = session.usercount - 1 })
