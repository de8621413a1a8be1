-- ===== src/Device/Monad.antt =====
-- struct bdl_io_file (src/include/bdl.h), and the C functions over it as a state monad with failure.
use blockdevlogger.Base.{ℕ, ◌≡◌, ◌∙◌, sym, subst, inl, inr, ◌⊎◌, Bool, true, Option, some, List}
use blockdevlogger.Device.Contents.{Memory, read_bytes, write_bytes}

-- struct bdl_io_sync_queue_entry: the addresses from `start` up to, and without, `end`.
pub record SyncEntry : Type 0 where
  pub start_address : ℕ
  pub end_address : ℕ

-- What the program calls but does not implement: `fseek`, `fread` and `fwrite` on the stream, `msync`
-- of a range, and `getpagesize`. A read or a write at a position may fail, and a failed write may store a part.
pub record Host : Type 0 where
  pub fseek : ℕ → Bool
  pub fread : Memory → ℕ → ℕ → Option (List ℕ)
  pub fwrite : Memory → ℕ → List ℕ → Bool × Memory
  pub msync : SyncEntry → Bool
  pub page_size : ℕ

-- `contents` is what the stream, or the memory map, holds; `memorymap` is the map's address, `none`
-- for NULL. The queue's `count` is its length. `msynced` records the ranges handed to `msync`.
pub record File : Type 0 where
  pub host : Host
  pub size : ℕ
  pub seek : ℕ
  pub unsynced_write_bytes : ℕ
  pub memorymap : Option ℕ
  pub sync_queue : List SyncEntry
  pub contents : Memory
  pub msynced : List SyncEntry

-- A C function returns 0 with its results, or a non-zero status, or leaves the program by `exit`.
-- `out_of_fuel` is no behaviour of the program: a loop that is bounded here ends in it if the bound
-- is too small.
pub data Ret {ℓ} (A : Type ℓ) : Type ℓ where
  ok : A → Ret A
  err : ℕ → Ret A
  exit : Ret A
  out_of_fuel : Ret A

abbrev pub M {ℓ} : Type ℓ → Type ℓ
M A = File → Ret A × File

abbrev pub pure {ℓ} : {A : Type ℓ} → A → M A
pure a f = (ok a, f)

-- The rest of a function after a call, by the call's outcome.
abbrev pub and_then {ℓ κ} : {A : Type ℓ} {B : Type κ} → (A → M B) → Ret A → M B
and_then k (ok a) f = k a f
and_then k (err c) f = (err c, f)
and_then k exit f = (exit, f)
and_then k out_of_fuel f = (out_of_fuel, f)

infixl 5 ◌>>=◌ ◌>>◌
abbrev pub ◌>>=◌ {ℓ κ} : {A : Type ℓ} {B : Type κ} → M A → (A → M B) → M B
◌>>=◌ m k f = let (r, f') = m f in and_then k r f'

abbrev pub ◌>>◌ {ℓ} : {B : Type ℓ} → M (Unit {0}) → M B → M B
m >> k = m >>= λ _. k

abbrev pub fail {ℓ} : {A : Type ℓ} → ℕ → M A
fail c f = (err c, f)

abbrev pub leave {ℓ} : {A : Type ℓ} → M A
leave f = (exit, f)

-- `if (call (…) != 0) { return c; }`
abbrev pub status {ℓ} : {A : Type ℓ} → ℕ → Ret A → Ret A
status c (ok a) = ok a
status c (err d) = err c
status c exit = exit
status c out_of_fuel = out_of_fuel

abbrev pub or_return {ℓ} : {A : Type ℓ} → ℕ → M A → M A
or_return c m f = let (r, f') = m f in (status c r, f')

-- A stream that does what its documentation says, with no error of the device.
pub record IsReliable (h : Host) : Type 0 where
  pub fseek_lem : (p : ℕ) → h.fseek p ≡ true
  pub fread_lem : (m : Memory) (p n : ℕ) → h.fread m p n ≡ some (read_bytes m p n)
  pub fwrite_lem : (m : Memory) (p : ℕ) (bs : List ℕ) → h.fwrite m p bs ≡ (true, write_bytes m p bs)

-- The device is mapped, or its stream is reliable.
abbrev pub Works : File → Type 0
Works f = ((base : ℕ) × (f.memorymap ≡ some base)) ⊎ IsReliable f.host

-- A call leaves all but the bytes, the position and the queue of writes: size, map and host.
abbrev pub SameDevice : File → File → Type 0
SameDevice f f' = (f'.size ≡ f.size) × (f'.memorymap ≡ f.memorymap) × (f'.host ≡ f.host)

pub SameDevice-Works : (f f' : File) → SameDevice f f' → Works f → Works f'
SameDevice-Works f f' s (inl (base, e)) = inl (base, s.1 ∙ e)
SameDevice-Works f f' s (inr r) = inr (subst IsReliable (sym s.2) r)

pub SameDevice-trans : (f g h : File) → SameDevice f g → SameDevice g h → SameDevice f h
SameDevice-trans f g h s t = (t.0 ∙ s.0, t.1 ∙ s.1, t.2 ∙ s.2)

-- What follows a call that succeeds, with its status replaced or not.
pub bind_ok {ℓ κ} :
    {A : Type ℓ} {B : Type κ} (m : M A) (k : A → M B) (f f' : File) (a : A)
    → m f ≡ (ok a, f')
    → (m >>= k) f ≡ k a f'
bind_ok m k f f' a e = rw e

pub bind_return_ok {ℓ κ} :
    {A : Type ℓ} {B : Type κ} (c : ℕ) (m : M A) (k : A → M B) (f f' : File) (a : A)
    → m f ≡ (ok a, f')
    → (or_return c m >>= k) f ≡ k a f'
bind_return_ok c m k f f' a e = rw e

pub return_ok {ℓ} :
    {A : Type ℓ} (c : ℕ) (m : M A) (f f' : File) (a : A)
    → m f ≡ (ok a, f')
    → or_return c m f ≡ (ok a, f')
return_ok c m f f' a e = rw e

-- A call that succeeds and stores the bytes at the position, on the same device.
pub record Stores (f : File) (pos : ℕ) (bytes : List ℕ) (m : M (Unit {0})) : Type 0 where
  pub after : File
  pub runs : m f ≡ (ok tt, after)
  pub same : SameDevice f after
  pub stored : after.contents ≡ write_bytes f.contents pos bytes
