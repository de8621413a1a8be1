-- ===== src/Device/Termination.antt =====
-- Functions that end: with results that satisfy a predicate, a status, or `exit`, but not for want of
-- fuel.
use blockdevlogger.Base.{ℕ, Bool, true, false, if◌then◌else◌}
use blockdevlogger.Device.Monad.{
  File, Ret, ok, err, exit, out_of_fuel, M, and_then, ◌>>=◌, status, or_return,
}

abbrev pub Ends {ℓ} : {A : Type ℓ} → (A → Type 0) → Ret A × File → Type 0
Ends P (ok a, f) = P a
Ends P (err c, f) = Unit
Ends P (exit, f) = Unit
Ends P (out_of_fuel, f) = ⊥

-- It ends from every file.
abbrev pub AlwaysEnds {ℓ} : {A : Type ℓ} → (A → Type 0) → M A → Type 0
AlwaysEnds P m = (f : File) → Ends P (m f)

Ends-and_then {ℓ κ} :
    {A : Type ℓ} {B : Type κ} (P : A → Type 0) (Q : B → Type 0) (k : A → M B) (r : Ret A) (g : File)
    → Ends P (r, g)
    → ((a : A) → P a → AlwaysEnds Q (k a))
    → Ends Q (and_then k r g)
Ends-and_then P Q k (ok a) g h rest = rest a h g
Ends-and_then P Q k (err c) g h rest = tt
Ends-and_then P Q k exit g h rest = tt
Ends-and_then P Q k out_of_fuel g h rest = h

pub Ends-bind {ℓ κ} :
    {A : Type ℓ} {B : Type κ} (P : A → Type 0) (Q : B → Type 0) (m : M A) (k : A → M B)
    → AlwaysEnds P m
    → ((a : A) → P a → AlwaysEnds Q (k a))
    → AlwaysEnds Q (m >>= k)
Ends-bind P Q m k h rest f = Ends-and_then P Q k (m f).0 (m f).1 (h f) rest

Ends-status {ℓ} :
    {A : Type ℓ} (P : A → Type 0) (c : ℕ) (r : Ret A) (g : File)
    → Ends P (r, g)
    → Ends P (status c r, g)
Ends-status P c (ok a) g h = h
Ends-status P c (err d) g h = tt
Ends-status P c exit g h = tt
Ends-status P c out_of_fuel g h = h

pub Ends-or_return {ℓ} :
    {A : Type ℓ} (P : A → Type 0) (c : ℕ) (m : M A) → AlwaysEnds P m → AlwaysEnds P (or_return c m)
Ends-or_return P c m h f = Ends-status P c (m f).0 (m f).1 (h f)

-- A call whose status is replaced, and what follows it.
pub Ends-call {ℓ κ} :
    {A : Type ℓ} {B : Type κ} (P : A → Type 0) (Q : B → Type 0) (c : ℕ) (m : M A) (k : A → M B)
    → AlwaysEnds P m
    → ((a : A) → P a → AlwaysEnds Q (k a))
    → AlwaysEnds Q (or_return c m >>= k)
Ends-call P Q c m k h rest = Ends-bind P Q (or_return c m) k (Ends-or_return P c m h) rest

pub Ends-if {ℓ} :
    {A : Type ℓ} (P : A → Type 0) (b : Bool) (m n : M A)
    → AlwaysEnds P m
    → AlwaysEnds P n
    → AlwaysEnds P (if b then m else n)
Ends-if P true m n h i = h
Ends-if P false m n h i = i

pub Ends-weaken {ℓ} :
    {A : Type ℓ} (P : A → Type 0) (Q : A → Type 0)
    → ((a : A) → P a → Q a)
    → (r : Ret A × File) → Ends P r
    → Ends Q r
Ends-weaken P Q h (ok a, f) p = h a p
Ends-weaken P Q h (err c, f) p = tt
Ends-weaken P Q h (exit, f) p = tt
Ends-weaken P Q h (out_of_fuel, f) p = p

-- The same from one file.
pub Ends-call_at {ℓ κ} :
    {A : Type ℓ} {B : Type κ} (P : A → Type 0) (Q : B → Type 0) (c : ℕ) (m : M A) (k : A → M B)
    (f : File)
    → Ends P (m f)
    → ((a : A) → P a → AlwaysEnds Q (k a))
    → Ends Q ((or_return c m >>= k) f)
Ends-call_at P Q c m k f h rest =
    Ends-and_then P Q k (status c (m f).0) (m f).1 (Ends-status P c (m f).0 (m f).1 h) rest
