-- ===== src/Status.antt =====
-- The status codes of include/libspill.h, and results of fallible functions. `errno e` is the
-- negated errno `-e`.
use libspill.Base.{ℕ, Bool, if◌then◌else◌}

pub data Status : Type 0 where
  done nokey range inval wrong_mode backend busy corrupt : Status
  errno : ℕ → Status

-- ENOMEM
abbrev pub no_memory : Status
no_memory = errno 12

pub data Result {ℓ} (A : Type ℓ) : Type ℓ where
  ok : A → Result A
  fail : Status → Result A

infixl 5 ◌>>=◌
abbrev pub ◌>>=◌ {ℓ κ} : {A : Type ℓ} {B : Type κ} → Result A → (A → Result B) → Result B
ok a >>= f = f a
fail e >>= f = fail e

infixl 5 ◌>>◌
abbrev pub ◌>>◌ {ℓ} : {B : Type ℓ} → Result (Unit {0}) → Result B → Result B
m >> k = m >>= λ _. k

-- an early return of `e` where the test holds
abbrev pub refuse_if {ℓ} : {B : Type ℓ} → Bool → Status → Result B → Result B
refuse_if c e k = if c then fail e else k
