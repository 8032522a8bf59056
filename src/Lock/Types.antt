-- ===== src/Lock/Types.antt =====
-- internal/lock/lock.go: `Owner`, `Held`, the errors and the lease length.
use vaultd.Base.{ℕ, ◌*◌, ◌/◌, String, Bool, Option, leb, ltb, if◌then◌else◌}
use vaultd.Store.Port.{StoreError, Store}

-- `Owner`.
pub record Owner : Type 0 where
  pub id : String
  pub target : String
  pub host : String
  pub pid : ℕ
  pub kind : String
  pub acquired_at : ℕ
  pub expires_at : ℕ
  pub version : String

-- `Owner.Expired`: `now` is not before the end of the lease.
abbrev pub expired : Owner → ℕ → Bool
expired o now = leb o.expires_at now

-- `DefaultTTL`, five minutes in nanoseconds.
abbrev default_ttl : ℕ
default_ttl = 5 * (60 * 1000000000)

abbrev renew_divisor : ℕ
renew_divisor = 3

abbrev pub acquire_attempts : ℕ
acquire_attempts = 3

-- What one attempt reads of the process and the clock.
pub record Env : Type 0 where
  pub now : ℕ
  pub id : String
  pub host : String
  pub pid : ℕ
  pub version : String

-- `Locker`. The `ttl` is not negative.
pub record Locker (S B : Type 0) : Type 0 where
  pub store : Store S B
  pub key : String
  pub ttl : ℕ
  pub encode : Owner → B
  pub decode : B → Option Owner

-- `Locker.ttl`.
abbrev pub lease : {S B : Type 0} → Locker S B → ℕ
lease l = if ltb 0 l.ttl then l.ttl else default_ttl

-- The interval of the heartbeat.
abbrev interval : {S B : Type 0} → Locker S B → ℕ
interval l = lease l / renew_divisor

-- `Held`, without its mutex and channels. `lost` says that its context was cancelled by a failed
-- renewal.
pub record Held : Type 0 where
  pub owner : Owner
  pub etag : String
  pub released : Bool
  pub lost : Bool

-- The errors: `ErrLocked`, an error of the store, a lock object that does not parse, a renewal that
-- another process was faster than, and an `Acquire` that used up its attempts.
pub data LockError : Type 0 where
  locked : Owner → LockError
  store : StoreError → LockError
  unreadable : LockError
  taken : LockError
  kept_changing : LockError → LockError
