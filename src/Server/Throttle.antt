-- ===== src/Server/Throttle.antt =====
-- internal/server/throttle.go: the record that the server keeps of failed authentications. Times and
-- durations are numbers of nanoseconds; the clock never reads less than a time it read before.
use vaultd.Base.{
  ℕ, suc, ◌+◌, ◌-◌, ◌*◌, ◌/◌, ◌^◌, min, String, Bool, true, false, Option, none, some,
  if◌then◌else◌, ltb, leb, ◌=s=◌,
}

abbrev pub second : ℕ
second = 1000000000

abbrev pub failure_budget : ℕ
failure_budget = 5

abbrev lockout : ℕ
lockout = 5 * second

abbrev pub max_lockout : ℕ
max_lockout = 300 * second

abbrev pub forget : ℕ
forget = 900 * second

-- `attempts`. The zero time is the number 0.
pub record Attempts : Type 0 where
  pub count : ℕ
  pub last : ℕ
  pub until : ℕ

-- `throttle`: the map `seen`, and when it was swept.
pub record Throttle : Type 0 where
  pub seen : String → Option Attempts
  pub swept : ℕ

-- `newThrottle`.
abbrev new_throttle : Throttle
new_throttle = record { seen = λ host. none; swept = 0 }

-- What `sweep` leaves of the record of a host.
abbrev pub swept_record : ℕ → Option Attempts → Option Attempts
swept_record now none = none
swept_record now (some r) = if ltb (r.last + forget) now then none else some r

-- `sweep`.
abbrev pub sweep : ℕ → Throttle → Throttle
sweep now t =
    if ltb now (t.swept + forget)
    then t
    else record { seen = λ host. swept_record now (t.seen host); swept = now }

-- How long a record makes its host wait, if it does.
abbrev pub wait_of : ℕ → Option Attempts → Option ℕ
wait_of now none = none
wait_of now (some r) = if leb r.until now then none else some (r.until - now)

-- `blocked`: the wait, if the host must wait.
unfoldable pub blocked : String → ℕ → Throttle → Option ℕ × Throttle
blocked host now t = let swept = sweep now t in (wait_of now (swept.seen host), swept)

-- The wait for a count over the budget.
abbrev pub penalty : ℕ → ℕ
penalty count =
    let shifted = lockout * 2 ^ min (count - failure_budget - 1) 6 in
    if ltb max_lockout shifted then max_lockout else shifted

-- What `failed` makes of the record of its host.
abbrev pub failed_record : ℕ → Option Attempts → Attempts
failed_record now none = record { count = 1; last = now; until = 0 }
failed_record now (some r) = record {
  count = suc r.count;
  last = now;
  until = if ltb failure_budget (suc r.count) then now + penalty (suc r.count) else r.until;
}

-- `failed`.
unfoldable pub failed : String → ℕ → Throttle → Throttle
failed host now t = record {
  seen = λ h. if h =s= host then some (failed_record now (t.seen host)) else t.seen h;
  swept = t.swept;
}

-- `succeeded`.
unfoldable pub succeeded : String → Throttle → Throttle
succeeded host t = record { seen = λ h. if h =s= host then none else t.seen h; swept = t.swept }

-- What a request is answered: `Retry-After` is in seconds.
pub data Reply : Type 0 where
  too_many : ℕ → Reply
  unauthorized : Reply
  served : Reply

-- The handler of `authenticate`, for a request from a host whose token is right or not.
abbrev pub after_blocked : String → Bool → ℕ → Option ℕ × Throttle → Reply × Throttle
after_blocked host right now (some wait, t) = (too_many (wait / second + 1), t)
after_blocked host false now (none, t) = (unauthorized, failed host now t)
after_blocked host true now (none, t) = (served, succeeded host t)

unfoldable pub authenticate : String → Bool → ℕ → Throttle → Reply × Throttle
authenticate host right now t = after_blocked host right now (blocked host now t)
