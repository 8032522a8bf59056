-- ===== src/Server/Lockout.antt =====
-- internal/server/throttle.go: the waits of hosts that present wrong tokens.
use Prim.Native.Nat.pow
use vaultd.Base.{
  ℕ, zero, suc, ◌+◌, ◌-◌, ◌*◌, ◌/◌, ◌^◌, ◌≤◌, ◌<◌, min, String, Bool, true, false, Option, none,
  some, ltb, leb, =s=_self, ◌≡◌, inl, inr, refl, ◌∙◌, arith, Bool-cases,
}
use vaultd.Server.Throttle.{
  second, failure_budget, Attempts, Throttle, sweep, wait_of, blocked, penalty, failed_record,
  failed, too_many, unauthorized, authenticate, after_blocked,
}
use vaultd.Server.Sweep.{IsSound, IsSound-sweep, failed-IsSound, blocked-wait_of}

pow_cap : (k : ℕ) → 64 ≤ 2 ^ (6 + k)
pow_cap zero = omega arith
pow_cap (suc k) =
    let next : 6 + suc k ≡ suc (6 + k) = omega arith in
    rw (next, pow.suc) (omega (arith, pow_cap k))

-- The penalties double from five seconds up to five minutes.
penalty_seconds : (n : ℕ) → penalty (6 + n) ≡ min (5 * 2 ^ n) 300 * second
penalty_seconds n = elim (Bool-cases (ltb 6 n)) [
  | inl f ↦
      let m : n ≡ 6 + (n - 6) = ground arith in
      let big : 64 ≤ 2 ^ n = rw m (pow_cap (n - 6)) in
      let capped : min (6 + n - 5 - 1) 6 ≡ 6 = ground arith in rw capped (ground (arith, big))
  | inr f ↦ let free : min (6 + n - 5 - 1) 6 ≡ n = ground arith in rw free (ground arith)
]

-- How many failures a record has counted.
abbrev count_of : Option Attempts → ℕ
count_of none = 0
count_of (some r) = r.count

-- How long a host waits after `n` failures over the budget and one more.
abbrev pub wait_after : ℕ → ℕ
wait_after n = min (5 * 2 ^ n) 300 * second

failed_record-until :
    (now n : ℕ) (o : Option Attempts)
    → count_of o ≡ 5 + n
    → (failed_record now o).until ≡ now + wait_after n
failed_record-until now n none e = absurd (omega (arith, e))
failed_record-until now n (some r) e =
    let over : ltb failure_budget (suc r.count) ≡ true = ground arith in
    let same : suc r.count ≡ 6 + n = omega (arith, e) in rw (over, same, penalty_seconds n) refl

wait_of-failed :
    (host : String) (now later n : ℕ) (t : Throttle)
    → count_of (t.seen host) ≡ 5 + n
    → later < now + wait_after n
    → wait_of later ((failed host now t).seen host) ≡ some (now + wait_after n - later)
unfolding failed
wait_of-failed host now later n t e lt =
    let is = failed_record-until now n (t.seen host) e in
    let not_yet : leb (now + wait_after n) later ≡ false = ground arith in
    rw (=s=_self host, is, not_yet) refl

too_many-blocked :
    (host : String) (right : Bool) (now wait : ℕ) (t : Throttle)
    → (blocked host now t).0 ≡ some wait
    → (authenticate host right now t).0 ≡ too_many (wait / second + 1)
unfolding authenticate
too_many-blocked host right now wait t e = rw e refl

-- If the records count `5 + n` failures of a host and it presents a wrong token that is looked at,
-- then its next request within 5 seconds, doubled `n` times but at most 300 seconds, is refused,
-- even with the right token, and `Retry-After` says one second more than the whole seconds left.
-- The state is sound.
pub authenticate-locks :
    (host : String) (right : Bool) (now later n : ℕ) (t : Throttle)
    → IsSound now t
    → (authenticate host false now t).0 ≡ unauthorized
    → count_of ((sweep now t).seen host) ≡ 5 + n
    → now ≤ later
    → later < now + wait_after n
    → (authenticate host right later (authenticate host false now t).1).0
      ≡ too_many ((now + wait_after n - later) / second + 1)
unfolding authenticate blocked
authenticate-locks host right now later n t h e c le lt =
    step (wait_of now ((sweep now t).seen host)) refl e
  where
    step :
        (o : Option ℕ)
        → wait_of now ((sweep now t).seen host) ≡ o
        → (after_blocked host false now (o, sweep now t)).0 ≡ unauthorized
        → (authenticate host right later (after_blocked host false now (o, sweep now t)).1).0
          ≡ too_many ((now + wait_after n - later) / second + 1)
    step (some wait) q k = absurd (cc k)
    step none q k =
        let sound =
          failed-IsSound host now (sweep now t) (IsSound-sweep now now t (omega arith) h) in
        too_many-blocked host right later _ (failed host now (sweep now t)) (
          blocked-wait_of host later (failed host now (sweep now t)) (λ g r p.
            let s = sound g r p in
            record { seen_before = omega (arith, s.seen_before, le); capped = s.capped })
          ∙ wait_of-failed host now later n (sweep now t) c lt)
