-- ===== src/Server/Sweep.antt =====
-- internal/server/throttle.go: the state that the requests keep, and the sweep.
use vaultd.Base.{
  ℕ, suc, ◌+◌, ◌-◌, ◌*◌, ◌/◌, ◌≤◌, String, Bool, true, false, Option, none, some, if◌then◌else◌,
  ltb, leb, ◌=s=◌, ◌≡◌, inl, inr, refl, ◌∙◌, subst, arith, Bool-cases, some_eq,
}
use vaultd.Server.Throttle.{
  second, failure_budget, max_lockout, forget, Attempts, Throttle, sweep, swept_record, wait_of,
  blocked, penalty, failed_record, failed, succeeded, too_many, authenticate, after_blocked,
}

-- The facts of a record that hold at a time.
pub record IsSoundRecord (now : ℕ) (r : Attempts) : Type 0 where
  pub seen_before : r.last ≤ now
  pub capped : r.until ≤ r.last + max_lockout

abbrev pub IsSound : ℕ → Throttle → Type 0
IsSound now t = (host : String) (r : Attempts) → t.seen host ≡ some r → IsSoundRecord now r

penalty_le : (count : ℕ) → penalty count ≤ max_lockout
penalty_le count = ground arith

swept-wait_of :
    (now : ℕ) (o : Option Attempts)
    → ((r : Attempts) → o ≡ some r → r.until ≤ r.last + max_lockout)
    → wait_of now (swept_record now o) ≡ wait_of now o
swept-wait_of now none h = refl
swept-wait_of now (some r) h =
    let cap = h r refl in
    elim (Bool-cases (ltb (r.last + forget) now)) [
      | inl e ↦ let late : leb r.until now ≡ true = ground arith in rw (e, late) refl
      | inr e ↦ rw e refl
    ]

-- The sweep lifts no wait: at a sound state `blocked` answers what the records say before the
-- sweep.
pub blocked-wait_of :
    (host : String) (now : ℕ) (t : Throttle)
    → IsSound now t
    → (blocked host now t).0 ≡ wait_of now (t.seen host)
unfolding blocked
blocked-wait_of host now t h = elim (Bool-cases (ltb now (t.swept + forget))) [
  | inl e ↦ rw e refl
  | inr e ↦ rw e (swept-wait_of now (t.seen host) (λ r q. (h host r q).capped))
]

wait_of-later :
    (now : ℕ) (o : Option Attempts) (wait : ℕ)
    → wait_of now o ≡ some wait
    → (later : ℕ) → now + wait ≤ later
    → wait_of later o ≡ none
wait_of-later now none wait e later le = absurd (cc e)
wait_of-later now (some r) wait e later le = elim (Bool-cases (leb r.until now)) [
  | inl f ↦ absurd (cc (rw f at e))
  | inr f ↦
      let is : r.until - now ≡ wait = some_eq (rw f at e) in
      let past : leb r.until later ≡ true = ground arith in rw past refl
]

-- Time passes, and a sweep forgets.
pub IsSound-sweep :
    (now later : ℕ) (t : Throttle) → now ≤ later → IsSound now t → IsSound later (sweep later t)
IsSound-sweep now later t le h host r e = elim (Bool-cases (ltb later (t.swept + forget))) [
  | inl f ↦ weaker (h host r (rw f at e))
  | inr f ↦ left (t.seen host) refl (rw f at e)
]
  where
    weaker : IsSoundRecord now r → IsSoundRecord later r
    weaker k = record { seen_before = omega (arith, k.seen_before, le); capped = k.capped }

    left :
        (o : Option Attempts)
        → t.seen host ≡ o
        → swept_record later o ≡ some r
        → IsSoundRecord later r
    left none q k = absurd (cc k)
    left (some a) q k = elim (Bool-cases (ltb (a.last + forget) later)) [
      | inl f ↦ absurd (cc (rw f at k))
      | inr f ↦ weaker (h host r (q ∙ rw f at k))
    ]

failed_record-IsSound :
    (now : ℕ) (o : Option Attempts)
    → ((r : Attempts) → o ≡ some r → IsSoundRecord now r)
    → IsSoundRecord now (failed_record now o)
failed_record-IsSound now none h = record { seen_before = omega arith; capped = omega arith }
failed_record-IsSound now (some r) h =
    let k = h r refl in
    let a = k.seen_before in
    let b = k.capped in
    let c = penalty_le (suc r.count) in
    record { seen_before = omega arith; capped = until_le (ltb failure_budget (suc r.count)) a b c }
  where
    until_le :
        (over : Bool)
        → r.last ≤ now
        → r.until ≤ r.last + max_lockout
        → penalty (suc r.count) ≤ max_lockout
        → (if over then now + penalty (suc r.count) else r.until) ≤ now + max_lockout
    until_le true a b c = omega (arith, c)
    until_le false a b c = omega (arith, a, b)

pub failed-IsSound :
    (host : String) (now : ℕ) (t : Throttle) → IsSound now t → IsSound now (failed host now t)
unfolding failed
failed-IsSound host now t h k r e = elim (Bool-cases (k =s= host)) [
  | inl f ↦
      subst (IsSoundRecord now) (some_eq (rw f at e))
        (failed_record-IsSound now (t.seen host) (h host))
  | inr f ↦ h k r (rw f at e)
]

succeeded-IsSound :
    (host : String) (now : ℕ) (t : Throttle) → IsSound now t → IsSound now (succeeded host t)
unfolding succeeded
succeeded-IsSound host now t h k r e = elim (Bool-cases (k =s= host)) [
  | inl f ↦ absurd (cc (rw f at e))
  | inr f ↦ h k r (rw f at e)
]

-- A request keeps the state sound, whatever its host and token, if the clock does not go back: no
-- record has a failure in the future, and no wait ends more than five minutes after the last
-- failure.
pub authenticate-IsSound :
    (host : String) (right : Bool) (now later : ℕ) (t : Throttle)
    → now ≤ later
    → IsSound now t
    → IsSound later (authenticate host right later t).1
unfolding authenticate blocked
authenticate-IsSound host right now later t le h =
    step right (wait_of later ((sweep later t).seen host)) (IsSound-sweep now later t le h)
  where
    step :
        (right : Bool) (o : Option ℕ)
        → IsSound later (sweep later t)
        → IsSound later (after_blocked host right later (o, sweep later t)).1
    step right (some wait) k = k
    step false none k = failed-IsSound host later (sweep later t) k
    step true none k = succeeded-IsSound host later (sweep later t) k

-- A host that is told to wait at a sound state, and waits as long as `Retry-After` says, is not
-- blocked when it comes back, if no request came meanwhile.
authenticate-retry_after :
    (host : String) (right : Bool) (now n later : ℕ) (t : Throttle)
    → IsSound now t
    → (authenticate host right now t).0 ≡ too_many n
    → now + n * second ≤ later
    → (blocked host later (authenticate host right now t).1).0 ≡ none
unfolding authenticate blocked
authenticate-retry_after host right now n later t h e le =
    step right (wait_of now ((sweep now t).seen host)) refl e
  where
    step :
        (right : Bool) (o : Option ℕ)
        → wait_of now ((sweep now t).seen host) ≡ o
        → (after_blocked host right now (o, sweep now t)).0 ≡ too_many n
        → (blocked host later (after_blocked host right now (o, sweep now t)).1).0 ≡ none
    step false none q k = absurd (cc k)
    step true none q k = absurd (cc k)
    step right (some wait) q k =
        let enough : n ≡ wait / second + 1 = cc k in
        let waited : now + wait ≤ later = omega (arith, enough, le) in
        let before : now ≤ later = omega (arith, waited) in
        blocked-wait_of host later (sweep now t) (λ g r p.
          let s = IsSound-sweep now now t (omega arith) h g r p in
          record { seen_before = omega (arith, s.seen_before, before); capped = s.capped })
        ∙ wait_of-later now ((sweep now t).seen host) wait q later waited
