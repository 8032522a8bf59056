-- ===== src/Lock/Locker.antt =====
-- internal/lock/lock.go: `Acquire`, `attempt`, `hold`, `read`, `Release`, `heartbeat`, `renew`.
use vaultd.Base.{
  ℕ, zero, suc, ◌+◌, String, Bool, true, false, Option, none, some, if◌then◌else◌, ◌=s=◌, not, [],
  ◌∷◌,
}
use vaultd.Store.Port.{not_found, failed, Answer, ok, err, ObjectInfo}
use vaultd.Lock.Types.{
  Owner, expired, Env, Locker, lease, Held, LockError, locked, store, unreadable, taken,
  kept_changing, acquire_attempts,
}

pub data Outcome {ℓ} (A : Type ℓ) : Type ℓ where
  done : A → Outcome A
  fails : LockError → Outcome A

-- `errors.Is(err, core.ErrNotFound)`: the errors of the store are wrapped, so it sees through them.
abbrev pub is_not_found : LockError → Bool
is_not_found (store not_found) = true
is_not_found (store failed) = false
is_not_found (locked o) = false
is_not_found unreadable = false
is_not_found taken = false
is_not_found (kept_changing e) = is_not_found e

module _ {S B : Type 0} (l : Locker S B) where
  -- The `Owner` of an attempt.
  abbrev pub owner_of : String → String → Env → Owner
  owner_of target kind e = record {
    id = e.id;
    target = target;
    host = e.host;
    pid = e.pid;
    kind = kind;
    acquired_at = e.now;
    expires_at = e.now + lease l;
    version = e.version;
  }

  abbrev pub held_by : Owner → String → Held
  held_by o etag = record { owner = o; etag = etag; released = false; lost = false }

  -- `hold`: without an etag, it is read back.
  unfoldable pub hold : Owner → String → S → Outcome Held
  hold o etag s =
      if etag =s= ""
      then elim (l.store.head l.key s) [ err e ↦ fails (store e) | ok i ↦ done (held_by o i.etag) ]
      else done (held_by o etag)

  -- The part of `read` behind `Get`.
  abbrev pub decoded : Answer B → String → Outcome (Owner × String)
  decoded (err e) etag = fails (store e)
  decoded (ok b) etag = elim (l.decode b) [ none ↦ fails unreadable | some o ↦ done (o, etag) ]

  -- `read`.
  unfoldable pub read : S → Outcome (Owner × String)
  read s = elim (l.store.head l.key s) [
    | err e ↦ fails (store e)
    | ok i ↦ decoded (l.store.get l.key s) i.etag
  ]

  -- The loser of a takeover names the winner.
  abbrev pub named : Outcome (Owner × String) → Outcome Held
  named (fails e) = fails e
  named (done (o, etag)) = fails (locked o)

  -- The end of `attempt`: the answer of the takeover.
  abbrev pub took_over : Owner → Answer (ObjectInfo × Bool) × S → Outcome Held × S
  took_over o (err e, s) = (fails (store e), s)
  took_over o (ok (i, false), s) = (named (read s), s)
  took_over o (ok (i, true), s) = (hold o i.etag s, s)

  -- The part of `attempt` behind the failed create: the lease that is there.
  abbrev pub take_over : Owner → ℕ → Outcome (Owner × String) → S → Outcome Held × S
  take_over o now (fails e) s = (fails e, s)
  take_over o now (done (current, etag)) s =
      if expired current now
      then took_over o (l.store.put_if_match l.key (l.encode o) etag s)
      else (fails (locked current), s)

  -- The part of `attempt` behind `PutIfAbsent`.
  abbrev pub after_create : Owner → ℕ → Answer Bool × S → Outcome Held × S
  after_create o now (err e, s) = (fails (store e), s)
  after_create o now (ok true, s) = (hold o "" s, s)
  after_create o now (ok false, s) = take_over o now (read s) s

  -- `attempt`.
  unfoldable pub attempt : String → String → Env → S → Outcome Held × S
  unfolding hold read
  attempt target kind e s =
      let o = owner_of target kind e in
      after_create o e.now (l.store.put_if_absent l.key (l.encode o) s)

  -- The loop of `Acquire`: attempt `n` draws `envs n`.
  unfoldable pub acquire_from :
      ℕ → ℕ → (ℕ → Env) → String → String → LockError → S → Outcome Held × S
  unfolding attempt
  acquire_from zero n envs target kind last s = (fails (kept_changing last), s)
  acquire_from (suc rounds) n envs target kind last s =
      let (r, t) = attempt target kind (envs n) s in
      elim r [
        | done h ↦ (done h, t)
        | fails e ↦ elim (is_not_found e) [
          | true ↦ acquire_from rounds (suc n) envs target kind e t
          | false ↦ (fails e, t)
        ]
      ]

  -- `Acquire`. The error of no attempt is never seen, as there is at least one.
  unfoldable pub acquire : (ℕ → Env) → String → String → S → Outcome Held × S
  unfolding acquire_from
  acquire envs target kind s = acquire_from acquire_attempts 0 envs target kind taken s

  -- The end of `renew`.
  abbrev pub renewed : Held → Owner → Answer (ObjectInfo × Bool) × S → Outcome Held × S
  renewed h o (err e, t) = (fails (store e), t)
  renewed h o (ok (i, false), t) = (fails taken, t)
  renewed h o (ok (i, true), t) = (done (record h { owner = o; etag = i.etag }), t)

  -- The owner with a new lease.
  abbrev pub extended : ℕ → Owner → Owner
  extended now o = record o { expires_at = now + lease l }

  -- `renew`, at time `now`.
  unfoldable pub renew : ℕ → Held → S → Outcome Held × S
  renew now h s =
      let o = extended now h.owner in renewed h o (l.store.put_if_match l.key (l.encode o) h.etag s)

  -- One tick of `heartbeat`: a failed renewal cancels the run.
  unfoldable pub beat : ℕ → Held → S → Held × S
  unfolding renew
  beat now h s =
      if h.released
      then (h, s)
      else if h.lost
      then (h, s)
      else (let (r, t) = renew now h s in
          elim r [ done h' ↦ (h', t) | fails e ↦ (record h { lost = true }, t) ])

  -- The answer of the `Delete` of `Release`.
  abbrev pub deleted : Answer (Unit {0}) × S → Option LockError × S
  deleted (err e, t) = (some (store e), t)
  deleted (ok u, t) = (none, t)

  -- The part of `Release` behind the flag: the object is deleted only if it carried the etag at the
  -- `Head`. `between` is what other processes do between the `Head` and the `Delete`.
  unfoldable pub drop_own : (S → S) → String → S → Option LockError × S
  drop_own between etag s = elim (l.store.head l.key s) [
    | err e ↦ (elim e [ not_found ↦ none | failed ↦ some (store failed) ], s)
    | ok i ↦
        if not (i.etag =s= etag)
        then (none, s)
        else deleted (l.store.delete (l.key ∷ []) (between s))
  ]

  -- `Release`.
  unfoldable pub release : (S → S) → Held → S → Option LockError × Held × S
  unfolding drop_own
  release between h s =
      if h.released
      then (none, h, s)
      else (let (e, t) = drop_own between h.etag s in (e, record h { released = true }, t))
