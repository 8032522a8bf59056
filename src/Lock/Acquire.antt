-- ===== src/Lock/Acquire.antt =====
-- internal/lock/lock.go: `Acquire` over any store that keeps the port's contract.
use vaultd.Base.{
  ℕ, zero, suc, String, Bool, true, false, Option, some, ◌=s=◌, =s=_iff, ◌≡◌, ◌≢◌, ◌⊎◌, inl, inr,
  refl, sym, ap, ◌∙◌, Bool-cases, subst,
}
use vaultd.Store.Port.{Answer-cases, Answer, ok, err, ObjectInfo, Stored, IsStore}
use vaultd.Lock.Types.{Owner, expired, Env, Locker, Held, LockError, taken, acquire_attempts}
use vaultd.Lock.Locker.{
  Outcome, done, fails, is_not_found, owner_of, held_by, hold, read, named, took_over, take_over,
  after_create, attempt, acquire_from, acquire,
}

pub Outcome-cases {ℓ} :
    {A : Type ℓ} (r : Outcome A) → ((x : A) × (r ≡ done x)) ⊎ ((e : LockError) × (r ≡ fails e))
Outcome-cases (done x) = inl (x, refl)
Outcome-cases (fails e) = inr (e, refl)

named-ne-done :
    {S B : Type 0} (l : Locker S B) (x : Outcome (Owner × String)) (h : Held) → named l x ≢ done h
named-ne-done l (fails e) h r = cc r
named-ne-done l (done (o, etag)) h r = cc r

-- The lock object is the one that a handle last wrote.
abbrev pub Owns : {S B : Type 0} → Locker S B → (S → String → Option (Stored B)) → S → Held → Type 0
Owns l view s h = view s l.key ≡ some (record { content = l.encode h.owner; etag = h.etag })

module _ {S B : Type 0} (l : Locker S B) (view : S → String → Option (Stored B)) (tag : B → String)
    (laws : IsStore l.store view tag) where
  abbrev written : Owner → Stored B
  written o = record { content = l.encode o; etag = tag (l.encode o) }

  hold-Owns :
      (o : Owner) (etag : String) (s : S) (h : Held)
      → view s l.key ≡ some (written o)
      → (etag ≡ "") ⊎ (etag ≡ tag (l.encode o))
      → hold l o etag s ≡ done h
      → Owns l view s h
  unfolding hold
  hold-Owns o etag s h v e r = elim (Bool-cases (etag =s= "")) [
    | inl f ↦ elim (Answer-cases (l.store.head l.key s)) [
      | inr (x, g) ↦ absurd (cc (rw (f, g, hold) at r))
      | inl (i, g) ↦ from_head i g (rw (f, g) at r)
    ]
    | inr f ↦ from_etag e f (rw f at r)
  ]
    where
      from_head :
          (i : ObjectInfo)
          → l.store.head l.key s ≡ ok i
          → done (held_by l o i.etag) ≡ done h
          → Owns l view s h
      from_head i g q =
          let (x, p, c, z) = laws.head_ok s l.key g in
          let w : x ≡ written o = cc in
          let u : held_by l o i.etag ≡ h = cc in
          let etags : h.etag ≡ tag (l.encode o) =
            ap (λ (y : Held). y.etag) (sym u) ∙ (c ∙ ap (λ (y : Stored B). y.etag) w) in
          let owners : h.owner ≡ o = ap (λ (y : Held). y.owner) (sym u) in rw (etags, owners) v

      from_etag :
          ((etag ≡ "") ⊎ (etag ≡ tag (l.encode o)))
          → (etag =s= "") ≡ false
          → done (held_by l o etag) ≡ done h
          → Owns l view s h
      from_etag (inl z) f q = absurd (cc (f, (=s=_iff etag "").1 z))
      from_etag (inr z) f q =
          let u : held_by l o etag ≡ h = cc in
          rw (ap (λ (y : Held). y.etag) (sym u) ∙ z, ap (λ (y : Held). y.owner) (sym u)) v

  took_over-Owns :
      (o : Owner) (etag : String) (s : S) (a : Answer (ObjectInfo × Bool)) (t : S) (h : Held)
      → l.store.put_if_match l.key (l.encode o) etag s ≡ (a, t)
      → (took_over l o (a, t)).0 ≡ done h
      → Owns l view (took_over l o (a, t)).1 h
  took_over-Owns o etag s (err e) t h p r = absurd (cc r)
  took_over-Owns o etag s (ok (i, false)) t h p r = absurd (named-ne-done l (read l t) h r)
  took_over-Owns o etag s (ok (i, true)) t h p r =
      let (m, e, w) =
        laws.match_written s l.key (l.encode o) etag
          (ap (λ (q : Answer (ObjectInfo × Bool) × S). q.0) p) in
      hold-Owns o i.etag t h
        (subst (λ u. view u l.key ≡ some (written o))
          (ap (λ (q : Answer (ObjectInfo × Bool) × S). q.1) p) w.0)
        (inr e) r

  take_over-Owns :
      (o : Owner) (now : ℕ) (x : Outcome (Owner × String)) (s : S) (h : Held)
      → (take_over l o now x s).0 ≡ done h
      → Owns l view (take_over l o now x s).1 h
  take_over-Owns o now (fails e) s h r = absurd (cc r)
  take_over-Owns o now (done (c, etag)) s h r = elim (Bool-cases (expired c now)) [
    | inl f ↦ rw f (took_over-Owns o etag s _ _ h refl (rw f at r))
    | inr f ↦ absurd (cc (rw f at r))
  ]

  after_create-Owns :
      (o : Owner) (now : ℕ) (s : S) (a : Answer Bool) (t : S) (h : Held)
      → l.store.put_if_absent l.key (l.encode o) s ≡ (a, t)
      → (after_create l o now (a, t)).0 ≡ done h
      → Owns l view (after_create l o now (a, t)).1 h
  after_create-Owns o now s (err e) t h p r = absurd (cc r)
  after_create-Owns o now s (ok true) t h p r =
      let (n, w) = laws.absent_created s l.key (l.encode o) (ap (λ (q : Answer Bool × S). q.0) p) in
      hold-Owns o "" t h
        (subst (λ u. view u l.key ≡ some (written o)) (ap (λ (q : Answer Bool × S). q.1) p) w.0)
        (inl refl) r
  after_create-Owns o now s (ok false) t h p r = take_over-Owns o now (read l t) t h r

  attempt-Owns :
      (target kind : String) (e : Env) (s : S) (h : Held)
      → (attempt l target kind e s).0 ≡ done h
      → Owns l view (attempt l target kind e s).1 h
  unfolding attempt
  attempt-Owns target kind e s h r =
      after_create-Owns (owner_of l target kind e) e.now s _ _ h refl r

  acquire_from-Owns :
      (rounds n : ℕ) (envs : ℕ → Env) (target kind : String) (last : LockError) (s : S) (h : Held)
      → (acquire_from l rounds n envs target kind last s).0 ≡ done h
      → Owns l view (acquire_from l rounds n envs target kind last s).1 h
  unfolding acquire_from
  acquire_from-Owns zero n envs target kind last s h r = absurd (cc r)
  acquire_from-Owns (suc rounds) n envs target kind last s h r =
      elim (Outcome-cases (attempt l target kind (envs n) s).0) [
        | inl (h', f) ↦
            let u : h' ≡ h = cc (rw (f, acquire_from) at r) in
            rw (f, acquire_from) (rw (← u) (attempt-Owns target kind (envs n) s h' f))
        | inr (e, f) ↦ elim (Bool-cases (is_not_found e)) [
          | inl g ↦
              rw (f, g, acquire_from)
                (acquire_from-Owns rounds (suc n) envs target kind e
                  (attempt l target kind (envs n) s).1 h (rw (f, g, acquire_from) at r))
          | inr g ↦ absurd (cc (rw (f, g, acquire_from) at r))
        ]
      ]

  -- When `Acquire` takes the lock, the lock object holds exactly the owner of the handle, under the
  -- etag that the handle keeps for its renewals.
  pub acquire-Owns :
      (envs : ℕ → Env) (target kind : String) (s : S) (h : Held)
      → (acquire l envs target kind s).0 ≡ done h
      → Owns l view (acquire l envs target kind s).1 h
  unfolding acquire
  acquire-Owns envs target kind s h r =
      acquire_from-Owns acquire_attempts 0 envs target kind taken s h r
