-- ===== src/Lock/Live.antt =====
-- internal/lock/lock.go: `Acquire` while another process holds the lock, over any store that keeps
-- the port's contract.
use vaultd.Base.{
  ℕ, zero, suc, String, Bool, true, false, Option, some, ◌≡◌, ◌≢◌, inl, inr, refl, sym, ap, ◌∙◌,
  Bool-cases, Option-cases, some_eq, subst,
}
use vaultd.Store.Port.{Answer-cases, Answer, ok, err, Stored, IsStore, Unchanged}
use vaultd.Lock.Types.{Owner, expired, Env, Locker, Held, LockError, taken, acquire_attempts}
use vaultd.Lock.Locker.{
  Outcome, done, fails, is_not_found, owner_of, read, decoded, take_over, after_create, attempt,
  acquire_from, acquire,
}
use vaultd.Lock.Acquire.{Outcome-cases}

done_pair :
    (c d : Owner) (x y : String)
    → ◌≡◌ {A = Outcome (Owner × String)} (done (c, x)) (done (d, y))
    → (c ≡ d) × (x ≡ y)
done_pair c d x y e = (cc, cc)

module _ {S B : Type 0} (l : Locker S B) (view : S → String → Option (Stored B)) (tag : B → String)
    (laws : IsStore l.store view tag) where
  -- What `read` reports is what the lock object says.
  read_sound :
      (s : S) {c : Owner} {etag : String}
      → read l s ≡ done (c, etag)
      → (o : Stored B) × (view s l.key ≡ some o) × (l.decode o.content ≡ some c) × (etag ≡ o.etag)
  unfolding read
  read_sound s {c} {etag} r = elim (Answer-cases (l.store.head l.key s)) [
    | inr (x, f) ↦ absurd (cc (rw (f, read) at r))
    | inl (i, f) ↦ elim (Answer-cases (l.store.get l.key s)) [
      | inr (x, g) ↦ absurd (cc (rw (f, g, read) at r))
      | inl (b, g) ↦ elim (Option-cases (l.decode b)) [
        | inl d ↦ absurd (cc (rw (f, g, d, read, decoded) at r))
        | inr (c', d) ↦
            let (a, z) = done_pair c' c i.etag etag (rw (f, g, d, read, decoded) at r) in
            let (o, p, q, w) = laws.head_ok s l.key f in
            let (o', p', q') = laws.get_ok s l.key g in
            let same : o' ≡ o = some_eq (sym p' ∙ p) in
            (
              o,
              p,
              ap l.decode (ap (λ (x : Stored B). x.content) (sym same) ∙ q') ∙ (d ∙ ap some a),
              sym z ∙ q,
            )
      ]
    ]
  ]

  -- A lease that runs is never taken over.
  after_create-live :
      (o : Owner) (now : ℕ) (s : S) (x : Stored B) (c : Owner) (a : Answer Bool) (t : S)
      → l.store.put_if_absent l.key (l.encode o) s ≡ (a, t)
      → view s l.key ≡ some x
      → l.decode x.content ≡ some c
      → expired c now ≡ false
      → Unchanged view s (after_create l o now (a, t)).1
        × ((h : Held) → (after_create l o now (a, t)).0 ≢ done h)
  after_create-live o now s x c a t p v d f = elim_answer a p
    where
      same :
          (a : Answer Bool)
          → l.store.put_if_absent l.key (l.encode o) s ≡ (a, t)
          → Unchanged view s t
      same a p =
          subst (Unchanged view s) (ap (λ (q : Answer Bool × S). q.1) p)
            (laws.absent_present s l.key (l.encode o) v)

      refuses :
          (r : Outcome (Owner × String))
          → read l t ≡ r
          → Unchanged view s t
          → Unchanged view s (take_over l o now r t).1
            × ((h : Held) → (take_over l o now r t).0 ≢ done h)
      refuses (fails e) q u = (u, λ h z. cc z)
      refuses (done (c', etag)) q u =
          let (y, w, z, _) = read_sound t q in
          let e : y ≡ x = cc (u l.key, v, w) in
          let e' : c' ≡ c = cc (sym z ∙ (ap (λ (y : Stored B). l.decode y.content) e ∙ d)) in
          rw (e', f) (u, λ h z. cc z)

      elim_answer :
          (a : Answer Bool)
          → l.store.put_if_absent l.key (l.encode o) s ≡ (a, t)
          → Unchanged view s (after_create l o now (a, t)).1
            × ((h : Held) → (after_create l o now (a, t)).0 ≢ done h)
      elim_answer (err e) p = (same (err e) p, λ h z. cc z)
      elim_answer (ok true) p =
          let n =
            (laws.absent_created s l.key (l.encode o) (ap (λ (q : Answer Bool × S). q.0) p)).0 in
          absurd (cc (n, v))
      elim_answer (ok false) p = refuses (read l t) refl (same (ok false) p)

  attempt-live :
      (target kind : String) (e : Env) (s : S) (x : Stored B) (c : Owner)
      → view s l.key ≡ some x
      → l.decode x.content ≡ some c
      → expired c e.now ≡ false
      → Unchanged view s (attempt l target kind e s).1
        × ((h : Held) → (attempt l target kind e s).0 ≢ done h)
  unfolding attempt
  attempt-live target kind e s x c v d f =
      after_create-live (owner_of l target kind e) e.now s x c _ _ refl v d f

  acquire_from-live :
      (rounds n : ℕ) (envs : ℕ → Env) (target kind : String) (last : LockError) (s : S)
      (x : Stored B) (c : Owner)
      → view s l.key ≡ some x
      → l.decode x.content ≡ some c
      → ((k : ℕ) → expired c (envs k).now ≡ false)
      → Unchanged view s (acquire_from l rounds n envs target kind last s).1
        × ((h : Held) → (acquire_from l rounds n envs target kind last s).0 ≢ done h)
  unfolding acquire_from
  acquire_from-live zero n envs target kind last s x c v d f = (λ j. refl, λ h z. cc z)
  acquire_from-live (suc rounds) n envs target kind last s x c v d f =
      let (u, w) = attempt-live target kind (envs n) s x c v d (f n) in
      elim (Outcome-cases (attempt l target kind (envs n) s).0) [
        | inl (h', g) ↦ absurd (w h' g)
        | inr (e, g) ↦ elim (Bool-cases (is_not_found e)) [
          | inl b ↦
              let t = (attempt l target kind (envs n) s).1 in
              let (u', w') =
                acquire_from-live rounds (suc n) envs target kind e t x c (u l.key ∙ v) d f in
              rw (g, b, acquire_from) (λ j. u' j ∙ u j, w')
          | inr b ↦ rw (g, b, acquire_from) (u, λ h z. cc z)
        ]
      ]

  -- While the lock object is a lease that does not run out during the call, `Acquire` takes no lock
  -- and changes no object of the bucket, whichever calls of the store fail.
  pub acquire-live :
      (envs : ℕ → Env) (target kind : String) (s : S) (x : Stored B) (c : Owner)
      → view s l.key ≡ some x
      → l.decode x.content ≡ some c
      → ((k : ℕ) → expired c (envs k).now ≡ false)
      → Unchanged view s (acquire l envs target kind s).1
        × ((h : Held) → (acquire l envs target kind s).0 ≢ done h)
  unfolding acquire
  acquire-live envs target kind s x c v d f =
      acquire_from-live acquire_attempts 0 envs target kind taken s x c v d f
