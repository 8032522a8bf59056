-- ===== src/Lock/Renew.antt =====
-- internal/lock/lock.go: `renew`, the heartbeat and `Release` over any store that keeps the port's
-- contract.
use vaultd.Base.{
  ℕ, String, Bool, true, false, Option, none, some, ◌=s=◌, =s=_iff, =s=_ne, [], ◌∷◌, ◌≡◌, ◌≢◌, inl,
  inr, refl, sym, ap, ◌∙◌, arith, Bool-cases, some_eq, subst,
}
use vaultd.Store.Port.{
  Answer-cases, not_found, failed, Answer, ok, err, ObjectInfo, Stored, IsStore, Unchanged, Matches,
}
use vaultd.Lock.Types.{Locker, Held, LockError, store, taken}
use vaultd.Lock.Locker.{done, fails, renew, renewed, extended, beat, drop_own, deleted, release}
use vaultd.Lock.Acquire.{Owns}

module _ {S B : Type 0} (l : Locker S B) (view : S → String → Option (Stored B)) (tag : B → String)
    (laws : IsStore l.store view tag) where
  renewed-done :
      (now : ℕ) (h : Held) (s : S) (a : Answer (ObjectInfo × Bool)) (t : S) (h' : Held)
      → l.store.put_if_match l.key (l.encode (extended l now h.owner)) h.etag s ≡ (a, t)
      → (renewed l h (extended l now h.owner) (a, t)).0 ≡ done h'
      → Matches view l.key h.etag s
        × (h'.owner ≡ extended l now h.owner)
        × Owns l view (renewed l h (extended l now h.owner) (a, t)).1 h'
  renewed-done now h s (err e) t h' p r = absurd (cc r)
  renewed-done now h s (ok (i, false)) t h' p r = absurd (cc r)
  renewed-done now h s (ok (i, true)) t h' p r =
      let o = extended l now h.owner in
      let (m, e, w) =
        laws.match_written s l.key (l.encode o) h.etag
          (ap (λ (q : Answer (ObjectInfo × Bool) × S). q.0) p) in
      let u : done (record h { owner = o; etag = i.etag }) ≡ done h' = r in
      let owners : h'.owner ≡ o = ground arith in
      let etags : h'.etag ≡ tag (l.encode o) = ground arith in
      (
        m,
        owners,
        rw (owners, etags)
            (subst
              (λ u. view u l.key ≡ some (record { content = l.encode o; etag = tag (l.encode o) }))
              (ap (λ (q : Answer (ObjectInfo × Bool) × S). q.1) p) w.0),
      )

  -- A renewal that succeeds found the lock object under the handle's etag; the lease then ends one
  -- lease length from now, and the lock object is the renewed handle's.
  pub renew-Owns :
      (now : ℕ) (h : Held) (s : S) (h' : Held)
      → (renew l now h s).0 ≡ done h'
      → Matches view l.key h.etag s
        × (h'.owner ≡ extended l now h.owner)
        × Owns l view (renew l now h s).1 h'
  unfolding renew
  renew-Owns now h s h' r = renewed-done now h s _ _ h' refl r

  renewed-stolen :
      (now : ℕ) (h : Held) (s : S) (a : Answer (ObjectInfo × Bool)) (t : S)
      → l.store.put_if_match l.key (l.encode (extended l now h.owner)) h.etag s ≡ (a, t)
      → ¬ Matches view l.key h.etag s
      → Unchanged view s (renewed l h (extended l now h.owner) (a, t)).1
        × ((e : LockError) × ((renewed l h (extended l now h.owner) (a, t)).0 ≡ fails e))
  renewed-stolen now h s a t p n = by_answer a p
    where
      kept : Unchanged view s t
      kept =
          subst (Unchanged view s) (ap (λ (q : Answer (ObjectInfo × Bool) × S). q.1) p)
            (laws.match_fails s l.key _ h.etag n)

      by_answer :
          (a : Answer (ObjectInfo × Bool))
          → l.store.put_if_match l.key (l.encode (extended l now h.owner)) h.etag s ≡ (a, t)
          → Unchanged view s (renewed l h (extended l now h.owner) (a, t)).1
            × ((e : LockError) × ((renewed l h (extended l now h.owner) (a, t)).0 ≡ fails e))
      by_answer (err e) p = (kept, (store e, refl))
      by_answer (ok (i, false)) p = (kept, (taken, refl))
      by_answer (ok (i, true)) p = absurd (
          n
            (laws.match_written s l.key _ h.etag
              (ap (λ (q : Answer (ObjectInfo × Bool) × S). q.0) p)).0)

  renew-stolen :
      (now : ℕ) (h : Held) (s : S)
      → ¬ Matches view l.key h.etag s
      → Unchanged view s (renew l now h s).1 × ((e : LockError) × ((renew l now h s).0 ≡ fails e))
  unfolding renew
  renew-stolen now h s n = renewed-stolen now h s _ _ refl n

  -- If the lock object no longer carries the etag of a running handle, the next tick of its
  -- heartbeat marks the handle as lost and changes no object.
  pub beat-stolen :
      (now : ℕ) (h : Held) (s : S)
      → ¬ Matches view l.key h.etag s
      → h.released ≡ false
      → ((beat l now h s).0.lost ≡ true) × Unchanged view s (beat l now h s).1
  unfolding beat
  beat-stolen now h s n f = elim (Bool-cases h.lost) [
    | inl g ↦ rw (f, g) (refl, λ j. refl)
    | inr g ↦ let (u, e) = renew-stolen now h s n in rw (f, g, e.1, beat) (refl, u)
  ]

  drop_own-foreign :
      (between : S → S) (etag : String) (s : S) (x : Stored B)
      → view s l.key ≡ some x
      → x.etag ≢ etag
      → Unchanged view s (drop_own l between etag s).1
  unfolding drop_own
  drop_own-foreign between etag s x v n = elim (Answer-cases (l.store.head l.key s)) [
    | inr (e, f) ↦ rw (f, drop_own) (λ j. refl)
    | inl (i, f) ↦
        let (y, w, q, z) = laws.head_ok s l.key f in
        let e : i.etag ≡ x.etag = q ∙ ap (λ (z : Stored B). z.etag) (some_eq (sym w ∙ v)) in
        rw (f, e, =s=_ne x.etag etag n, drop_own) (λ j. refl)
  ]

  -- `Release` deletes nothing if the lock object carries another etag than the handle: a lease that
  -- was taken over before the call stays with its new owner. The handle is released all the same.
  pub release-foreign :
      (between : S → S) (h : Held) (s : S) (x : Stored B)
      → view s l.key ≡ some x
      → x.etag ≢ h.etag
      → Unchanged view s (release l between h s).2 × ((release l between h s).1.released ≡ true)
  unfolding release
  release-foreign between h s x v n = elim (Bool-cases h.released) [
    | inl f ↦ rw f (λ j. refl, refl)
    | inr f ↦ rw f (drop_own-foreign between h.etag s x v n, refl)
  ]

  deleted-gone :
      (s : S) (a : Answer (Unit {0})) (t : S)
      → l.store.delete (l.key ∷ []) s ≡ (a, t)
      → (deleted l (a, t)).0 ≡ none
      → (view (deleted l (a, t)).1 l.key ≡ none)
        × ((j : String) → j ≢ l.key → view (deleted l (a, t)).1 j ≡ view s j)
  deleted-gone s (err e) t p r = absurd (cc r)
  deleted-gone s (ok u) t p r =
      subst (λ u. (view u l.key ≡ none) × ((j : String) → j ≢ l.key → view u j ≡ view s j))
        (ap (λ (q : Answer (Unit {0}) × S). q.1) p)
        (laws.delete_ok s l.key (ap (λ (q : Answer (Unit {0}) × S). q.0) p))

  drop_own-gone :
      (between : S → S) (etag : String) (s : S) (x : Stored B)
      → view s l.key ≡ some x
      → x.etag ≡ etag
      → (drop_own l between etag s).0 ≡ none
      → (view (drop_own l between etag s).1 l.key ≡ none)
        × ((j : String) → j ≢ l.key → view (drop_own l between etag s).1 j ≡ view (between s) j)
  unfolding drop_own
  drop_own-gone between etag s x v n r = elim (Answer-cases (l.store.head l.key s)) [
    | inr (not_found, f) ↦ absurd (cc (laws.head_not_found s l.key f, v))
    | inr (failed, f) ↦ absurd (cc (rw (f, drop_own) at r))
    | inl (i, f) ↦
        let (y, w, q, z) = laws.head_ok s l.key f in
        let e : i.etag ≡ etag = q ∙ (ap (λ (z : Stored B). z.etag) (some_eq (sym w ∙ v)) ∙ n) in
        let t : (i.etag =s= etag) ≡ true = (=s=_iff i.etag etag).1 e in
        rw (f, t, drop_own) (deleted-gone (between s) _ _ refl (rw (f, t, drop_own) at r))
  ]

  -- A `Release` that reports no error, of a handle that has not been released and whose etag the lock
  -- object carried at its `Head`, leaves no lock object, whatever other processes made of the lock
  -- object between that `Head` and the `Delete`: a lease that was taken over in between is deleted.
  -- The other objects are as at the `Delete`.
  pub release-gone :
      (between : S → S) (h : Held) (s : S) (x : Stored B)
      → h.released ≡ false
      → view s l.key ≡ some x
      → x.etag ≡ h.etag
      → (release l between h s).0 ≡ none
      → (view (release l between h s).2 l.key ≡ none)
        × ((j : String) → j ≢ l.key → view (release l between h s).2 j ≡ view (between s) j)
  unfolding release
  release-gone between h s x f v n r = rw f (drop_own-gone between h.etag s x v n (rw f at r))
