-- ===== src/Index/Atomic.antt =====
-- internal/index/index.go: the updates of the index among other writers.
use vaultd.Base.{
  ℕ, zero, suc, String, Bool, true, false, Option, none, some, List, [], Text, ◌≡◌, ◌≢◌, ◌⊎◌, inl,
  inr, refl, sym, ap, ◌∙◌, subst,
}
use vaultd.Store.Port.{
  Answer-cases, not_found, failed, Answer, ok, err, ObjectInfo, Stored, IsStore, Unchanged, Wrote,
  Matches,
}
use vaultd.Manifest.Entry.{Entry}
use vaultd.Manifest.Jsonl.{Parsed, entries, corrupt, too_long, parse_index}
use vaultd.Index.Cache.{Outcome, done, fails, IndexStore, load, loaded, of_parsed}
use vaultd.Index.Update.{
  Others, after_write, write_back, after_load, round, update_from, append_attempts, append, remove,
  set_verification, appended, removed, verified,
}

module _ {S : Type 0} (x : IndexStore S) (o : Others S) (view : S → String → Option (Stored Text))
    (tag : Text → String) where
  -- The etag of the index object is not empty.
  abbrev pub IsTagged : S → Type 0
  IsTagged s = (p : Stored Text) → view s x.key ≡ some p → p.etag ≢ ""

  -- What is assumed of the other writers: they leave no empty etag, and a version of the index that
  -- was overwritten before the `Get` is not back at the write under its old etag.
  pub record IsFair : Type 0 where
    pub tagged_get : (n : ℕ) (s : S) → IsTagged s → IsTagged (o.before_get n s)
    pub tagged_write : (n : ℕ) (s : S) → IsTagged s → IsTagged (o.before_write n s)
    pub no_return :
        (n : ℕ) (s : S) (p q : Stored Text)
        → view s x.key ≡ some p
        → view (o.before_write n (o.before_get n s)) x.key ≡ some q
        → q.etag ≡ p.etag
        → view (o.before_get n s) x.key ≡ view (o.before_write n (o.before_get n s)) x.key

  -- The entries that the bucket holds: those of the index object, or none without one.
  abbrev Holds : S → List Entry → Type 0
  Holds s es =
      ((view s x.key ≡ none) × (es ≡ []))
      ⊎ ((p : Stored Text) × (view s x.key ≡ some p) × (parse_index x.codec p.content ≡ entries es))

  -- What a successful update did: at the moment of its write the bucket held the entries that it
  -- changed, and it wrote the changed index and nothing else.
  pub record Updated (change : List Entry → Outcome Text) (t : S) : Type 0 where
    pub before : S
    pub old : List Entry
    pub raw : Text
    pub held : Holds before old
    changed : change old ≡ done raw
    pub wrote : Wrote view x.key (record { content = raw; etag = tag raw }) before t

  module _ (laws : IsStore x.store view tag) (fair : IsFair) where
    -- The entries that `Load` reports are those of the bucket at the write, if the write happens.
    not_found-Holds : (t : S) → IsTagged t → Matches view x.key "" t → Holds t []
    not_found-Holds t g (inl m) = inl (m.0, refl)
    not_found-Holds t g (inr (p, w, e)) = absurd (g p w e)

    after_write-Updated :
        (change : List Entry → Outcome Text) (es : List Entry) (raw : Text) (etag : String) (u : S)
        (again : S → Outcome (Unit {0}) × S) (a : Answer (ObjectInfo × Bool)) (t : S)
        → x.store.put_if_match x.key raw etag u ≡ (a, t)
        → IsTagged u
        → (Matches view x.key etag u → Holds u es)
        → change es ≡ done raw
        → ((v : S) → IsTagged v → (again v).0 ≡ done tt → Updated change (again v).1)
        → (after_write x o (a, t) again).0 ≡ done tt
        → Updated change (after_write x o (a, t) again).1
    after_write-Updated change es raw etag u again (err e) t p g h c ih r = absurd (cc r)
    after_write-Updated change es raw etag u again (ok (i, false)) t p g h c ih r =
        let same : Unchanged view u t =
          subst (Unchanged view u) (ap (λ (q : Answer (ObjectInfo × Bool) × S). q.1) p) (
            laws.match_refused u x.key raw etag
              (ap (λ (q : Answer (ObjectInfo × Bool) × S). q.0) p)) in
        ih t (λ q v. g q (sym (same x.key) ∙ v)) r
    after_write-Updated change es raw etag u again (ok (i, true)) t p g h c ih r =
        let (m, e, w) =
          laws.match_written u x.key raw etag
            (ap (λ (q : Answer (ObjectInfo × Bool) × S). q.0) p) in
        record {
          before = u;
          old = es;
          raw = raw;
          held = h m;
          changed = c;
          wrote =
              subst (Wrote view x.key (record { content = raw; etag = tag raw }) u)
                (ap (λ (q : Answer (ObjectInfo × Bool) × S). q.1) p) w;
        }

    write_back-Updated :
        (n : ℕ) (change : List Entry → Outcome Text) (es : List Entry) (etag : String) (t : S)
        (again : S → Outcome (Unit {0}) × S) (c : Outcome Text)
        → change es ≡ c
        → IsTagged (o.before_write n t)
        → (Matches view x.key etag (o.before_write n t) → Holds (o.before_write n t) es)
        → ((v : S) → IsTagged v → (again v).0 ≡ done tt → Updated change (again v).1)
        → (write_back x o n etag c t again).0 ≡ done tt
        → Updated change (write_back x o n etag c t again).1
    write_back-Updated n change es etag t again (fails e) q g h ih r = absurd (cc r)
    write_back-Updated n change es etag t again (done raw) q g h ih r =
        after_write-Updated change es raw etag (o.before_write n t) again _ _ refl g h q ih r

    read-Holds :
        (n : ℕ) (s : S) (i : ObjectInfo) (raw : Text) (es : List Entry)
        → IsTagged s
        → x.store.head x.key s ≡ ok i
        → x.store.get x.key (o.before_get n s) ≡ ok raw
        → parse_index x.codec raw ≡ entries es
        → Matches view x.key i.etag (o.before_write n (o.before_get n s))
        → Holds (o.before_write n (o.before_get n s)) es
    read-Holds n s i raw es t f g p (inl (v, e)) =
        let (q, w, c, z) = laws.head_ok s x.key f in absurd (t q w (sym c ∙ e))
    read-Holds n s i raw es t f g p (inr (q, w, e)) =
        let (a, u, c, z) = laws.head_ok s x.key f in
        let (b, v, d) = laws.get_ok (o.before_get n s) x.key g in
        inr (b, sym (fair.no_return n s a q u w (e ∙ c)) ∙ v, ap (parse_index x.codec) d ∙ p)

    parsed-Updated :
        (n : ℕ) (change : List Entry → Outcome Text) (s : S) (i : ObjectInfo) (raw : Text)
        (again : S → Outcome (Unit {0}) × S) (p : Parsed)
        → IsTagged s
        → x.store.head x.key s ≡ ok i
        → x.store.get x.key (o.before_get n s) ≡ ok raw
        → parse_index x.codec raw ≡ p
        → ((v : S) → IsTagged v → (again v).0 ≡ done tt → Updated change (again v).1)
        → (after_load x o n change again (of_parsed p i.etag, o.before_get n s)).0 ≡ done tt
        → Updated change (after_load x o n change again (of_parsed p i.etag, o.before_get n s)).1
    parsed-Updated n change s i raw again (corrupt k) t f g q ih r = absurd (cc r)
    parsed-Updated n change s i raw again too_long t f g q ih r = absurd (cc r)
    parsed-Updated n change s i raw again (entries es) t f g q ih r =
        write_back-Updated n change es i.etag (o.before_get n s) again (change es) refl
          (fair.tagged_write n (o.before_get n s) (fair.tagged_get n s t))
          (read-Holds n s i raw es t f g q) ih r

    round-Updated :
        (n : ℕ) (change : List Entry → Outcome Text) (s : S) (again : S → Outcome (Unit {0}) × S)
        → ((v : S) → IsTagged v → (again v).0 ≡ done tt → Updated change (again v).1)
        → IsTagged s
        → (round x o n change s again).0 ≡ done tt
        → Updated change (round x o n change s again).1
    unfolding round load
    round-Updated n change s again ih t r = elim (Answer-cases (x.store.head x.key s)) [
      | inr (not_found, f) ↦
          rw (f, load)
            (write_back-Updated n change [] "" s again (change []) refl (fair.tagged_write n s t)
              (not_found-Holds (o.before_write n s) (fair.tagged_write n s t)) ih
              (rw (f, load) at r))
      | inr (failed, f) ↦ absurd (cc (rw (f, load) at r))
      | inl (i, f) ↦ elim (Answer-cases (x.store.get x.key (o.before_get n s))) [
        | inr (not_found, g) ↦
            rw (f, g, load, loaded)
              (write_back-Updated n change [] "" (o.before_get n s) again (change []) refl
                (fair.tagged_write n (o.before_get n s) (fair.tagged_get n s t))
                (not_found-Holds (o.before_write n (o.before_get n s))
                  (fair.tagged_write n (o.before_get n s) (fair.tagged_get n s t)))
                ih (rw (f, g, load, loaded) at r))
        | inr (failed, g) ↦ absurd (cc (rw (f, g, load, loaded) at r))
        | inl (raw, g) ↦
            rw (f, g, load, loaded)
              (parsed-Updated n change s i raw again (parse_index x.codec raw) t f g refl ih
                (rw (f, g, load, loaded) at r))
      ]
    ]

    update_from-Updated :
        (rounds n : ℕ) (change : List Entry → Outcome Text) (s : S)
        → IsTagged s
        → (update_from x o rounds n change s).0 ≡ done tt
        → Updated change (update_from x o rounds n change s).1
    unfolding update_from
    update_from-Updated zero n change s t r = absurd (cc r)
    update_from-Updated (suc rounds) n change s t r =
        round-Updated n change s (update_from x o rounds (suc n) change)
          (update_from-Updated rounds (suc n) change) t r

    -- An `Append` that reports success lost no update: it wrote the entries that the bucket held at
    -- the moment of its write with the new entry behind them, and nothing else, whatever the other
    -- writers did before each of its calls. The store keeps the port's contract, and the other
    -- writers leave no empty etag and bring no overwritten version back under its etag.
    pub append-Updated :
        (e : Entry) (s : S)
        → IsTagged s
        → (append x o e s).0 ≡ done tt
        → Updated (appended x.codec e) (append x o e s).1
    unfolding append
    append-Updated e s t r = update_from-Updated append_attempts 0 (appended x.codec e) s t r

    -- A `Remove` that reports success wrote what `prune` leaves of the entries that the bucket held
    -- at the moment of its write: an entry that was appended meanwhile is not lost. The store keeps
    -- the port's contract, and the other writers leave no empty etag and bring no overwritten
    -- version back under its etag.
    pub remove-Updated :
        (deleted : List String) (oldest_kept : ℕ) (s : S)
        → IsTagged s
        → (remove x o deleted oldest_kept s).0 ≡ done tt
        → Updated (removed x.codec deleted oldest_kept) (remove x o deleted oldest_kept s).1
    unfolding remove
    remove-Updated deleted oldest_kept s t r =
        update_from-Updated append_attempts 0 (removed x.codec deleted oldest_kept) s t r

    -- A `SetVerification` that reports success wrote the outcome into the entries that the bucket
    -- held at the moment of its write, among which the backup was. The store keeps the port's
    -- contract, and the other writers leave no empty etag and bring no overwritten version back
    -- under its etag.
    set_verification-Updated :
        (id level : String) (passed : Bool) (at : ℕ) (s : S)
        → IsTagged s
        → (set_verification x o id level passed at s).0 ≡ done tt
        → Updated
            (verified x.codec id level passed at)
            (set_verification x o id level passed at s).1
    unfolding set_verification
    set_verification-Updated id level passed at s t r =
        update_from-Updated append_attempts 0 (verified x.codec id level passed at) s t r
