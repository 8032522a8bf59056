-- ===== src/Store/MemoryLaws.antt =====
-- internal/storage/memory/memory.go: what each call does to the objects.
use vaultd.Base.{
  ℕ, String, true, false, Option, none, some, List, [], ◌∷◌, if◌then◌else◌, ◌=s=◌, =s=_iff,
  =s=_self, =s=_ne, ◌≡◌, ◌≢◌, inl, inr, refl, arith, Bool-cases, Option-cases, is_some, Bool,
  length, ap, ◌∙◌, some_eq,
}
use vaultd.Store.Port.{not_found, ok, err, ObjectInfo, Stored, Unchanged, Wrote, Matches}
use vaultd.Store.Memory.{
  put, Object, Memory, find, insert, remove, get, head, delete, put_if_absent, put_if_match,
  mismatch, object_of,
}

find-insert :
    (k j : String) (o : Object) (m : List (String × Object))
    → find j (insert k o m) ≡ (if j =s= k then some o else find j m)
unfolding find insert
find-insert k j o [] = refl
find-insert k j o ((i, p) ∷ m) =
    ground (arith, =s=_iff k i, =s=_iff j i, =s=_iff j k, find-insert k j o m)

pub find-remove :
    (k j : String) (m : List (String × Object))
    → find j (remove k m) ≡ (if j =s= k then none else find j m)
unfolding find remove
find-remove k j [] = ground arith
find-remove k j ((i, p) ∷ m) =
    ground (arith, =s=_iff k i, =s=_iff j i, =s=_iff j k, find-remove k j m)

abbrev pub stored : Option Object → Option (Stored (List ℕ))
stored none = none
stored (some o) = some (record { content = o.content; etag = o.etag })

-- What the bucket holds, without the times.
abbrev pub view : Memory → String → Option (Stored (List ℕ))
view s k = stored (find k s.objects)

mismatch-false :
    (s : Memory) (k e : String) → mismatch (find k s.objects) e ≡ false → Matches view k e s
mismatch-false s k e h = elim (Option-cases (find k s.objects)) [
  | inl f ↦ inl (rw f, (=s=_iff e "").0 (ground (arith, rw f at h)))
  | inr (o, f) ↦ inr (
    record { content = o.content; etag = o.etag },
    rw f,
    (=s=_iff o.etag e).0 (ground (arith, rw f at h)),
  )
]

pub mismatch-Matches :
    (s : Memory) (k e : String) → Matches view k e s → mismatch (find k s.objects) e ≡ false
mismatch-Matches s k e h = elim (Option-cases (find k s.objects)) [
  | inl f ↦ missing f h
  | inr (o, f) ↦ there o f h
]
  where
    missing : find k s.objects ≡ none → Matches view k e s → mismatch (find k s.objects) e ≡ false
    missing f (inl (v, same)) = rw (f, same) refl
    missing f (inr (o, v, same)) = absurd (cc (rw f at v))

    there :
        (o : Object)
        → find k s.objects ≡ some o
        → Matches view k e s
        → mismatch (find k s.objects) e ≡ false
    there o f (inl (v, same)) = absurd (cc (rw f at v))
    there o f (inr (p, v, same)) =
        let etags : o.etag ≡ e =
          ap (λ (x : Stored (List ℕ)). x.etag) (some_eq (rw f at v)) ∙ same in
        rw (f, (=s=_iff o.etag e).1 etags) refl

pub stored-if :
    (b : Bool) (o : Option Object) → stored (if b then none else o) ≡ (if b then none else stored o)
stored-if true o = refl
stored-if false o = refl

module _ (etag_of : List ℕ → String) where
  pub insert-Wrote :
      (s : Memory) (k : String) (b : List ℕ)
      → Wrote view k
          (record { content = b; etag = etag_of b })
          s
          (record s { objects = insert k (object_of etag_of s b) s.objects })
  insert-Wrote s k b = (
    rw (find-insert k k (object_of etag_of s b) s.objects, =s=_self k),
    λ j n. rw (find-insert k j (object_of etag_of s b) s.objects, =s=_ne j k n),
  )

  -- A `Put`, done or refused, touches no other object.
  pub put-others :
      (s : Memory) (k : String) (b : List ℕ) (j : String)
      → j ≢ k
      → view (put etag_of k b s).1 j ≡ view s j
  unfolding put
  put-others s k b j n = elim (Option-cases s.fail_put) [
    | inl e ↦ rw e ((insert-Wrote s k b).1 j n)
    | inr (x, e) ↦ rw e refl
  ]

  pub head_ok :
      (s : Memory) (k : String) {i : ObjectInfo}
      → head k s ≡ ok i
      → (o : Stored (List ℕ)) × (view s k ≡ some o)
        × (i.etag ≡ o.etag)
        × (i.bytes ≡ length o.content)
  unfolding head
  head_ok s k h = elim (Option-cases (find k s.objects)) [
    | inl e ↦ absurd (cc (rw (e, head) at h))
    | inr (o, e) ↦ (record { content = o.content; etag = o.etag }, rw e, ground arith, ground arith)
  ]

  pub head_not_found : (s : Memory) (k : String) → head k s ≡ err not_found → view s k ≡ none
  unfolding head
  head_not_found s k h = elim (Option-cases (find k s.objects)) [
    | inl e ↦ rw e
    | inr (o, e) ↦ absurd (cc (rw (e, head) at h))
  ]

  pub get_ok :
      (s : Memory) (k : String) {b : List ℕ}
      → get k s ≡ ok b
      → (o : Stored (List ℕ)) × (view s k ≡ some o) × (o.content ≡ b)
  unfolding get
  get_ok s k h = elim (Option-cases (find k s.objects)) [
    | inl e ↦ absurd (cc (rw (e, get) at h))
    | inr (o, e) ↦ (record { content = o.content; etag = o.etag }, rw e, ground arith)
  ]

  pub get_not_found : (s : Memory) (k : String) → get k s ≡ err not_found → view s k ≡ none
  unfolding get
  get_not_found s k h = elim (Option-cases (find k s.objects)) [
    | inl e ↦ rw e
    | inr (o, e) ↦ absurd (cc (rw (e, get) at h))
  ]

  view-some :
      (s : Memory) (k : String) {o : Stored (List ℕ)}
      → view s k ≡ some o
      → is_some (find k s.objects) ≡ true
  view-some s k h = elim (Option-cases (find k s.objects)) [
    | inl e ↦ absurd (cc (rw e at h))
    | inr (o, e) ↦ rw e
  ]

  pub absent_created :
      (s : Memory) (k : String) (b : List ℕ)
      → (put_if_absent etag_of k b s).0 ≡ ok true
      → (view s k ≡ none)
        × Wrote view k (record { content = b; etag = etag_of b }) s (put_if_absent etag_of k b s).1
  unfolding put_if_absent
  absent_created s k b h = elim (Option-cases (find k s.objects)) [
    | inl e ↦ (rw e, rw e (insert-Wrote s k b))
    | inr (o, e) ↦ absurd (cc (rw e at h))
  ]

  pub absent_present :
      (s : Memory) (k : String) (b : List ℕ) {o : Stored (List ℕ)}
      → view s k ≡ some o
      → Unchanged view s (put_if_absent etag_of k b s).1
  unfolding put_if_absent
  absent_present s k b h = rw (view-some s k h) (λ j. refl)

  pub absent_refused :
      (s : Memory) (k : String) (b : List ℕ)
      → (put_if_absent etag_of k b s).0 ≡ ok false
      → Unchanged view s (put_if_absent etag_of k b s).1
  unfolding put_if_absent
  absent_refused s k b h = elim (Bool-cases (is_some (find k s.objects))) [
    | inl e ↦ rw e (λ j. refl)
    | inr e ↦ absurd (cc (rw e at h))
  ]

  pub match_written :
      (s : Memory) (k : String) (b : List ℕ) (e : String) {i : ObjectInfo}
      → (put_if_match etag_of k b e s).0 ≡ ok (i, true)
      → Matches view k e s
        × (i.etag ≡ etag_of b)
        × Wrote view k (record { content = b; etag = etag_of b }) s (put_if_match etag_of k b e s).1
  unfolding put_if_match
  match_written s k b e h = elim (Bool-cases (mismatch (find k s.objects) e)) [
    | inl f ↦ absurd (cc (rw f at h))
    | inr f ↦ (mismatch-false s k e f, ground arith, rw f (insert-Wrote s k b))
  ]

  pub match_fails :
      (s : Memory) (k : String) (b : List ℕ) (e : String)
      → ¬ Matches view k e s
      → Unchanged view s (put_if_match etag_of k b e s).1
  unfolding put_if_match
  match_fails s k b e n = elim (Bool-cases (mismatch (find k s.objects) e)) [
    | inl f ↦ rw f (λ j. refl)
    | inr f ↦ absurd (n (mismatch-false s k e f))
  ]

  pub match_refused :
      (s : Memory) (k : String) (b : List ℕ) (e : String) {i : ObjectInfo}
      → (put_if_match etag_of k b e s).0 ≡ ok (i, false)
      → Unchanged view s (put_if_match etag_of k b e s).1
  unfolding put_if_match
  match_refused s k b e h = elim (Bool-cases (mismatch (find k s.objects) e)) [
    | inl f ↦ rw f (λ j. refl)
    | inr f ↦ absurd (cc (rw f at h))
  ]

pub delete_ok :
    (s : Memory) (k : String)
    → (delete (k ∷ []) s).0 ≡ ok tt
    → (view (delete (k ∷ []) s).1 k ≡ none)
      × ((j : String) → j ≢ k → view (delete (k ∷ []) s).1 j ≡ view s j)
unfolding delete
delete_ok s k h = (
  rw (find-remove k k s.objects, =s=_self k),
  λ j n. rw (find-remove k j s.objects, =s=_ne j k n),
)
