-- ===== src/Store/Contract.antt =====
-- internal/storage/memory/memory.go, against the contract of the storage port, and what its calls answer
-- beyond it.
use vaultd.Base.{
  ℕ, String, true, Option, none, some, List, [], ◌∷◌, if◌then◌else◌, ◌=s=◌, =s=_iff, length, not,
  is_some, any_of, In, ◌≡◌, ◌≢◌, ◌↔◌, inl, inr, refl, ap, ◌∙◌, arith, Option-cases,
}
use text.Mathlib.Text.{starts_with}
use vaultd.Store.Port.{
  StoreError, not_found, Answer, ok, err, ObjectInfo, Store, Stored, Wrote, Matches, IsStore,
}
use vaultd.Store.Memory.{
  Object, Memory, find, remove, remove_all, info_of, keys_with, list, put, get, head, delete,
  put_if_absent, put_if_match, object_of, memory_store,
}
use vaultd.Store.Listing.{infos-there, there-infos, keys_with-prefix, find-keys_with}
use vaultd.Store.MemoryLaws.{
  find-remove, stored, view, mismatch-Matches, stored-if, insert-Wrote, head_ok, head_not_found,
  get_ok, get_not_found, absent_created, absent_present, absent_refused, match_written, match_fails,
  match_refused, delete_ok,
}

find-remove_all :
    (k : String) (ks : List String) (m : List (String × Object))
    → find k (remove_all ks m) ≡ (if any_of (λ j. j =s= k) ks then none else find k m)
unfolding remove_all
find-remove_all k [] m = refl
find-remove_all k (j ∷ ks) m =
    ground (arith, find-remove_all k ks (remove j m), find-remove j k m, =s=_iff j k, =s=_iff k j)

-- What `sort.Strings` does to the members of a slice: nothing.
abbrev pub KeepsMembers : (List String → List String) → Type 0
KeepsMembers sort = (ks : List String) (k : String) → In k (sort ks) ↔ In k ks

-- What a read of an object answers.
abbrev pub answer_of : Option (Stored (List ℕ)) → Answer (List ℕ)
answer_of none = err not_found
answer_of (some o) = ok o.content

-- What the calls answer beyond the contract: exactly what is there, and a failure only of a `Put` that is told
-- to fail.
pub record IsExact (st : Store Memory (List ℕ)) : Type 0 where
  pub get_exact : (s : Memory) (k : String) → st.get k s ≡ answer_of (view s k)
  pub head_there :
      (s : Memory) (k : String) (o : Stored (List ℕ))
      → view s k ≡ some o
      → (i : ObjectInfo) × (st.head k s ≡ ok i)
        × (i.key ≡ k)
        × (i.etag ≡ o.etag)
        × (i.bytes ≡ length o.content)
  pub head_missing : (s : Memory) (k : String) → view s k ≡ none → st.head k s ≡ err not_found
  pub put_done :
      (s : Memory) (k : String) (b : List ℕ)
      → s.fail_put ≡ none
      → (i : ObjectInfo) × ((st.put k b s).0 ≡ ok i) × (i.bytes ≡ length b)
  pub put_fails :
      (s : Memory) (k : String) (b : List ℕ) (e : StoreError)
      → s.fail_put ≡ some e
      → st.put k b s ≡ (err e, s)
  pub absent_exact :
      (s : Memory) (k : String) (b : List ℕ)
      → (st.put_if_absent k b s).0 ≡ ok (not (is_some (view s k)))
  pub match_done :
      (s : Memory) (k : String) (b : List ℕ) (e : String)
      → Matches view k e s
      → (i : ObjectInfo) × ((st.put_if_match k b e s).0 ≡ ok (i, true))
  pub delete_exact :
      (ks : List String) (s : Memory)
      → ((st.delete ks s).0 ≡ ok tt)
        × ((k : String)
            → view (st.delete ks s).1 k ≡ (if any_of (λ j. j =s= k) ks then none else view s k))

module _ (etag_of : List ℕ → String) (sort : List String → List String) where
  put_ok :
      (s : Memory) (k : String) (b : List ℕ) {i : ObjectInfo}
      → (put etag_of k b s).0 ≡ ok i
      → (o : Stored (List ℕ)) × (o.content ≡ b)
        × (i.etag ≡ o.etag)
        × Wrote view k o s (put etag_of k b s).1
  unfolding put
  put_ok s k b h = elim (Option-cases s.fail_put) [
    | inr (x, e) ↦ absurd (cc (rw e at h))
    | inl e ↦ (
      record { content = b; etag = etag_of b },
      refl,
      ground (arith, e),
      rw e (insert-Wrote etag_of s k b),
    )
  ]

  listed_there :
      KeepsMembers sort
      → (s : Memory) (p : String) (i : ObjectInfo) → In i (list sort p s)
      → (starts_with p i.key ≡ true)
        × ((o : Stored (List ℕ)) × (view s i.key ≡ some o) × (i.etag ≡ o.etag))
  unfolding list
  listed_there keeps s p i h =
      let (k, o, l, f, same) = infos-there s.objects (sort (keys_with p s.objects)) i h in
      let here = keys_with-prefix p k s.objects ((keeps _ k).0 l) in
      rw same (here, (record { content = o.content; etag = o.etag }, rw f refl, refl))

  there_listed :
      KeepsMembers sort
      → (s : Memory) (p k : String) {o : Stored (List ℕ)} → view s k ≡ some o
      → starts_with p k ≡ true
      → (i : ObjectInfo) × In i (list sort p s) × (i.key ≡ k)
  unfolding list
  there_listed keeps s p k h e = elim (Option-cases (find k s.objects)) [
    | inl f ↦ absurd (cc (rw f at h))
    | inr (o, f) ↦ (
      info_of k o,
      there-infos s.objects _ k o ((keeps _ k).1 (find-keys_with p k s.objects o f e)) f,
      refl,
    )
  ]

  memory-IsExact : IsExact (memory_store etag_of sort)
  unfolding get head put put_if_absent put_if_match delete
  memory-IsExact = record {
    get_exact = λ s k. elim (Option-cases (find k s.objects)) [
      | inl f ↦ rw (f, get) refl
      | inr (o, f) ↦ rw (f, get) refl
    ];
    head_there = λ s k o h. elim (Option-cases (find k s.objects)) [
      | inl f ↦ absurd (cc (rw f at h))
      | inr (p, f) ↦ (info_of k p, rw (f, head) refl, refl, ground (arith, f), ground (arith, f))
    ];
    head_missing = λ s k h. elim (Option-cases (find k s.objects)) [
      | inl f ↦ rw (f, head) refl
      | inr (p, f) ↦ absurd (cc (rw f at h))
    ];
    put_done = λ s k b e. (info_of k (object_of etag_of s b), rw e refl, refl);
    put_fails = λ s k b e f. rw f refl;
    absent_exact = λ s k b. elim (Option-cases (find k s.objects)) [
      | inl f ↦ rw f refl
      | inr (o, f) ↦ rw f refl
    ];
    match_done =
        λ s k b e h. (info_of k (object_of etag_of s b), rw (mismatch-Matches s k e h) refl);
    delete_exact = λ ks s. (refl, λ k. ap stored (find-remove_all k ks s.objects) ∙ stored-if _ _);
  }

-- The in-memory store keeps the contract of the storage port, and its calls answer exactly what is there: a
-- read finds each object with its bytes, a `Put` fails only where the store is told to fail, `PutIfAbsent`
-- creates exactly where nothing is, `PutIfMatch` writes over the etag that it names, and `Delete` removes
-- the keys that it is given and no other. A hash is never the empty text, and sorting keeps the members.
pub memory-IsStore :
    (etag_of : List ℕ → String) (sort : List String → List String)
    → ((b : List ℕ) → etag_of b ≢ "")
    → KeepsMembers sort
    → IsStore (memory_store etag_of sort) view etag_of × IsExact (memory_store etag_of sort)
memory-IsStore etag_of sort n keeps = (
  record {
    size = length;
    tag_nonempty = n;
    head_ok = head_ok etag_of;
    head_not_found = head_not_found etag_of;
    get_ok = get_ok etag_of;
    get_not_found = get_not_found etag_of;
    put_ok = put_ok etag_of sort;
    listed_there = listed_there etag_of sort keeps;
    there_listed = there_listed etag_of sort keeps;
    absent_created = absent_created etag_of;
    absent_present = absent_present etag_of;
    absent_refused = absent_refused etag_of;
    match_written = match_written etag_of;
    match_fails = match_fails etag_of;
    match_refused = match_refused etag_of;
    delete_ok = delete_ok;
  },
  memory-IsExact etag_of sort,
)
