-- ===== src/Store/Port.antt =====
-- internal/core/ports.go: `ObjectInfo`, `Store` and `ErrNotFound`.
use text.Mathlib.Text.{starts_with}
use vaultd.Base.{
  ℕ, String, Bool, true, false, Option, none, some, List, [], ◌∷◌, ◌≡◌, ◌≢◌, ◌⊎◌, inl, inr, refl,
  In,
}

-- `errors.Is(err, ErrNotFound)` is the one thing that callers ask of an error.
pub data StoreError : Type 0 where
  not_found failed : StoreError

-- What a call of the store reports.
pub data Answer {ℓ} (A : Type ℓ) : Type ℓ where
  ok : A → Answer A
  err : StoreError → Answer A

pub Answer-cases {ℓ} :
    {A : Type ℓ} (a : Answer A) → ((x : A) × (a ≡ ok x)) ⊎ ((e : StoreError) × (a ≡ err e))
Answer-cases (ok x) = inl (x, refl)
Answer-cases (err e) = inr (e, refl)

pub record ObjectInfo : Type 0 where
  pub key : String
  pub bytes : ℕ
  pub etag : String
  pub last_modified : ℕ
  pub sha256 : String

-- What the bucket holds under a key.
pub record Stored (B : Type 0) : Type 0 where
  pub content : B
  pub etag : String

-- `Store`. A read leaves the state as it is.
pub record Store (S B : Type 0) : Type 0 where
  pub put : String → B → S → Answer ObjectInfo × S
  pub get : String → S → Answer B
  pub head : String → S → Answer ObjectInfo
  pub list : String → S → List ObjectInfo
  pub delete : List String → S → Answer (Unit {0}) × S
  pub put_if_absent : String → B → S → Answer Bool × S
  pub put_if_match : String → B → String → S → Answer (ObjectInfo × Bool) × S

module _ {S B : Type 0} (view : S → String → Option (Stored B)) where
  -- A call left every object as it was.
  abbrev pub Unchanged : S → S → Type 0
  Unchanged s t = (j : String) → view t j ≡ view s j

  -- A call wrote one object and left the others as they were.
  abbrev pub Wrote : String → Stored B → S → S → Type 0
  Wrote k o s t = (view t k ≡ some o) × ((j : String) → j ≢ k → view t j ≡ view s j)

  -- The condition of `PutIfMatch`: the object carries the etag, or there is none and none is named.
  abbrev pub Matches : String → String → S → Type 0
  Matches k e s =
      ((view s k ≡ none) × (e ≡ "")) ⊎ ((o : Stored B) × (view s k ≡ some o) × (o.etag ≡ e))

-- The contract: reads and listings report the objects that are there, a write that succeeds replaces one
-- object, a conditional write gives it the etag of its bytes, and it happens only under its condition,
-- whatever else goes wrong. Any call may fail. `size` is the length of a content.
pub record IsStore {S B : Type 0} (st : Store S B) (view : S → String → Option (Stored B))
    (tag : B → String) : Type 0 where
  pub size : B → ℕ
  pub tag_nonempty : (b : B) → tag b ≢ ""
  pub head_ok :
      (s : S) (k : String) {i : ObjectInfo}
      → st.head k s ≡ ok i
      → (o : Stored B) × (view s k ≡ some o) × (i.etag ≡ o.etag) × (i.bytes ≡ size o.content)
  pub head_not_found : (s : S) (k : String) → st.head k s ≡ err not_found → view s k ≡ none
  pub get_ok :
      (s : S) (k : String) {b : B}
      → st.get k s ≡ ok b
      → (o : Stored B) × (view s k ≡ some o) × (o.content ≡ b)
  pub get_not_found : (s : S) (k : String) → st.get k s ≡ err not_found → view s k ≡ none
  pub put_ok :
      (s : S) (k : String) (b : B) {i : ObjectInfo}
      → (st.put k b s).0 ≡ ok i
      → (o : Stored B) × (o.content ≡ b) × (i.etag ≡ o.etag) × Wrote view k o s (st.put k b s).1
  pub listed_there :
      (s : S) (p : String) (i : ObjectInfo)
      → In i (st.list p s)
      → (starts_with p i.key ≡ true)
        × ((o : Stored B) × (view s i.key ≡ some o) × (i.etag ≡ o.etag))
  pub there_listed :
      (s : S) (p k : String) {o : Stored B}
      → view s k ≡ some o
      → starts_with p k ≡ true
      → (i : ObjectInfo) × In i (st.list p s) × (i.key ≡ k)
  pub absent_created :
      (s : S) (k : String) (b : B)
      → (st.put_if_absent k b s).0 ≡ ok true
      → (view s k ≡ none)
        × Wrote view k (record { content = b; etag = tag b }) s (st.put_if_absent k b s).1
  pub absent_present :
      (s : S) (k : String) (b : B) {o : Stored B}
      → view s k ≡ some o
      → Unchanged view s (st.put_if_absent k b s).1
  pub absent_refused :
      (s : S) (k : String) (b : B)
      → (st.put_if_absent k b s).0 ≡ ok false
      → Unchanged view s (st.put_if_absent k b s).1
  pub match_written :
      (s : S) (k : String) (b : B) (e : String) {i : ObjectInfo}
      → (st.put_if_match k b e s).0 ≡ ok (i, true)
      → Matches view k e s
        × (i.etag ≡ tag b)
        × Wrote view k (record { content = b; etag = tag b }) s (st.put_if_match k b e s).1
  pub match_fails :
      (s : S) (k : String) (b : B) (e : String)
      → ¬ Matches view k e s
      → Unchanged view s (st.put_if_match k b e s).1
  pub match_refused :
      (s : S) (k : String) (b : B) (e : String) {i : ObjectInfo}
      → (st.put_if_match k b e s).0 ≡ ok (i, false)
      → Unchanged view s (st.put_if_match k b e s).1
  pub delete_ok :
      (s : S) (k : String)
      → (st.delete (k ∷ []) s).0 ≡ ok tt
      → (view (st.delete (k ∷ []) s).1 k ≡ none)
        × ((j : String) → j ≢ k → view (st.delete (k ∷ []) s).1 j ≡ view s j)
