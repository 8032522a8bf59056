-- ===== src/Tests/StoreTests.antt =====
-- The in-memory store of internal/storage/memory at a concrete hash, and runs of it.
use vaultd.Base.{String, ℕ, List, [], ◌∷◌, ◌≡◌, ◌≢◌, refl, false}
use vaultd.Store.Port.{ok, IsStore, Store}
use vaultd.Store.Memory.{Memory, new, memory_store, get, put_if_absent, put_if_match}
use vaultd.Store.MemoryLaws.{view}
use vaultd.Store.Contract.{memory-IsStore, KeepsMembers, IsExact}

-- A hash that tells a few bytes apart.
abbrev pub tag : List ℕ → String
tag [] = "empty"
tag (a ∷ []) = "one"
tag (a ∷ b ∷ r) = "more"

tag-ne : (b : List ℕ) → tag b ≢ ""
tag-ne [] e = cc
tag-ne (a ∷ []) e = cc
tag-ne (a ∷ b ∷ r) e = cc

abbrev pub keys_sorted : List String → List String
keys_sorted ks = ks

keys_sorted-keeps : KeepsMembers keys_sorted
keys_sorted-keeps ks k = (λ h. h, λ h. h)

abbrev pub bucket : Store Memory (List ℕ)
bucket = memory_store tag keys_sorted

pub bucket-IsStore : IsStore bucket view tag
bucket-IsStore = (memory-IsStore tag keys_sorted tag-ne keys_sorted-keeps).0

memory-IsStore_example :
    IsStore (memory_store tag keys_sorted) view tag × IsExact (memory_store tag keys_sorted)
memory-IsStore_example = memory-IsStore tag keys_sorted tag-ne keys_sorted-keeps

-- A create succeeds once.
create_test :
    (put_if_absent tag "k" (1 ∷ []) (put_if_absent tag "k" (2 ∷ []) (new 7)).1).0 ≡ ok false
unfolding put_if_absent
create_test = refl

-- An overwrite under another etag is refused, and the object stays.
overwrite_test :
    get "k" (put_if_match tag "k" (1 ∷ []) "other" (put_if_absent tag "k" (2 ∷ []) (new 7)).1).1
    ≡ ok (2 ∷ [])
unfolding put_if_absent put_if_match get
overwrite_test = refl
