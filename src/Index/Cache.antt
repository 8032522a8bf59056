-- ===== src/Index/Cache.antt =====
-- internal/index/index.go: `Index`, the pure functions over entries, and the reads and the wholesale
-- write of the index object.
use vaultd.Base.{
  ℕ, String, Bool, true, false, not, ◌||◌, Option, none, some, List, [], ◌∷◌, if◌then◌else◌, ◌==◌,
  leb, ltb, Text, ◌=s=◌, filter, any_of,
}
use vaultd.Store.Port.{StoreError, not_found, failed, Answer, ok, err, ObjectInfo, Store}
use vaultd.Manifest.Entry.{Entry, Manifest, is_success, new_entry}
use vaultd.Manifest.Jsonl.{Codec, Parsed, entries, corrupt, too_long, parse_index, marshal}

-- `Index`.
pub record Index : Type 0 where
  pub entries : List Entry
  pub etag : String

-- The loop of `Latest`.
unfoldable pub latest_from : Entry → List Entry → Entry
latest_from latest [] = latest
latest_from latest (e ∷ es) =
    latest_from (if ltb latest.finished_at e.finished_at then e else latest) es

-- `Latest`.
unfoldable pub latest : List Entry → Option Entry
unfolding latest_from
latest [] = none
latest (e ∷ es) = some (latest_from e es)

-- `Backups`, with `sort.Slice` as a parameter.
abbrev pub backups : (List Entry → List Entry) → List Entry → List Entry
backups sort es = sort (filter is_success es)

-- The set `gone` of `Remove`.
abbrev pub is_gone : List String → String → Bool
is_gone deleted id = any_of (λ d. id =s= d) deleted

-- The `switch` of `prune`. `IsZero` is the number 0.
abbrev pub survives : List String → ℕ → Entry → Bool
survives deleted oldest_kept e =
    if is_success e
    then not (is_gone deleted e.id)
    else (oldest_kept == 0 || leb oldest_kept e.finished_at)

-- `prune`.
unfoldable pub prune : List Entry → List String → ℕ → List Entry
prune es deleted oldest_kept = filter (survives deleted oldest_kept) es

abbrev pub marked : String → Bool → ℕ → Entry → Entry
marked level passed at e = record e {
  verified_at = some at;
  verify_level = level;
  verify_ok = some passed;
}

-- The loop of `SetVerification` over the entries.
unfoldable pub mark : String → String → Bool → ℕ → List Entry → List Entry
mark id level passed at [] = []
mark id level passed at (e ∷ es) =
    let rest = mark id level passed at es in
    if e.id =s= id then marked level passed at e ∷ rest else e ∷ rest

-- The errors: one of the store, an index that does not parse, an id that the index does not know,
-- and a write that lost the race every time.
pub data IndexError : Type 0 where
  store : StoreError → IndexError
  corrupt_line : ℕ → IndexError
  long_line : IndexError
  bad_manifest : IndexError
  unknown_backup : IndexError
  kept_changing : IndexError

pub data Outcome {ℓ} (A : Type ℓ) : Type ℓ where
  done : A → Outcome A
  fails : IndexError → Outcome A

-- `Store`, with the keys of its layout.
pub record IndexStore (S : Type 0) : Type 0 where
  pub store : Store S Text
  pub key : String
  pub target_prefix : String
  pub codec : Codec
  pub is_manifest_key : String → Bool
  pub decode_manifest : Text → Option Manifest

abbrev pub of_parsed : Parsed → String → Outcome Index
of_parsed (entries es) etag = done (record { entries = es; etag = etag })
of_parsed (corrupt n) etag = fails (corrupt_line n)
of_parsed too_long etag = fails long_line

abbrev no_index : Index
no_index = record { entries = []; etag = "" }

module _ {S : Type 0} (x : IndexStore S) where
  -- The part of `Load` behind `Get`.
  abbrev pub loaded : Answer Text → String → Outcome Index
  loaded (err not_found) etag = done no_index
  loaded (err failed) etag = fails (store failed)
  loaded (ok raw) etag = of_parsed (parse_index x.codec raw) etag

  -- `Load`. The state may change between its two calls.
  unfoldable pub load : (S → S) → S → Outcome Index × S
  load between s = elim (x.store.head x.key s) [
    | err e ↦ (elim e [ not_found ↦ done no_index | failed ↦ fails (store failed) ], s)
    | ok i ↦ (loaded (x.store.get x.key (between s)) i.etag, between s)
  ]

  -- The end of `Replace`.
  abbrev replaced : Answer ObjectInfo × S → Outcome (Unit {0}) × S
  replaced (err e, t) = (fails (store e), t)
  replaced (ok i, t) = (done tt, t)

  -- `Replace`.
  unfoldable replace : List Entry → S → Outcome (Unit {0}) × S
  replace es s = replaced (x.store.put x.key (marshal x.codec es) s)

  -- `fetch`, behind `Get`.
  abbrev fetched : Answer Text → Outcome Manifest
  fetched (err e) = fails (store e)
  fetched (ok raw) = elim (x.decode_manifest raw) [ none ↦ fails bad_manifest | some m ↦ done m ]

  -- `fetch` and `Manifest`.
  abbrev pub fetch : String → S → Outcome Manifest
  fetch k s = fetched (x.store.get k s)

  abbrev manifest_keys : List ObjectInfo → List String
  manifest_keys [] = []
  manifest_keys (i ∷ is) =
      let rest = manifest_keys is in if x.is_manifest_key i.key then i.key ∷ rest else rest

  abbrev cons_entry : String → Outcome Manifest → Outcome (List Entry) → Outcome (List Entry)
  cons_entry k (fails e) r = fails e
  cons_entry k (done m) (fails e) = fails e
  cons_entry k (done m) (done es) = done (new_entry m k ∷ es)

  -- The fetchers of `Rebuild`, one manifest after the other. The first error in order is reported.
  unfoldable fetch_all : List String → S → Outcome (List Entry)
  fetch_all [] s = done []
  fetch_all (k ∷ ks) s = cons_entry k (fetch k s) (fetch_all ks s)

  abbrev pub sorted : (List Entry → List Entry) → Outcome (List Entry) → Outcome (List Entry)
  sorted sort (fails e) = fails e
  sorted sort (done es) = done (sort es)

  -- `Rebuild`, with `sort.Slice` as a parameter.
  unfoldable rebuild : (List Entry → List Entry) → S → Outcome (List Entry)
  unfolding fetch_all
  rebuild sort s = sorted sort (fetch_all (manifest_keys (x.store.list x.target_prefix s)) s)

  -- Whether the entries come from the index object, with the entries.
  abbrev entries_of : (List Entry → List Entry) → Outcome Index × S → Outcome (List Entry × Bool)
  entries_of sort (fails e, t) = fails e
  entries_of sort (done ix, t) =
      if ix.etag =s= ""
      then elim (rebuild sort t) [ fails e ↦ fails e | done es ↦ done (es, false) ]
      else done (ix.entries, true)

  -- `Entries`, while nothing else changes the bucket.
  unfoldable pub all_entries : (List Entry → List Entry) → S → Outcome (List Entry × Bool)
  unfolding load rebuild
  all_entries sort s = entries_of sort (load (λ t. t) s)
