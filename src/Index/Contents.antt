-- ===== src/Index/Contents.antt =====
-- internal/index/index.go: the entries that `prune` leaves and that `SetVerification` changes, and
-- updates on the in-memory store without other writers.
use vaultd.Base.{
  ℕ, ◌≤◌, String, Bool, true, false, ◌||◌, none, some, List, [], ◌∷◌, ◌≡◌, ◌⊎◌, ◌↔◌, inl, inr, refl,
  arith, In, In-filter, filter-In, leb, ◌==◌, if◌then◌else◌, ◌=s=◌, =s=_iff, =s=_self, map,
  Bool-cases, leb→le, le→leb, ==_iff,
}
use vaultd.Store.Memory.{Memory, Object, find, get, head, put_if_match, mismatch, memory_store}
use vaultd.Manifest.Entry.{Entry, is_success}
use vaultd.Manifest.Jsonl.{Codec, entries, parse_index}
use vaultd.Index.Cache.{
  IndexStore, done, prune, survives, is_gone, mark, marked, load, loaded, of_parsed,
}
use vaultd.Index.Update.{Others, update_from, round, append}

is_gone-In : (deleted : List String) (id : String) → is_gone deleted id ≡ true → In id deleted
is_gone-In [] id h = absurd (cc h)
is_gone-In (d ∷ ds) id h = elim (Bool-cases (id =s= d)) [
  | inl e ↦ inl ((=s=_iff id d).0 e)
  | inr e ↦ inr (is_gone-In ds id (rw e at h))
]

In-is_gone : (deleted : List String) (id : String) → In id deleted → is_gone deleted id ≡ true
In-is_gone [] id h = absurd h.1
In-is_gone (d ∷ ds) id (inl e) = rw ((=s=_iff id d).1 e)
In-is_gone (d ∷ ds) id (inr h) = ground (arith, In-is_gone ds id h)

-- The entries that a retention pass leaves: a backup that is not among the deleted ones, and a
-- failure record that is not older than the oldest backup kept, if one is kept.
abbrev Remains : List String → ℕ → Entry → Type 0
Remains deleted oldest_kept e =
    ((is_success e ≡ true) × (¬ In e.id deleted))
    ⊎ ((is_success e ≡ false) × ((oldest_kept ≡ 0) ⊎ (oldest_kept ≤ e.finished_at)))

survives_sound :
    (deleted : List String) (oldest_kept : ℕ) (e : Entry)
    → survives deleted oldest_kept e ≡ true
    → Remains deleted oldest_kept e
survives_sound deleted oldest_kept e h = elim (Bool-cases (is_success e)) [
  | inl s ↦ inl (s, λ i. cc (rw (s, In-is_gone deleted e.id i) at h))
  | inr s ↦ inr (s, by_time (oldest_kept == 0) refl (rw s at h))
]
  where
    by_time :
        (b : Bool)
        → (oldest_kept == 0) ≡ b
        → ((oldest_kept == 0) || leb oldest_kept e.finished_at) ≡ true
        → (oldest_kept ≡ 0) ⊎ (oldest_kept ≤ e.finished_at)
    by_time true q h = inl ((==_iff oldest_kept 0).0 q)
    by_time false q h = inr (leb→le _ _ (rw q at h))

survives_complete :
    (deleted : List String) (oldest_kept : ℕ) (e : Entry)
    → Remains deleted oldest_kept e
    → survives deleted oldest_kept e ≡ true
survives_complete deleted oldest_kept e (inl (s, n)) =
    rw s (elim (Bool-cases (is_gone deleted e.id)) [
      | inl g ↦ absurd (n (is_gone-In deleted e.id g))
      | inr g ↦ rw g
    ])
survives_complete deleted oldest_kept e (inr (s, inl z)) = rw (s, (==_iff oldest_kept 0).1 z)
survives_complete deleted oldest_kept e (inr (s, inr z)) = rw s (ground (arith, le→leb _ _ z))

-- An entry is in the pruned index exactly when it was in the index and is a backup that was not
-- deleted, or a failure record that is not older than the oldest backup kept.
pub In-prune :
    (es : List Entry) (deleted : List String) (oldest_kept : ℕ) (e : Entry)
    → In e (prune es deleted oldest_kept) ↔ (In e es × Remains deleted oldest_kept e)
unfolding prune
In-prune es deleted oldest_kept e = (
  λ h.
      (let (i, s) = filter-In (survives deleted oldest_kept) e es h in
        (i, survives_sound deleted oldest_kept e s)),
  λ h.
      In-filter (survives deleted oldest_kept) e es h.0
        (survives_complete deleted oldest_kept e h.1),
)

-- What becomes of one entry when a verification is recorded.
abbrev marked_if : String → String → Bool → ℕ → Entry → Entry
marked_if id level passed at e = if e.id =s= id then marked level passed at e else e

-- Recording a verification changes the entries of that backup and no other, and keeps their order.
mark-map :
    (id level : String) (passed : Bool) (at : ℕ) (es : List Entry)
    → mark id level passed at es ≡ map (marked_if id level passed at) es
unfolding mark
mark-map id level passed at [] = refl
mark-map id level passed at (e ∷ es) = ground (arith, mark-map id level passed at es)

-- Nobody else writes.
abbrev pub quiet : Others Memory
quiet = record { before_get = λ n s. s; before_write = λ n s. s }

-- The index of a bucket in memory.
abbrev pub memory_index :
    (List ℕ → String) → (List String → List String) → String → Codec → IndexStore Memory
memory_index etag_of sort key codec = record {
  store = memory_store etag_of sort;
  key = key;
  target_prefix = "";
  codec = codec;
  is_manifest_key = λ k. false;
  decode_manifest = λ t. none;
}

module _ (etag_of : List ℕ → String) (sort : List String → List String) (key : String)
    (codec : Codec) where
  abbrev index : IndexStore Memory
  index = memory_index etag_of sort key codec

  -- On the in-memory store an `Append` succeeds where nobody else writes and the index, if there is
  -- one, parses.
  pub append-quiet :
      (e : Entry) (s : Memory) (es : List Entry)
      → ((find key s.objects ≡ none) × (es ≡ []))
        ⊎ ((o : Object) × (find key s.objects ≡ some o)
            × (parse_index codec o.content ≡ entries es))
      → (append index quiet e s).0 ≡ done tt
  unfolding append update_from round load head get put_if_match
  append-quiet e s es (inl (h, n)) = rw (h, head, load) (rw (h, mismatch))
  append-quiet e s es (inr (o, h, p)) =
      rw (h, head, load) (rw (h, get, loaded) (rw (p, of_parsed) (rw (h, =s=_self o.etag))))
