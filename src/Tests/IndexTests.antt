-- ===== src/Tests/IndexTests.antt =====
-- Instances of the theorems about the index: its format, its updates, its contents.
use vaultd.Base.{[], ◌∷◌, ◌++◌, ◌≡◌, refl, some, none, inl, codes, arith}
use vaultd.Store.Memory.{Memory, new, head, put_if_match, find}
use vaultd.Store.MemoryLaws.{view}
use vaultd.Manifest.Entry.{Entry, new_failure_entry, Outcome}
use vaultd.Manifest.Jsonl.{marshal, Codec, entries, parse_index, append_entry, IsLine, lines, trim}
use vaultd.Manifest.RoundTrip.{parse-marshal, parse-append_entry}
use vaultd.Index.Cache.{IndexStore, done, load}
use vaultd.Index.Update.{append, remove, appended, removed}
use vaultd.Index.Atomic.{IsTagged, IsFair, Updated, append-Updated, remove-Updated}
use vaultd.Index.Contents.{quiet, memory_index, append-quiet}
use vaultd.Tests.StoreTests.{bucket-IsStore, tag, keys_sorted}

abbrev pub failure : Entry
failure = record {
  id = "";
  target = "db";
  engine = "";
  outcome = Outcome.failed;
  kind = "";
  tier = "";
  started_at = 5;
  finished_at = 9;
  key = "";
  manifest_key = "";
  globals_key = "";
  bytes = 0;
  plaintext_bytes = 0;
  sha256 = "";
  verified_at = none;
  verify_level = "";
  verify_ok = none;
  phase = "dump";
  error = "x";
}

failure_test : new_failure_entry "db" 5 9 "dump" "x" ≡ failure
unfolding new_failure_entry
failure_test = refl

-- A codec that knows one entry.
abbrev codec : Codec
codec = record { encode = λ e. codes "{}"; decode = λ t. some failure }

failure-IsLine : IsLine codec failure
unfolding trim
failure-IsLine = record {
  decode_encode = refl;
  one_line = (refl, (refl, tt));
  trimmed = refl;
  nonempty = refl;
  short = omega arith;
}

lines_test : lines (codes "a" ++ 10 ∷ codes "b") ≡ codes "a" ∷ codes "b" ∷ []
unfolding lines
lines_test = refl

parse_one : parse_index codec (codes "{}") ≡ entries (failure ∷ [])
unfolding parse_index
parse_one = refl

parse-append_entry_example :
    parse_index codec (append_entry codec (codes "{}") failure)
    ≡ entries ((failure ∷ []) ++ failure ∷ [])
parse-append_entry_example =
    parse-append_entry codec (codes "{}") (failure ∷ []) failure parse_one failure-IsLine

parse-marshal_example :
    parse_index codec (marshal codec (failure ∷ failure ∷ [])) ≡ entries (failure ∷ failure ∷ [])
parse-marshal_example =
    parse-marshal codec (failure ∷ failure ∷ []) (failure-IsLine, (failure-IsLine, tt))

abbrev pub index : IndexStore Memory
index = memory_index tag keys_sorted "_index/db.jsonl" codec

abbrev empty_bucket : Memory
empty_bucket = new 3

append-quiet_example : (append index quiet failure empty_bucket).0 ≡ done tt
append-quiet_example =
    append-quiet tag keys_sorted "_index/db.jsonl" codec failure empty_bucket []
      (inl (nothing, refl))
  where
    nothing : find "_index/db.jsonl" [] ≡ none
    nothing = unfold find in refl

empty_IsTagged : IsTagged index quiet view tag empty_bucket
unfolding find
empty_IsTagged p h = absurd (cc h)

quiet-IsFair : IsFair index quiet view tag
quiet-IsFair = record {
  tagged_get = λ n s t. t;
  tagged_write = λ n s t. t;
  no_return = λ n s p q v w e. refl;
}

append_ok : (append index quiet failure empty_bucket).0 ≡ done tt
unfolding append load put_if_match head find
append_ok = refl

append-Updated_example :
    Updated index quiet view tag
      (appended codec failure)
      (append index quiet failure empty_bucket).1
append-Updated_example =
    append-Updated index quiet view tag bucket-IsStore quiet-IsFair failure empty_bucket
      empty_IsTagged append_ok

remove_ok : (remove index quiet [] 0 empty_bucket).0 ≡ done tt
unfolding remove load put_if_match head find
remove_ok = refl

remove-Updated_example :
    Updated index quiet view tag (removed codec [] 0) (remove index quiet [] 0 empty_bucket).1
remove-Updated_example =
    remove-Updated index quiet view tag bucket-IsStore quiet-IsFair [] 0 empty_bucket empty_IsTagged
      remove_ok
