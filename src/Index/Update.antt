-- ===== src/Index/Update.antt =====
-- internal/index/index.go: the three conditional read-modify-writes, `Append`, `Remove` and
-- `SetVerification`. They are one loop over what each does to the entries.
use vaultd.Base.{ℕ, zero, suc, String, Bool, true, false, List, if◌then◌else◌, Text, ◌=s=◌, any_of}
use vaultd.Store.Port.{Answer, ok, err, ObjectInfo}
use vaultd.Manifest.Entry.{Entry}
use vaultd.Manifest.Jsonl.{Codec, marshal, append_entry}
use vaultd.Index.Cache.{
  Index, store, unknown_backup, kept_changing, Outcome, done, fails, IndexStore, load, prune, mark,
}

-- `appendAttempts`.
abbrev pub append_attempts : ℕ
append_attempts = 5

-- What happens between the calls of attempt `n`.
pub record Others (S : Type 0) : Type 0 where
  pub before_get : ℕ → S → S
  pub before_write : ℕ → S → S

-- What `Append` writes over the entries that it read.
abbrev pub appended : Codec → Entry → List Entry → Outcome Text
appended c e es = done (append_entry c (marshal c es) e)

-- What `Remove` writes.
abbrev pub removed : Codec → List String → ℕ → List Entry → Outcome Text
removed c deleted oldest_kept es = done (marshal c (prune es deleted oldest_kept))

-- What `SetVerification` writes; it refuses an id that no entry has.
abbrev pub verified : Codec → String → String → Bool → ℕ → List Entry → Outcome Text
verified c id level passed at es =
    if any_of (λ (e : Entry). e.id =s= id) es
    then done (marshal c (mark id level passed at es))
    else fails unknown_backup

module _ {S : Type 0} (x : IndexStore S) (o : Others S) where
  -- The conditional write of one attempt; `again` is the next attempt.
  abbrev pub after_write :
      Answer (ObjectInfo × Bool) × S → (S → Outcome (Unit {0}) × S) → Outcome (Unit {0}) × S
  after_write (err e, t) again = (fails (store e), t)
  after_write (ok (i, true), t) again = (done tt, t)
  after_write (ok (i, false), t) again = again t

  abbrev pub write_back :
      ℕ → String → Outcome Text → S → (S → Outcome (Unit {0}) × S) → Outcome (Unit {0}) × S
  write_back n etag (fails e) t again = (fails e, t)
  write_back n etag (done raw) t again =
      after_write (x.store.put_if_match x.key raw etag (o.before_write n t)) again

  -- The part of an attempt behind `Load`.
  abbrev pub after_load :
      ℕ
      → (List Entry → Outcome Text)
      → (S → Outcome (Unit {0}) × S)
      → Outcome Index × S
      → Outcome (Unit {0}) × S
  after_load n change again (fails e, t) = (fails e, t)
  after_load n change again (done ix, t) = write_back n ix.etag (change ix.entries) t again

  -- One attempt.
  unfoldable pub round :
      ℕ → (List Entry → Outcome Text) → S → (S → Outcome (Unit {0}) × S) → Outcome (Unit {0}) × S
  round n change s again = after_load n change again (load x (o.before_get n) s)

  -- The loop over the attempts.
  unfoldable pub update_from : ℕ → ℕ → (List Entry → Outcome Text) → S → Outcome (Unit {0}) × S
  unfolding round
  update_from zero n change s = (fails kept_changing, s)
  update_from (suc rounds) n change s = round n change s (update_from rounds (suc n) change)

  -- `Append`.
  unfoldable pub append : Entry → S → Outcome (Unit {0}) × S
  unfolding update_from
  append e s = update_from append_attempts 0 (appended x.codec e) s

  -- `Remove`.
  unfoldable pub remove : List String → ℕ → S → Outcome (Unit {0}) × S
  unfolding update_from
  remove deleted oldest_kept s =
      update_from append_attempts 0 (removed x.codec deleted oldest_kept) s

  -- `SetVerification`.
  unfoldable pub set_verification : String → String → Bool → ℕ → S → Outcome (Unit {0}) × S
  unfolding update_from
  set_verification id level passed at s =
      update_from append_attempts 0 (verified x.codec id level passed at) s
