-- ===== src/Tests/LockTests.antt =====
-- Instances of the theorems about internal/lock on the in-memory store.
use vaultd.Base.{
  String, ℕ, List, [], ◌∷◌, ◌≡◌, ◌≢◌, refl, true, false, some, none, Option, inl, inr,
}
use vaultd.Store.Port.{Stored, Unchanged, Matches}
use vaultd.Store.Memory.{Memory, get, head, put_if_absent, put_if_match, delete, find}
use vaultd.Store.MemoryLaws.{view}
use vaultd.Lock.Types.{Owner, Env, Locker, Held, locked}
use vaultd.Lock.Locker.{done, fails, acquire, renew, extended, beat, release}
use vaultd.Lock.Acquire.{Owns, acquire-Owns}
use vaultd.Lock.Live.{acquire-live}
use vaultd.Lock.Renew.{renew-Owns, beat-stolen, release-foreign, release-gone}
use vaultd.Tests.StoreTests.{bucket, bucket-IsStore, tag}

abbrev owner : ℕ → ℕ → Owner
owner pid ends = record {
  id = "id";
  target = "db";
  host = "h";
  pid = pid;
  kind = "backup";
  acquired_at = 10;
  expires_at = ends;
  version = "v";
}

abbrev decode : List ℕ → Option Owner
decode (p ∷ t ∷ []) = some (owner p t)
decode _ = none

abbrev pub locker : Locker Memory (List ℕ)
locker = record {
  store = bucket;
  key = "_locks/db.lock";
  ttl = 100;
  encode = λ o. o.pid ∷ o.expires_at ∷ [];
  decode = decode;
}

abbrev pub at_time : ℕ → ℕ → Env
at_time now n = record { now = now; id = "id"; host = "h"; pid = 1; version = "v" }

-- A bucket in which another process holds the lock until 200.
abbrev taken : Memory
taken = record {
  objects = ("_locks/db.lock", record { content = 2 ∷ 200 ∷ []; etag = "more"; modified = 5 }) ∷ [];
  now = 10;
  fail_put = none;
}

abbrev lock_object : Stored (List ℕ)
lock_object = record { content = 2 ∷ 200 ∷ []; etag = "more" }

lock_object-view : view taken "_locks/db.lock" ≡ some lock_object
unfolding find
lock_object-view = refl

acquire-live_example :
    Unchanged view taken (acquire locker (at_time 50) "db" "backup" taken).1
    × ((h : Held) → (acquire locker (at_time 50) "db" "backup" taken).0 ≢ done h)
acquire-live_example =
    acquire-live locker view tag bucket-IsStore (at_time 50) "db" "backup" taken lock_object
      (owner 2 200) lock_object-view refl (λ k. refl)

-- The loser learns who holds the lock.
locked_test : (acquire locker (at_time 50) "db" "backup" taken).0 ≡ fails (locked (owner 2 200))
unfolding acquire put_if_absent head get find
locked_test = refl

abbrev mine : Held
mine = record {
  owner = record {
    id = "id";
    target = "db";
    host = "h";
    pid = 1;
    kind = "backup";
    acquired_at = 300;
    expires_at = 400;
    version = "v";
  };
  etag = "more";
  released = false;
  lost = false;
}

-- An expired lease is taken over.
taken_over : (acquire locker (at_time 300) "db" "backup" taken).0 ≡ done mine
unfolding acquire put_if_absent put_if_match head get find
taken_over = refl

acquire-Owns_example : Owns locker view (acquire locker (at_time 300) "db" "backup" taken).1 mine
acquire-Owns_example =
    acquire-Owns locker view tag bucket-IsStore (at_time 300) "db" "backup" taken mine taken_over

abbrev theirs : Held
theirs = record { owner = owner 2 200; etag = "more"; released = false; lost = false }

renewed_test : (renew locker 150 theirs taken).0 ≡ done (record theirs { owner = owner 2 250 })
unfolding renew put_if_match find
renewed_test = refl

renew-Owns_example :
    Matches view "_locks/db.lock" "more" taken
    × (owner 2 250 ≡ extended locker 150 (owner 2 200))
    × Owns locker view (renew locker 150 theirs taken).1 (record theirs { owner = owner 2 250 })
renew-Owns_example =
    renew-Owns locker view tag bucket-IsStore 150 theirs taken
      (record theirs { owner = owner 2 250 }) renewed_test

abbrev stale : Held
stale = record theirs { etag = "old" }

not_stale : ¬ Matches view "_locks/db.lock" "old" taken
unfolding find
not_stale (inl m) = cc (m.0)
not_stale (inr (o, e, f)) = cc (e, f)

beat-stolen_example :
    ((beat locker 150 stale taken).0.lost ≡ true)
    × Unchanged view taken (beat locker 150 stale taken).1
beat-stolen_example = beat-stolen locker view tag bucket-IsStore 150 stale taken not_stale refl

more-ne-old : ◌≢◌ {A = String} "more" "old"
more-ne-old = λ e. cc

-- Another process takes the lock over.
abbrev overtaken : Memory → Memory
overtaken s = record s {
  objects = ("_locks/db.lock", record { content = 3 ∷ 900 ∷ []; etag = "one"; modified = 6 }) ∷ [];
}

release-foreign_example :
    Unchanged view taken (release locker overtaken stale taken).2
    × ((release locker overtaken stale taken).1.released ≡ true)
release-foreign_example =
    release-foreign locker view tag bucket-IsStore overtaken stale taken lock_object
      lock_object-view more-ne-old

release_ok : (release locker overtaken theirs taken).0 ≡ none
unfolding release head delete find
release_ok = refl

release-gone_example :
    (view (release locker overtaken theirs taken).2 "_locks/db.lock" ≡ none)
    × ((j : String)
        → j ≢ "_locks/db.lock"
        → view (release locker overtaken theirs taken).2 j ≡ view (overtaken taken) j)
release-gone_example =
    release-gone locker view tag bucket-IsStore overtaken theirs taken lock_object refl
      lock_object-view refl release_ok
