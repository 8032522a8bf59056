-- ===== src/Store/Memory.antt =====
-- internal/storage/memory/memory.go. The map is an association list without repeated keys; the
-- mutex makes each method one step. `etag2` is SHA-256 in hexadecimal and `sort.Strings` sorts the
-- keys of a listing: both are parameters.
use text.Mathlib.Text.{starts_with}
use vaultd.Base.{
  ℕ, String, Bool, true, false, Option, none, some, List, [], ◌∷◌, if◌then◌else◌, ◌=s=◌, length,
  not, is_some,
}
use vaultd.Store.Port.{StoreError, not_found, Answer, ok, err, ObjectInfo, Store}

pub record Object : Type 0 where
  pub content : List ℕ
  pub etag : String
  pub modified : ℕ

-- `Store`. `now` is what the clock says.
pub record Memory : Type 0 where
  pub objects : List (String × Object)
  pub now : ℕ
  pub fail_put : Option StoreError

-- `s.objects[key]`.
unfoldable pub find : String → List (String × Object) → Option Object
find k [] = none
find k ((j, o) ∷ m) = if k =s= j then some o else find k m

-- `s.objects[key] = obj`.
unfoldable pub insert : String → Object → List (String × Object) → List (String × Object)
insert k o [] = (k, o) ∷ []
insert k o ((j, p) ∷ m) = if k =s= j then (k, o) ∷ m else (j, p) ∷ insert k o m

-- `delete(s.objects, key)`.
unfoldable pub remove : String → List (String × Object) → List (String × Object)
remove k [] = []
remove k ((j, p) ∷ m) = let rest = remove k m in if k =s= j then rest else (j, p) ∷ rest

-- The loop of `Delete`.
unfoldable pub remove_all : List String → List (String × Object) → List (String × Object)
unfolding remove
remove_all [] m = m
remove_all (k ∷ ks) m = remove_all ks (remove k m)

-- `New`.
abbrev pub new : ℕ → Memory
new now = record { objects = []; now = now; fail_put = none }

abbrev pub info_of : String → Object → ObjectInfo
info_of k o = record {
  key = k;
  bytes = length o.content;
  etag = o.etag;
  last_modified = o.modified;
  sha256 = "";
}

-- `Get`.
unfoldable pub get : String → Memory → Answer (List ℕ)
unfolding find
get k s = elim (find k s.objects) [ none ↦ err not_found | some o ↦ ok o.content ]

-- `Head`.
unfoldable pub head : String → Memory → Answer ObjectInfo
unfolding find
head k s = elim (find k s.objects) [ none ↦ err not_found | some o ↦ ok (info_of k o) ]

-- `Delete`.
unfoldable pub delete : List String → Memory → Answer (Unit {0}) × Memory
unfolding remove_all
delete ks s = (ok tt, record s { objects = remove_all ks s.objects })

-- The keys of a listing that start with the prefix.
abbrev pub keys_with : String → List (String × Object) → List String
keys_with p [] = []
keys_with p ((k, o) ∷ m) = let rest = keys_with p m in if starts_with p k then k ∷ rest else rest

-- The second loop of `List`.
unfoldable pub infos : List (String × Object) → List String → List ObjectInfo
unfolding find
infos m [] = []
infos m (k ∷ ks) =
    let rest = infos m ks in elim (find k m) [ none ↦ rest | some o ↦ info_of k o ∷ rest ]

-- `List`.
unfoldable pub list : (List String → List String) → String → Memory → List ObjectInfo
unfolding infos
list sort p s = infos s.objects (sort (keys_with p s.objects))

-- The `switch` of `PutIfMatch`: whether the write is refused.
abbrev pub mismatch : Option Object → String → Bool
mismatch none e = not (e =s= "")
mismatch (some o) e = not (o.etag =s= e)

abbrev no_info : ObjectInfo
no_info = record { key = ""; bytes = 0; etag = ""; last_modified = 0; sha256 = "" }

module _ (etag_of : List ℕ → String) where
  abbrev pub object_of : Memory → List ℕ → Object
  object_of s b = record { content = b; etag = etag_of b; modified = s.now }

  -- `write`.
  unfoldable pub write : String → List ℕ → Memory → ObjectInfo × Memory
  unfolding insert
  write k b s =
      (info_of k (object_of s b), record s { objects = insert k (object_of s b) s.objects })

  -- `Put`. The reader has been read to its end.
  unfoldable pub put : String → List ℕ → Memory → Answer ObjectInfo × Memory
  unfolding write
  put k b s = elim s.fail_put [
    | some e ↦ (err e, s)
    | none ↦ (let (i, t) = write k b s in (ok i, t))
  ]

  -- `PutIfAbsent`.
  unfoldable pub put_if_absent : String → List ℕ → Memory → Answer Bool × Memory
  unfolding find insert
  put_if_absent k b s =
      if is_some (find k s.objects)
      then (ok false, s)
      else (ok true, record s { objects = insert k (object_of s b) s.objects })

  -- `PutIfMatch`.
  unfoldable pub put_if_match :
      String → List ℕ → String → Memory → Answer (ObjectInfo × Bool) × Memory
  unfolding find insert
  put_if_match k b e s = if mismatch (find k s.objects) e then (ok (no_info, false), s) else (
    ok (info_of k (object_of s b), true),
    record s { objects = insert k (object_of s b) s.objects },
  )

-- `var _ core.Store = (*Store)(nil)`.
abbrev pub memory_store : (List ℕ → String) → (List String → List String) → Store Memory (List ℕ)
memory_store etag_of sort = record {
  put = put etag_of;
  get = get;
  head = head;
  list = list sort;
  delete = delete;
  put_if_absent = put_if_absent etag_of;
  put_if_match = put_if_match etag_of;
}
