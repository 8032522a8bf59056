-- ===== src/Retention/Collect.antt =====
-- internal/retention/retention.go: the first loop of `survivors`, against the distinct periods in the
-- order of the backups and the backups that fall in each.
use mathlib.Core.List.{append-nil, append_assoc}
use vaultd.Base.{
  ℕ, String, Bool, true, false, not, Bool-cases, Option-cases, Option, none, some, inl, inr, List,
  [], ◌∷◌, ◌++◌, map, Text, is_some, ◌≡◌, refl, filter, any_of, codes_eq, codes_eq_iff, arith,
  if◌then◌else◌, ap, sym, ◌∙◌,
}
use vaultd.Retention.Types.{Tier, Backup}
use vaultd.Retention.Periods.{Civil, Bucket, bucket_key, collect, add_period, put_bucket, push}

-- The first occurrences of a list.
abbrev pub distinct : List Text → List Text
distinct [] = []
distinct (k ∷ ks) = k ∷ filter (λ j. not (codes_eq j k)) (distinct ks)

abbrev member : Text → List Text → Bool
member k ks = any_of (λ j. codes_eq k j) ks

codes_eq_self : (k : Text) → codes_eq k k ≡ true
codes_eq_self k = (codes_eq_iff k k).1 refl

member-append_self : (k : Text) (ks : List Text) → member k (ks ++ k ∷ []) ≡ true
member-append_self k [] = rw (codes_eq_self k)
member-append_self k (j ∷ ks) = ground (arith, member-append_self k ks)

member-append :
    (j k : Text) (ks : List Text)
    → member j (ks ++ k ∷ []) ≡ (if member j ks then true else codes_eq j k)
member-append j k [] = ground arith
member-append j k (i ∷ ks) = ground (arith, member-append j k ks)

-- A key that the order has already is filtered out again with the others.
filter_known :
    (order : List Text) (k : Text) (ks : List Text)
    → member k order ≡ true
    → filter (λ j. not (member j order)) (filter (λ j. not (codes_eq j k)) ks)
      ≡ filter (λ j. not (member j order)) ks
filter_known order k [] h = refl
filter_known order k (j ∷ ks) h = elim (Bool-cases (codes_eq j k)) [
  | inl e ↦ rw (e, same) (filter_known order k ks h)
  | inr e ↦ rw e (ground (arith, filter_known order k ks h))
]
  where
    same : codes_eq j k ≡ true → member j order ≡ true
    same e = rw ((codes_eq_iff j k).0 e) h

filter_new :
    (order : List Text) (k : Text) (ks : List Text)
    → filter (λ j. not (member j order)) (filter (λ j. not (codes_eq j k)) ks)
      ≡ filter (λ j. not (member j (order ++ k ∷ []))) ks
filter_new order k [] = refl
filter_new order k (j ∷ ks) = ground (arith, filter_new order k ks, member-append j k order)

filter_none : (ks : List Text) → filter (λ j. not (member j [])) ks ≡ ks
filter_none [] = refl
filter_none (k ∷ ks) = ap (◌∷◌ k) (filter_none ks)

add_period-none :
    (m : Text → Option Bucket) (key : Text) (order : List Text)
    → m key ≡ none
    → add_period m key order ≡ order ++ key ∷ []
unfolding add_period
add_period-none m key order e = rw (e, add_period)

add_period-some :
    (m : Text → Option Bucket) (key : Text) (order : List Text) {q : Bucket}
    → m key ≡ some q
    → add_period m key order ≡ order
unfolding add_period
add_period-some m key order e = rw (e, add_period)

module _ (civil : String → ℕ → Civil) (t : Tier) (loc : String) where
  -- The period of a backup.
  abbrev pub period : Backup → Text
  period b = bucket_key civil b.at t loc

  -- The periods that hold a backup, in the order of the backups.
  abbrev pub periods : List Backup → List Text
  periods bs = distinct (map period bs)

  -- The backups of one period.
  abbrev pub members : Text → List Backup → List Backup
  members k bs = filter (λ b. codes_eq k (period b)) bs

  put_bucket-known :
      (m : Text → Option Bucket) (order : List Text) (key : Text) (b : Backup)
      → ((k : Text) → is_some (m k) ≡ member k order)
      → (k : Text) → is_some (put_bucket m key b k) ≡ member k (add_period m key order)
  unfolding put_bucket add_period
  put_bucket-known m order key b h k = elim (Option-cases (m key)) [
    | inl e ↦
        rw (e, add_period)
          (ground (arith, h k, h key, member-append k key order, codes_eq_iff k key))
    | inr (q, e) ↦
        rw (e, add_period)
          (elim (Bool-cases (codes_eq k key)) [
            | inl f ↦ rw f (rw ((codes_eq_iff k key).0 f) (sym (sym (h key) ∙ ap is_some e)))
            | inr f ↦ rw f (h k)
          ])
  ]

  collect_step :
      (order : List Text) (m : Text → Option Bucket) (b : Backup) (bs : List Backup)
      → (collect civil t loc order m (b ∷ bs)).0
        ≡ (collect civil t loc (add_period m (period b) order) (put_bucket m (period b) b) bs).0
  unfolding collect
  collect_step order m b bs = refl

  collect-order_from :
      (order : List Text) (m : Text → Option Bucket) (bs : List Backup)
      → ((k : Text) → is_some (m k) ≡ member k order)
      → (collect civil t loc order m bs).0
        ≡ order ++ filter (λ k. not (member k order)) (periods bs)
  unfolding collect
  collect-order_from order m [] h = sym (append-nil order)
  collect-order_from order m (b ∷ bs) h =
      collect_step order m b bs ∙ (elim (Option-cases (m (period b))) [
        | inl e ↦
            rw (sym (h (period b)) ∙ ap is_some e, add_period-none m (period b) order e)
              (collect-order_from (order ++ period b ∷ []) (put_bucket m (period b) b) bs
                  (λ k. new_known e k)
                ∙ new_eq)
        | inr (q, e) ↦
            rw (sym (h (period b)) ∙ ap is_some e, add_period-some m (period b) order e)
              (collect-order_from order (put_bucket m (period b) b) bs (λ k. old_known q e k)
                ∙ ap (◌++◌ order) (
                    sym (
                      filter_known order (period b) (periods bs)
                        (sym (h (period b)) ∙ ap is_some e))))
      ])
    where
      new_known :
          m (period b) ≡ none
          → (k : Text) → is_some (put_bucket m (period b) b k) ≡ member k (order ++ period b ∷ [])
      new_known e k =
          rw (add_period-none m (period b) order e) at (put_bucket-known m order (period b) b h k)

      old_known :
          (q : Bucket)
          → m (period b) ≡ some q
          → (k : Text) → is_some (put_bucket m (period b) b k) ≡ member k order
      old_known q e k =
          rw (add_period-some m (period b) order e) at (put_bucket-known m order (period b) b h k)

      new_eq :
          (order ++ period b ∷ [])
            ++ filter (λ k. not (member k (order ++ period b ∷ []))) (periods bs)
          ≡ order
            ++ period b
              ∷ filter
                  (λ k. not (member k order))
                  (filter (λ k. not (codes_eq k (period b))) (periods bs))
      new_eq =
          rw (append_assoc order (period b ∷ [])) (rw (filter_new order (period b) (periods bs)))

  -- The order of `survivors` is the list of the distinct periods.
  pub collect-order : (bs : List Backup) → (collect civil t loc [] (λ _. none) bs).0 ≡ periods bs
  collect-order bs = collect-order_from [] (λ _. none) bs (λ k. refl) ∙ filter_none (periods bs)

  put_bucket-same :
      (m : Text → Option Bucket) (b : Backup) (k : Text)
      → codes_eq k (period b) ≡ true
      → put_bucket m (period b) b k ≡ some (push (m k) b)
  unfolding put_bucket
  put_bucket-same m b k e = rw e (rw ((codes_eq_iff k (period b)).0 e))

  put_bucket-other :
      (m : Text → Option Bucket) (b : Backup) (k : Text)
      → codes_eq k (period b) ≡ false
      → put_bucket m (period b) b k ≡ m k
  unfolding put_bucket
  put_bucket-other m b k e = rw e

  abbrev pub extend : Option Bucket → List Backup → Option Bucket
  extend none [] = none
  extend none (b ∷ bs) = some (record { first = b; others = bs })
  extend (some q) bs = some (record q { others = q.others ++ bs })

  extend-push :
      (o : Option Bucket) (b : Backup) (bs : List Backup)
      → extend (some (push o b)) bs ≡ extend o (b ∷ bs)
  extend-push none b bs = refl
  extend-push (some q) b bs = rw (append_assoc q.others (b ∷ []) bs)

  extend-nil : (o : Option Bucket) → extend o [] ≡ o
  extend-nil none = refl
  extend-nil (some q) = ap (λ xs. some (record q { others = xs })) (append-nil q.others)

  collect-bucket_from :
      (order : List Text) (m : Text → Option Bucket) (bs : List Backup) (k : Text)
      → (collect civil t loc order m bs).1 k ≡ extend (m k) (members k bs)
  unfolding collect
  collect-bucket_from order m [] k = sym (extend-nil (m k))
  collect-bucket_from order m (b ∷ bs) k =
      collect-bucket_from (add_period m (period b) order) (put_bucket m (period b) b) bs k
      ∙ (elim (Bool-cases (codes_eq k (period b))) [
        | inl e ↦ rw (e, put_bucket-same m b k e) (rw (extend-push (m k) b (members k bs)))
        | inr e ↦ rw (e, put_bucket-other m b k e)
      ])

  -- The bucket of a period holds the backups of the period, in their order.
  pub collect-bucket :
      (bs : List Backup) (k : Text)
      → (collect civil t loc [] (λ _. none) bs).1 k ≡ extend none (members k bs)
  collect-bucket bs k = collect-bucket_from [] (λ _. none) bs k
