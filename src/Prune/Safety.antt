-- ===== src/Prune/Safety.antt =====
-- internal/prune/prune.go: the index entries of the backups that a plan keeps.
use vaultd.Base.{
  ℕ, String, Bool, true, not, ◌&&◌, ◌||◌, List, [], ◌∷◌, map, Text, is_nil, ◌≡◌, ◌≢◌, inl, inr,
  refl, sym, ap, ◌∙◌, In, filter-In, Bool-cases, subst,
}
use vaultd.Manifest.Entry.{Entry, is_success}
use vaultd.Retention.Types.{Tier, Policy, Backup, Decision, Input, Plan, kept, ids_of}
use vaultd.Retention.Periods.{Civil}
use vaultd.Retention.Planner.{plan, plan_sorted, split, decide, freeze, empty}
use vaultd.Index.Cache.{prune}
use vaultd.Index.Contents.{In-prune}
use vaultd.Prune.Runner.{deleted_ids, oldest_kept, input_of}

-- Whether the maps keep an id.
abbrev keeps_id : (String → List Tier) → (String → Text) → String → Bool
keeps_id tiers r id = not (is_nil (tiers id)) || not (is_nil (r id))

In-map-decide :
    (tiers : String → List Tier) (r : String → Text) (bs : List Backup) (d : Decision)
    → In d (map (decide tiers r) bs)
    → d ≡ decide tiers r d.backup
In-map-decide tiers r [] d h = absurd h.1
In-map-decide tiers r (b ∷ bs) d (inl e) =
    e ∙ ap (decide tiers r) (ap (λ (x : Decision). x.backup) (sym e))
In-map-decide tiers r (b ∷ bs) d (inr h) = In-map-decide tiers r bs d h

keep-id :
    (tiers : String → List Tier) (r : String → Text) (bs : List Backup) (d : Decision)
    → In d (split tiers r bs).keep
    → keeps_id tiers r d.backup.id ≡ true
keep-id tiers r bs d h =
    let (i, k) = filter-In kept d (map (decide tiers r) bs) h in
    sym (ap kept (In-map-decide tiers r bs d i)) ∙ k

In-ids_of :
    (id : String) (ds : List Decision)
    → In id (ids_of ds)
    → (d : Decision) × In d ds × (d.backup.id ≡ id)
In-ids_of id [] h = absurd h.1
In-ids_of id (d ∷ ds) (inl e) = (d, inl refl, sym e)
In-ids_of id (d ∷ ds) (inr h) = let (c, i, e) = In-ids_of id ds h in (c, inr i, e)

delete-id :
    (tiers : String → List Tier) (r : String → Text) (bs : List Backup) (d : Decision)
    → In d (split tiers r bs).delete
    → not (keeps_id tiers r d.backup.id) ≡ true
delete-id tiers r bs d h =
    let (i, k) = filter-In (λ d. not (kept d)) d (map (decide tiers r) bs) h in
    sym (ap (λ x. not (kept x)) (In-map-decide tiers r bs d i)) ∙ k

split-disjoint :
    (tiers : String → List Tier) (r : String → Text) (bs : List Backup) (d : Decision) (id : String)
    → In d (split tiers r bs).keep
    → In id (deleted_ids (split tiers r bs))
    → d.backup.id ≢ id
split-disjoint tiers r bs d id h k e =
    let (c, i, f) = In-ids_of id (split tiers r bs).delete k in
    let a = keep-id tiers r bs d h in
    let b = delete-id tiers r bs c i in
    cc (a, subst (λ x. not (keeps_id tiers r x) ≡ true) (f ∙ sym e) b)

freeze-disjoint :
    (failed : Bool) (bs : List Backup) (p : Plan) (d : Decision) (id : String)
    → ((d : Decision) → In d p.keep → In id (deleted_ids p) → d.backup.id ≢ id)
    → In d (freeze failed bs p).keep
    → In id (deleted_ids (freeze failed bs p))
    → d.backup.id ≢ id
freeze-disjoint failed bs p d id ih h k = elim (Bool-cases (failed && not (is_nil p.delete))) [
  | inl f ↦ absurd (rw f at k).1
  | inr f ↦ ih d (rw f at h) (rw f at k)
]

-- No id is both kept and deleted, even if two backups share it.
plan-disjoint :
    (sort : List Backup → List Backup) (civil : String → ℕ → Civil) (p : Policy) (i : Input)
    (d : Decision) (id : String)
    → In d (plan sort civil p i).keep
    → In id (deleted_ids (plan sort civil p i))
    → d.backup.id ≢ id
unfolding plan plan_sorted
plan-disjoint sort civil p i d id h k = elim (Bool-cases (is_nil (sort i.backups))) [
  | inl n ↦ absurd (rw n at k).1
  | inr n ↦ elim (Bool-cases (empty p)) [
    | inl f ↦ absurd (rw f at (rw n at k)).1
    | inr f ↦
        freeze-disjoint i.last_run_failed (sort i.backups) _ d id
          (λ e m l. split-disjoint _ _ (sort i.backups) e id m l) (rw f at (rw n at h))
          (rw f at (rw n at k))
  ]
]

-- The index entry of a stored backup whose id the plan keeps stays in the index that prune writes,
-- whichever other backups are deleted and wherever the retained window starts.
pub prune-keeps :
    (sort : List Backup → List Backup) (civil : String → ℕ → Civil) (p : Policy) (now : ℕ)
    (es : List Entry) (d : Decision) (e : Entry)
    → In e es
    → is_success e ≡ true
    → In d (plan sort civil p (input_of now es)).keep
    → d.backup.id ≡ e.id
    → In e (
        prune es
          (deleted_ids (plan sort civil p (input_of now es)))
          (oldest_kept (plan sort civil p (input_of now es))))
prune-keeps sort civil p now es d e h s k q =
    (In-prune es _ _ e).1
      (h, inl (s, λ i. plan-disjoint sort civil p (input_of now es) d e.id k i q))
