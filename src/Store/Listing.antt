-- ===== src/Store/Listing.antt =====
-- internal/storage/memory/memory.go: what `List` names.
use text.Mathlib.Text.{starts_with}
use vaultd.Base.{
  String, true, some, List, [], ◌∷◌, ◌=s=◌, =s=_iff, ◌≡◌, ◌⊎◌, inl, inr, refl, ap, sym, ◌∙◌, In,
  Bool-cases, Option-cases,
}
use vaultd.Store.Port.{ObjectInfo}
use vaultd.Store.Memory.{Object, find, info_of, infos, keys_with}

-- A listing names the objects of the keys that it is given.
pub infos-there :
    (m : List (String × Object)) (ks : List String) (i : ObjectInfo)
    → In i (infos m ks)
    → (k : String) × (o : Object) × In k ks × (find k m ≡ some o) × (i ≡ info_of k o)
unfolding infos
infos-there m [] i h = absurd h.1
infos-there m (k ∷ ks) i h = elim (Option-cases (find k m)) [
  | inl e ↦ let (j, o, l, f, same) = infos-there m ks i (rw (e, In) at h) in (j, o, inr l, f, same)
  | inr (o, e) ↦
      let cases : (i ≡ info_of k o) ⊎ In i (infos m ks) = rw (e, In) at h in
      elim cases [
        | inl same ↦ (k, o, inl refl, e, same)
        | inr l ↦ let (j, p, l', f, same) = infos-there m ks i l in (j, p, inr l', f, same)
      ]
]

-- It names each of them.
pub there-infos :
    (m : List (String × Object)) (ks : List String) (k : String) (o : Object)
    → In k ks
    → find k m ≡ some o
    → In (info_of k o) (infos m ks)
unfolding infos
there-infos m [] k o h e = absurd h.1
there-infos m (j ∷ ks) k o (inl same) e =
    let f : find j m ≡ some o = ap (λ x. find x m) (sym same) ∙ e in
    rw (f, In) (inl (ap (λ x. info_of x o) same))
there-infos m (j ∷ ks) k o (inr l) e = elim (Option-cases (find j m)) [
  | inl f ↦ rw (f, In) (there-infos m ks k o l e)
  | inr (p, f) ↦ rw (f, In) (inr (there-infos m ks k o l e))
]

pub keys_with-prefix :
    (p k : String) (m : List (String × Object)) → In k (keys_with p m) → starts_with p k ≡ true
keys_with-prefix p k [] h = absurd h.1
keys_with-prefix p k ((j, o) ∷ m) h = elim (Bool-cases (starts_with p j)) [
  | inl e ↦
      let cases : (k ≡ j) ⊎ In k (keys_with p m) = rw e at h in
      elim cases [ inl same ↦ ap (starts_with p) same ∙ e | inr l ↦ keys_with-prefix p k m l ]
  | inr e ↦ keys_with-prefix p k m (rw e at h)
]

pub find-keys_with :
    (p k : String) (m : List (String × Object)) (o : Object)
    → find k m ≡ some o
    → starts_with p k ≡ true
    → In k (keys_with p m)
unfolding find
find-keys_with p k [] o h e = absurd (cc h)
find-keys_with p k ((j, q) ∷ m) o h e = elim (Bool-cases (k =s= j)) [
  | inl f ↦
      let same : k ≡ j = (=s=_iff k j).0 f in
      let g : starts_with p j ≡ true = ap (starts_with p) (sym same) ∙ e in rw g (inl same)
  | inr f ↦
      let later = find-keys_with p k m o (rw f at h) e in
      elim (Bool-cases (starts_with p j)) [ inl g ↦ rw g (inr later) | inr g ↦ rw g later ]
]
