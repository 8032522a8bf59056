-- ===== src/Base/Perms.antt =====
-- What a rearrangement of a list keeps.
use Prim.Native.Nat.{suc}
use mathlib.Core.Path.{◌≡◌, refl, ap, ◌∙◌}
use mathlib.Core.Logic.{inl, inr}
use mathlib.Core.Bool.{Bool, not}
use mathlib.Core.List.{List, [], ◌∷◌, ◌++◌, Permᴰ}
use mathlib.Core.List.Permᴰ
use vaultd.Base.Tests.{Bool-cases}
use vaultd.Base.Lists.{length, filter, In}

module _ {ℓ} {A : Type ℓ} where
  pub length-perm : {xs ys : List A} → Permᴰ xs ys → length xs ≡ length ys
  length-perm Permᴰ.nil = refl
  length-perm (Permᴰ.cons e p) = ap suc (length-perm p)
  length-perm (Permᴰ.swap e f) = refl
  length-perm (Permᴰ.trans p q) = length-perm p ∙ length-perm q

  pub In-perm : {xs ys : List A} (a : A) → Permᴰ xs ys → In a xs → In a ys
  In-perm a Permᴰ.nil h = h
  In-perm a (Permᴰ.cons e p) (inl q) = inl (q ∙ e)
  In-perm a (Permᴰ.cons e p) (inr q) = inr (In-perm a p q)
  In-perm a (Permᴰ.swap e f) (inl q) = inr (inl (q ∙ e))
  In-perm a (Permᴰ.swap e f) (inr (inl q)) = inl (q ∙ f)
  In-perm a (Permᴰ.swap e f) (inr (inr q)) = inr (inr q)
  In-perm a (Permᴰ.trans p q) h = In-perm a q (In-perm a p h)

  -- The elements that pass a test and those that do not are the whole list.
  pub filter-partition :
      (p : A → Bool) (xs : List A) → Permᴰ (filter p xs ++ filter (λ x. not (p x)) xs) xs
  filter-partition p [] = Permᴰ.nil
  filter-partition p (x ∷ xs) = elim (Bool-cases (p x)) [
    | inl e ↦ rw e (Permᴰ.cons refl (filter-partition p xs))
    | inr e ↦ rw e (
        Permᴰ.trans (Permᴰ.middle x (filter p xs) (filter (λ x. not (p x)) xs))
          (Permᴰ.cons refl (filter-partition p xs)))
  ]
