-- ===== src/Verify/Outcomes.antt =====
-- About internal/verify/verify.go and restore.go: when a check passes.
use vaultd.Base.{
  ℕ, Bool, true, false, not, ◌&&◌, Option, none, some, List, [], ◌∷◌, ◌==◌, ◌=s=◌, ==_iff, =s=_iff,
  ◌⊎◌, inl, inr, ◌≡◌, ◌↔◌, refl, sym, ap, ◌∙◌, subst, arith,
}
use vaultd.Store.Port.{StoreError, not_found, failed, ok, ObjectInfo, Answer-cases}
use vaultd.Manifest.Entry.{Manifest, Object}
use vaultd.Verify.Types.{
  Level, Part, stored_size, stored_checksum, dump_part, globals_part, Problem, Verified, ended,
  stopped, integrity,
}
use vaultd.Verify.Verifier.{
  Verifier, problem_if, head_problems, both, globals_problems, integrity_problems, check_level,
  of_integrity, verify_manifest, stamped,
}

abbrev IsRight : StoreError ⊎ List Problem → List Problem → Type 0
IsRight q ps = q ≡ inr ps

inr_eq : {a b : List Problem} → IsRight (inr a) b → a ≡ b
inr_eq e = cc

module _ {S : Type 0} (v : Verifier S) where
  -- The store has an object of the recorded size, under the recorded checksum where it keeps one.
  abbrev pub IsIntact : Object → S → Type 0
  IsIntact o s =
      (i : ObjectInfo) × (v.store.head o.key s ≡ ok i)
      × (i.bytes ≡ o.bytes)
      × ((i.sha256 ≡ "") ⊎ (i.sha256 ≡ o.sha256))

  abbrev pub IsIntactGlobals : Option Object → S → Type 0
  IsIntactGlobals none s = Unit
  IsIntactGlobals (some g) s = IsIntact g s

  silent_if :
      (a b c : Bool) (p q : Problem)
      → problem_if (not a) p (problem_if (not b && not c) q []) ≡ []
      → (a ≡ true) × ((b ≡ true) ⊎ (c ≡ true))
  silent_if true true c p q h = (refl, inl refl)
  silent_if true false true p q h = (refl, inr refl)
  silent_if true false false p q h = absurd (ground (arith, h))
  silent_if false b c p q h = absurd (ground (arith, h))

  if_silent :
      (a b c : Bool) (p q : Problem)
      → a ≡ true
      → (b ≡ true) ⊎ (c ≡ true)
      → problem_if (not a) p (problem_if (not b && not c) q []) ≡ []
  if_silent true true c p q e f = refl
  if_silent true false true p q e f = refl
  if_silent true false false p q e (inl f) = absurd (ground (arith, f))
  if_silent true false false p q e (inr f) = absurd (ground (arith, f))
  if_silent false b c p q e f = absurd (ground (arith, e))

  head_problems_iff :
      (what : Part) (o : Object) (s : S)
      → (head_problems v what o (v.store.head o.key s) ≡ inr []) ↔ IsIntact o s
  head_problems_iff what o s = (there, back)
    where
      there : head_problems v what o (v.store.head o.key s) ≡ inr [] → IsIntact o s
      there h = elim (Answer-cases (v.store.head o.key s)) [
        | inl (i, e) ↦
            let quiet =
              silent_if (i.bytes == o.bytes) (i.sha256 =s= "") (i.sha256 =s= o.sha256)
                (stored_size what i.bytes o.bytes) (stored_checksum what)
                (inr_eq (subst (λ a. head_problems v what o a ≡ inr []) e h)) in
            (
              i,
              e,
              (==_iff i.bytes o.bytes).0 quiet.0,
              elim quiet.1 [
                | inl n ↦ inl ((=s=_iff i.sha256 "").0 n)
                | inr n ↦ inr ((=s=_iff i.sha256 o.sha256).0 n)
              ],
            )
        | inr (not_found, e) ↦
            absurd (ground (arith, subst (λ a. head_problems v what o a ≡ inr []) e h))
        | inr (failed, e) ↦
            absurd (ground (arith, subst (λ a. head_problems v what o a ≡ inr []) e h))
      ]

      back : IsIntact o s → head_problems v what o (v.store.head o.key s) ≡ inr []
      back (i, e, b, c) = rw e (
          ap inr (
            if_silent (i.bytes == o.bytes) (i.sha256 =s= "") (i.sha256 =s= o.sha256)
              (stored_size what i.bytes o.bytes) (stored_checksum what)
              ((==_iff i.bytes o.bytes).1 b)
              (elim c [
                | inl n ↦ inl ((=s=_iff i.sha256 "").1 n)
                | inr n ↦ inr ((=s=_iff i.sha256 o.sha256).1 n)
              ])))

  globals_problems_iff :
      (g : Option Object) (s : S) → (globals_problems v g s ≡ inr []) ↔ IsIntactGlobals g s
  globals_problems_iff none s = ((λ h. tt), (λ h. refl))
  globals_problems_iff (some g) s = head_problems_iff globals_part g s

  both_iff :
      (q r : StoreError ⊎ List Problem) → (both v q r ≡ inr []) ↔ ((q ≡ inr []) × (r ≡ inr []))
  both_iff (inl e) r = ((λ h. absurd (ground (arith, h))), (λ h. absurd (ground (arith, h.0))))
  both_iff (inr ps) (inl e) =
      ((λ h. absurd (ground (arith, h))), (λ h. absurd (ground (arith, h.1))))
  both_iff (inr []) (inr qs) = ((λ h. (refl, h)), (λ h. h.1))
  both_iff (inr (p ∷ ps)) (inr qs) =
      ((λ h. absurd (ground (arith, h))), (λ h. absurd (ground (arith, h.0))))

  -- Whether a verification has a result that says the backup is good.
  abbrev pub passed : Verified → Bool
  passed (ended r) = r.ok
  passed (stopped e) = false

  of_integrity_iff :
      (q : StoreError ⊎ List Problem) → (passed (of_integrity v q) ≡ true) ↔ (q ≡ inr [])
  of_integrity_iff (inl e) = ((λ h. absurd (ground (arith, h))), (λ h. absurd (ground (arith, h))))
  of_integrity_iff (inr []) = ((λ h. refl), (λ h. refl))
  of_integrity_iff (inr (p ∷ ps)) =
      ((λ h. absurd (ground (arith, h))), (λ h. absurd (ground (arith, h))))

  pub stamped-passed :
      (level : Level) (started : ℕ) (r : Verified) (s : S)
      → passed (stamped v level started (r, s)).0 ≡ passed r
  stamped-passed level started (ended r) s = refl
  stamped-passed level started (stopped e) s = refl

  pub integrity_problems_iff :
      (m : Manifest) (s : S)
      → (integrity_problems v m s ≡ inr []) ↔ (IsIntact m.object s × IsIntactGlobals m.globals s)
  unfolding integrity_problems
  integrity_problems_iff m s =
      let d = head_problems_iff dump_part m.object s in
      let g = globals_problems_iff m.globals s in
      let b =
        both_iff (head_problems v dump_part m.object (v.store.head m.object.key s))
          (globals_problems v m.globals s) in
      ((λ h. (d.0 (b.0 h).0, g.0 (b.0 h).1)), (λ h. b.1 (d.1 h.0, g.1 h.1)))

  -- An integrity check passes exactly when the store has every object of the manifest, that of the globals
  -- included, each in the recorded size and under the recorded checksum where the store keeps one.
  pub integrity_iff :
      (m : Manifest) (started now : ℕ) (s : S)
      → (passed (verify_manifest v integrity m started now s).0 ≡ true)
        ↔ (IsIntact m.object s × IsIntactGlobals m.globals s)
  unfolding verify_manifest check_level
  integrity_iff m started now s =
      let q = of_integrity_iff (integrity_problems v m s) in
      let p = integrity_problems_iff m s in
      let e = stamped-passed integrity started (of_integrity v (integrity_problems v m s)) s in
      ((λ h. p.0 (q.0 (sym e ∙ h))), (λ h. e ∙ q.1 (p.1 h)))
