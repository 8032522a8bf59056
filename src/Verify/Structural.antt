-- ===== src/Verify/Structural.antt =====
-- About internal/verify/verify.go: what a passed structural check has read.
use vaultd.Base.{
  ℕ, String, Bool, true, false, not, ◌&&◌, Option, none, some, List, [], ◌∷◌, ◌==◌, ◌=s=◌, ==_iff,
  =s=_iff, Text, codes, length, take, is_nil, ◌⊎◌, inl, inr, ◌≡◌, refl, sym, ◌∙◌, subst, arith,
  Bool-cases,
}
use vaultd.Base.{◌++◌ as append_list}
use vaultd.Verify.Format.{FormatError}
use vaultd.Store.Port.{StoreError, ok, Answer-cases}
use vaultd.Manifest.Entry.{Manifest}
use vaultd.Pipeline.Spec.{Spec, parse_spec}
use vaultd.Restore.Runner.{
  Opened, no_match, malformed, opened, can_decrypt, with_passphrase, join_pieces,
}
use vaultd.Verify.Format.{write_all, empty_window, validator_for, validate}
use vaultd.Verify.Types.{stream_size, stream_checksum, object_checksum, Problem, structural}
use vaultd.Verify.Verifier.{
  Verifier, problem_if, integrity_problems, structural_check, structural_with, fetch_body,
  read_back, format_problems, check_level, verify_manifest,
}
use vaultd.Verify.Outcomes.{
  passed, IsIntact, IsIntactGlobals, integrity_problems_iff, stamped-passed,
}

module _ {S : Type 0} (v : Verifier S) where
  -- The object decrypts and decompresses to its end, into a stream of the recorded length and checksum
  -- that the engine's format accepts; and what was read of the object has its checksum.
  abbrev pub IsReadBack : Manifest → S → Type 0
  IsReadBack m s =
      (spec : Spec) × (body : Text) × (ps : List Text) × (n : ℕ) × (parse_spec (codes m.compression)
          (codes m.encryption)
        ≡ inr spec)
      × (can_decrypt v.reader.keys spec.encryption.mode ≡ true)
      × (v.store.get m.object.key s ≡ ok body)
      × (v.reader.open_body (with_passphrase v.reader.keys.passphrase spec) body ≡ opened ps none n)
      × (length (join_pieces ps) ≡ m.plaintext.bytes)
      × (v.reader.hash (join_pieces ps) ≡ m.plaintext.sha256)
      × (validate (validator_for m.engine) (write_all ps empty_window) ≡ none)
      × ((length (take n body) ≡ m.object.bytes) → v.reader.hash (take n body) ≡ m.object.sha256)

  no_problems :
      (a b c d : Bool) (p q r : Problem) (f : Option FormatError)
      → append_list
          (problem_if (c && not d) r [])
          (problem_if (not a) p (problem_if (not b) q (format_problems v f)))
        ≡ []
      → (a ≡ true) × (b ≡ true) × (f ≡ none) × (c ≡ true → d ≡ true)
  no_problems true true false d p q r none h = (refl, refl, refl, λ e. absurd (ground (arith, e)))
  no_problems true true true true p q r none h = (refl, refl, refl, λ e. refl)
  no_problems true true true false p q r none h = absurd (ground (arith, h))
  no_problems true true false d p q r (some f) h = absurd (ground (arith, h))
  no_problems true true true true p q r (some f) h = absurd (ground (arith, h))
  no_problems true true true false p q r (some f) h = absurd (ground (arith, h))
  no_problems true false false d p q r f h = absurd (ground (arith, h))
  no_problems true false true true p q r f h = absurd (ground (arith, h))
  no_problems true false true false p q r f h = absurd (ground (arith, h))
  no_problems false b false d p q r f h = absurd (ground (arith, h))
  no_problems false b true true p q r f h = absurd (ground (arith, h))
  no_problems false b true false p q r f h = absurd (ground (arith, h))

  is_nil→≡ : (ps : List Problem) → is_nil ps ≡ true → ps ≡ []
  is_nil→≡ [] h = refl
  is_nil→≡ (p ∷ ps) h = absurd (ground (arith, h))

  read_to_end :
      (m : Manifest) (body : Text) (o : Opened)
      → passed v (read_back v m body o) ≡ true
      → (ps : List Text) × (n : ℕ) × (o ≡ opened ps none n)
        × (length (join_pieces ps) ≡ m.plaintext.bytes)
        × (v.reader.hash (join_pieces ps) ≡ m.plaintext.sha256)
        × (validate (validator_for m.engine) (write_all ps empty_window) ≡ none)
        × ((length (take n body) ≡ m.object.bytes) → v.reader.hash (take n body) ≡ m.object.sha256)
  read_to_end m body no_match h = absurd (ground (arith, h))
  read_to_end m body (malformed e n) h = absurd (ground (arith, h))
  read_to_end m body (opened ps (some e) n) h = absurd (ground (arith, h))
  read_to_end m body (opened ps none n) h =
      let q =
        no_problems (length (join_pieces ps) == m.plaintext.bytes)
          (v.reader.hash (join_pieces ps) =s= m.plaintext.sha256)
          (length (take n body) == m.object.bytes) (v.reader.hash (take n body) =s= m.object.sha256)
          (stream_size (length (join_pieces ps)) m.plaintext.bytes) stream_checksum object_checksum
          (validate (validator_for m.engine) (write_all ps empty_window)) (is_nil→≡ _ h) in
      (
        ps,
        n,
        refl,
        (==_iff (length (join_pieces ps)) m.plaintext.bytes).0 q.0,
        (=s=_iff (v.reader.hash (join_pieces ps)) m.plaintext.sha256).0 q.1,
        q.2,
        λ e.
            (=s=_iff (v.reader.hash (take n body)) m.object.sha256).0
              (q.3 ((==_iff (length (take n body)) m.object.bytes).1 e)),
      )

  with_body :
      (m : Manifest) (spec : Spec) (s : S)
      → parse_spec (codes m.compression) (codes m.encryption) ≡ inr spec
      → can_decrypt v.reader.keys spec.encryption.mode ≡ true
      → passed v (
          fetch_body v m
            (with_passphrase v.reader.keys.passphrase spec)
            (v.store.get m.object.key s))
        ≡ true
      → IsReadBack m s
  with_body m spec s parse key h = elim (Answer-cases (v.store.get m.object.key s)) [
    | inl (body, g) ↦
        let full = with_passphrase v.reader.keys.passphrase spec in
        let r =
          read_to_end m body (v.reader.open_body full body)
            (subst (λ a. passed v (fetch_body v m full a) ≡ true) g h) in
        (spec, body, r.0, r.1, parse, key, g, r.2, r.3, r.4, r.5, r.6)
    | inr (e, g) ↦ absurd (
        ground (
          arith,
          subst
              (λ a.
                passed v (fetch_body v m (with_passphrase v.reader.keys.passphrase spec) a) ≡ true)
              g h,
        ))
  ]

  with_spec :
      (m : Manifest) (s : S) (r : String ⊎ Spec)
      → parse_spec (codes m.compression) (codes m.encryption) ≡ r
      → passed v (structural_with v m r s) ≡ true
      → IsReadBack m s
  with_spec m s (inl e) parse h = absurd (ground (arith, h))
  with_spec m s (inr spec) parse h =
      elim (Bool-cases (can_decrypt v.reader.keys spec.encryption.mode)) [
        | inl key ↦ with_body m spec s parse key (simp key at h)
        | inr key ↦ absurd (ground (arith, h, key))
      ]

  with_integrity :
      (m : Manifest) (s : S) (q : StoreError ⊎ List Problem)
      → passed v (structural_check v m q s) ≡ true
      → (q ≡ inr []) × IsReadBack m s
  unfolding structural_check
  with_integrity m s (inl e) h = absurd (ground (arith, h))
  with_integrity m s (inr (p ∷ ps)) h = absurd (ground (arith, h))
  with_integrity m s (inr []) h =
      (refl, with_spec m s (parse_spec (codes m.compression) (codes m.encryption)) refl h)

  -- A structural check passes only if the integrity check would, and the object was read to its end: it
  -- decrypts and decompresses into a stream of the recorded length and checksum that is a dump of the
  -- engine, and where all its bytes were read they have the recorded checksum.
  pub structural-IsReadBack :
      (m : Manifest) (started now : ℕ) (s : S)
      → passed v (verify_manifest v structural m started now s).0 ≡ true
      → (IsIntact v m.object s × IsIntactGlobals v m.globals s) × IsReadBack m s
  unfolding verify_manifest check_level
  structural-IsReadBack m started now s h =
      let q = integrity_problems v m s in
      let e = stamped-passed v structural started (structural_check v m q s) s in
      let r = with_integrity m s q (sym e ∙ h) in ((integrity_problems_iff v m s).0 r.0, r.1)
