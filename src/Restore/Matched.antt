-- ===== src/Restore/Matched.antt =====
-- About internal/restore/restore.go: what a restore that succeeds has written, and where.
use vaultd.Base.{
  String, Bool, true, false, Option, none, some, List, ◌==◌, ◌=s=◌, ==_iff, =s=_iff, Text, codes,
  length, ◌⊎◌, inl, inr, ◌≡◌, refl, arith, Bool-cases,
}
use vaultd.Store.Port.{Answer, ok, err, Store}
use vaultd.Manifest.Entry.{Manifest}
use vaultd.Pipeline.Spec.{Spec, parse_spec}
use vaultd.Verify.Types.{Provisioner}
use vaultd.Restore.Runner.{
  Opened, no_match, malformed, opened, RunError, Restored, can_decrypt, with_passphrase,
  join_pieces, Reader, compare_sums, pour, fetch_body, with_spec, checked_empty, run,
}

module _ {S : Type 0} (store : Store S Text) (rd : Reader) (p : Provisioner S) (box : String) where
  -- Whether a run has a result.
  abbrev pub restored : RunError ⊎ Restored → Bool
  restored (inl e) = false
  restored (inr r) = true

  -- The restorer has read a stream of the recorded length and checksum.
  abbrev pub HasRead : Manifest → Type 0
  HasRead m =
      (pieces : List Text) × (end : Option String) × (u : S) × ((p.apply box (join_pieces pieces)
          end u).0.0
        ≡ none)
      × (length (p.apply box (join_pieces pieces) end u).0.1 ≡ m.plaintext.bytes)
      × (rd.hash (p.apply box (join_pieces pieces) end u).0.1 ≡ m.plaintext.sha256)

  compare_sums-matches :
      (m : Manifest) (r : (Option String × Text) × S)
      → restored (compare_sums store rd p box m r).0 ≡ true
      → (r.0.0 ≡ none) × (length r.0.1 ≡ m.plaintext.bytes) × (rd.hash r.0.1 ≡ m.plaintext.sha256)
  compare_sums-matches m ((some e, seen), t) h = absurd (ground (arith, h))
  compare_sums-matches m ((none, seen), t) h =
      elim (Bool-cases (rd.hash seen =s= m.plaintext.sha256)) [
        | inl a ↦ elim (Bool-cases (length seen == m.plaintext.bytes)) [
          | inl b ↦ (
            refl,
            (==_iff (length seen) m.plaintext.bytes).0 b,
            (=s=_iff (rd.hash seen) m.plaintext.sha256).0 a,
          )
          | inr b ↦ absurd (ground (arith, simp (a, b) at h))
        ]
        | inr a ↦ absurd (ground (arith, simp a at h))
      ]

  pour-HasRead :
      (m : Manifest) (o : Opened) (s : S)
      → restored (pour store rd p box m o s).0 ≡ true
      → HasRead m
  pour-HasRead m no_match s h = absurd (ground (arith, h))
  pour-HasRead m (malformed e n) s h = absurd (ground (arith, h))
  pour-HasRead m (opened ps e n) s h =
      let r = compare_sums-matches m (p.apply box (join_pieces ps) e s) h in
      (ps, e, s, r.0, r.1, r.2)

  fetch_body-HasRead :
      (m : Manifest) (spec : Spec) (a : Answer Text) (s : S)
      → restored (fetch_body store rd p box m spec a s).0 ≡ true
      → HasRead m
  fetch_body-HasRead m spec (err e) s h = absurd (ground (arith, h))
  fetch_body-HasRead m spec (ok body) s h = pour-HasRead m (rd.open_body spec body) s h

  with_spec-HasRead :
      (m : Manifest) (r : String ⊎ Spec) (s : S)
      → restored (with_spec store rd p box m r s).0 ≡ true
      → HasRead m
  with_spec-HasRead m (inl e) s h = absurd (ground (arith, h))
  with_spec-HasRead m (inr spec) s h =
      elim (Bool-cases (can_decrypt rd.keys spec.encryption.mode)) [
        | inl k ↦
            fetch_body-HasRead m (with_passphrase rd.keys.passphrase spec)
              (store.get m.object.key s) s (simp k at h)
        | inr k ↦ absurd (ground (arith, simp k at h))
      ]

  checked_empty-HasRead :
      (force : Bool) (m : Manifest) (o : Option Bool) (s : S)
      → restored (checked_empty store rd p box force m o s).0 ≡ true
      → ((o ≡ some true) ⊎ (force ≡ true)) × HasRead m
  checked_empty-HasRead force m none s h = absurd (ground (arith, h))
  checked_empty-HasRead force m (some true) s h =
      (inl refl, with_spec-HasRead m (parse_spec (codes m.compression) (codes m.encryption)) s h)
  checked_empty-HasRead true m (some false) s h =
      (inr refl, with_spec-HasRead m (parse_spec (codes m.compression) (codes m.encryption)) s h)
  checked_empty-HasRead false m (some false) s h = absurd (ground (arith, h))

  -- A restore that succeeds was into a database found empty, unless it was forced, and its restorer reported
  -- no error and read a stream of the length and the checksum that the manifest records.
  pub run-HasRead :
      (force : Bool) (m : Manifest) (s : S)
      → restored (run store rd p box force m s).0 ≡ true
      → ((p.is_empty box s ≡ some true) ⊎ (force ≡ true)) × HasRead m
  unfolding run
  run-HasRead force m s h = checked_empty-HasRead force m (p.is_empty box s) s h
