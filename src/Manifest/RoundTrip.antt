-- ===== src/Manifest/RoundTrip.antt =====
-- internal/manifest/index.go: `AppendEntry` against `ParseIndex`.
use mathlib.Core.List.{append-nil, append_assoc}
use vaultd.Base.{
  ℕ, suc, true, false, List, [], ◌∷◌, ◌++◌, ◌==◌, leb, is_nil, length, Text, ◌≡◌, All, refl, ap,
  sym, ◌∙◌, arith, Bool-cases, Option-cases, inl, inr,
}
use vaultd.Manifest.Entry.{Entry}
use vaultd.Manifest.Jsonl.{
  Codec, newline, unterminated, terminated, cons_head, lines, trim, max_line, Parsed, entries,
  corrupt, too_long, with_entry, append_entry, marshal_from, marshal, parse_lines, parse_index,
  IsLine,
}

unterminated-end : (t : Text) → unterminated (t ++ newline ∷ []) ≡ false
unfolding unterminated
unterminated-end [] = refl
unterminated-end (c ∷ []) = refl
unterminated-end (c ∷ d ∷ t) = unterminated-end (d ∷ t)

unterminated-terminated : (t : Text) → unterminated (terminated t) ≡ false
unterminated-terminated t = elim (Bool-cases (unterminated t)) [
  | inl e ↦ rw e (unterminated-end t)
  | inr e ↦ rw (e, terminated) e
]

cons_head-append :
    (c : ℕ) (ls ms : List Text) → is_nil ls ≡ false → cons_head c (ls ++ ms) ≡ cons_head c ls ++ ms
cons_head-append c [] ms h = absurd (cc h)
cons_head-append c (l ∷ ls) ms h = refl

cons_head-ne : (c : ℕ) (ls : List Text) → is_nil (cons_head c ls) ≡ false
cons_head-ne c [] = refl
cons_head-ne c (l ∷ ls) = refl

lines-ne : (c : ℕ) (t : Text) → is_nil (lines (c ∷ t)) ≡ false
unfolding lines
lines-ne c t = elim (Bool-cases (c == newline)) [
  | inl e ↦ rw e
  | inr e ↦ rw e (cons_head-ne c (lines t))
]

lines-append : (t s : Text) → unterminated t ≡ false → lines (t ++ s) ≡ lines t ++ lines s
unfolding lines unterminated
lines-append [] s h = refl
lines-append (c ∷ []) s h = elim (Bool-cases (c == newline)) [
  | inl e ↦ rw e
  | inr e ↦ absurd (cc (rw e at h))
]
lines-append (c ∷ d ∷ t) s h = elim (Bool-cases (c == newline)) [
  | inl e ↦ rw e (ap (◌∷◌ []) (lines-append (d ∷ t) s h))
  | inr e ↦ rw e (
      ap (cons_head c) (lines-append (d ∷ t) s h)
      ∙ cons_head-append c (lines (d ∷ t)) (lines s) (lines-ne d t))
]

lines-end : (t : Text) → unterminated t ≡ true → lines (t ++ newline ∷ []) ≡ lines t
unfolding lines unterminated
lines-end [] h = absurd (cc h)
lines-end (c ∷ []) h = elim (Bool-cases (c == newline)) [
  | inl e ↦ absurd (cc (rw e at h))
  | inr e ↦ rw e
]
lines-end (c ∷ d ∷ t) h = elim (Bool-cases (c == newline)) [
  | inl e ↦ rw e (ap (◌∷◌ []) (lines-end (d ∷ t) h))
  | inr e ↦ rw e (ap (cons_head c) (lines-end (d ∷ t) h))
]

lines-terminated : (t : Text) → lines (terminated t) ≡ lines t
lines-terminated t = elim (Bool-cases (unterminated t)) [
  | inl e ↦ rw e (lines-end t e)
  | inr e ↦ rw e
]

lines-one :
    (c : ℕ) (t : Text)
    → All (λ d. (d == newline) ≡ false) (c ∷ t)
    → lines ((c ∷ t) ++ newline ∷ []) ≡ (c ∷ t) ∷ []
unfolding lines
lines-one c [] h = rw h.0
lines-one c (d ∷ t) h = rw h.0 (ap (cons_head c) (lines-one d t h.1))

module _ (codec : Codec) where
  open codec use {encode, decode}

  lines-encode : (e : Entry) → IsLine codec e → lines (encode e ++ newline ∷ []) ≡ encode e ∷ []
  lines-encode e w = one (encode e) w.nonempty w.one_line
    where
      one :
          (t : Text)
          → is_nil t ≡ false
          → All (λ d. (d == newline) ≡ false) t
          → lines (t ++ newline ∷ []) ≡ t ∷ []
      one [] n h = absurd (cc n)
      one (c ∷ t) n h = lines-one c t h

  lines-append_entry :
      (raw : Text) (e : Entry)
      → IsLine codec e
      → lines (append_entry codec raw e) ≡ lines raw ++ encode e ∷ []
  unfolding append_entry
  lines-append_entry raw e w =
      lines-append (terminated raw) (encode e ++ newline ∷ []) (unterminated-terminated raw)
      ∙ rw (lines-terminated raw, lines-encode e w)

  entries_eq : (es fs : List Entry) → entries es ≡ entries fs → es ≡ fs
  entries_eq es fs h = cc

  with_entry-append :
      (d e : Entry) (r : Parsed) (es : List Entry) (r' : Parsed)
      → ((fs : List Entry) → r ≡ entries fs → r' ≡ entries (fs ++ e ∷ []))
      → with_entry d r ≡ entries es
      → with_entry d r' ≡ entries (es ++ e ∷ [])
  with_entry-append d e (entries fs) es r' ih h =
      rw (ih fs refl) (ap (λ x. entries (x ++ e ∷ [])) (entries_eq (d ∷ fs) es h))
  with_entry-append d e (corrupt n) es r' ih h = absurd (cc h)
  with_entry-append d e too_long es r' ih h = absurd (cc h)

  parse_lines-append :
      (n : ℕ) (ls : List Text) (es : List Entry) (e : Entry)
      → parse_lines codec n ls ≡ entries es
      → IsLine codec e
      → parse_lines codec n (ls ++ encode e ∷ []) ≡ entries (es ++ e ∷ [])
  unfolding parse_lines
  parse_lines-append n [] es e h s =
      rw (short, s.trimmed, s.nonempty, s.decode_encode)
        (ap (λ x. entries (x ++ e ∷ [])) (entries_eq [] es h))
    where
      short : leb max_line (length (encode e)) ≡ false
      short = ground (arith, s.short)
  parse_lines-append n (l ∷ ls) es e h s = elim (Bool-cases (leb max_line (length l))) [
    | inl f ↦ absurd (cc (rw f at h))
    | inr f ↦ rw f (elim (Bool-cases (is_nil (trim l))) [
      | inl g ↦ rw g (parse_lines-append (suc n) ls es e (rw g at (rw f at h)) s)
      | inr g ↦ rw g (elim (Option-cases (decode (trim l))) [
        | inl d ↦ absurd (cc (rw d at (rw g at (rw f at h))))
        | inr (x, d) ↦ rw d (
            with_entry-append x e (parse_lines codec (suc n) ls) es _
              (λ fs k. parse_lines-append (suc n) ls fs e k s) (rw d at (rw g at (rw f at h))))
      ])
    ])
  ]

  -- Appending an entry to an index that parses gives an index that parses, to the entries that were
  -- there followed by the new one, also where the old index does not end with a newline, if the
  -- JSON of the entry is one line of less than 1 MiB that reads back.
  pub parse-append_entry :
      (raw : Text) (es : List Entry) (e : Entry)
      → parse_index codec raw ≡ entries es
      → IsLine codec e
      → parse_index codec (append_entry codec raw e) ≡ entries (es ++ e ∷ [])
  unfolding parse_index
  parse-append_entry raw es e h s =
      rw (lines-append_entry raw e s) (parse_lines-append 1 (lines raw) es e h s)

  parse-marshal_from :
      (raw : Text) (ds es : List Entry)
      → parse_index codec raw ≡ entries ds
      → All (IsLine codec) es
      → parse_index codec (marshal_from codec raw es) ≡ entries (ds ++ es)
  unfolding marshal_from
  parse-marshal_from raw ds [] h s = h ∙ ap entries (sym (append-nil ds))
  parse-marshal_from raw ds (e ∷ es) h s =
      parse-marshal_from (append_entry codec raw e) (ds ++ e ∷ []) es
        (parse-append_entry raw ds e h s.0) s.1
      ∙ ap entries (append_assoc ds (e ∷ []) es)

  -- An index that is written whole reads back as its entries, in order, if the JSON of each is one
  -- line of less than 1 MiB that reads back.
  pub parse-marshal :
      (es : List Entry) → All (IsLine codec) es → parse_index codec (marshal codec es) ≡ entries es
  unfolding marshal parse_index
  parse-marshal es s = parse-marshal_from [] [] es refl s
