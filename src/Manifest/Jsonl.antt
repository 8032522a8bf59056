-- ===== src/Manifest/Jsonl.antt =====
-- internal/manifest/index.go: `AppendEntry` and `ParseIndex`, and `marshal` of
-- internal/index/index.go. A text is the list of its bytes. `bytes.TrimSpace` is modelled for the
-- white space of ASCII.
use vaultd.Base.{
  ℕ, suc, ◌<◌, ◌*◌, Bool, false, not, ◌&&◌, ◌||◌, Option, none, some, List, [], ◌∷◌, ◌++◌,
  if◌then◌else◌, ◌==◌, leb, is_nil, length, Text, ◌≡◌, All,
}
use vaultd.Manifest.Entry.{Entry}

-- `json.Marshal` and `json.Unmarshal` of one entry.
pub record Codec : Type 0 where
  pub encode : Entry → Text
  pub decode : Text → Option Entry

abbrev pub newline : ℕ
newline = 10

-- Whether the last byte is there and is no newline.
unfoldable pub unterminated : Text → Bool
unterminated [] = false
unterminated (c ∷ cs) = let rest = unterminated cs in if is_nil cs then not (c == newline) else rest

-- The index with its last line ended.
abbrev pub terminated : Text → Text
terminated t = if unterminated t then t ++ newline ∷ [] else t

-- A byte in front of the first line.
abbrev pub cons_head : ℕ → List Text → List Text
cons_head c [] = (c ∷ []) ∷ []
cons_head c (l ∷ ls) = (c ∷ l) ∷ ls

-- The lines of `bufio.Scanner`. The last one need not be ended.
unfoldable pub lines : Text → List Text
lines [] = []
lines (c ∷ cs) = let rest = lines cs in if c == newline then [] ∷ rest else cons_head c rest

abbrev is_space : ℕ → Bool
is_space c = c == 32 || (leb 9 c && leb c 13)

unfoldable trim_start : Text → Text
trim_start [] = []
trim_start (c ∷ cs) = let rest = trim_start cs in if is_space c then rest else c ∷ cs

unfoldable trim_end : Text → Text
trim_end [] = []
trim_end (c ∷ cs) = let rest = trim_end cs in if is_nil rest && is_space c then [] else c ∷ rest

-- `bytes.TrimSpace`.
unfoldable pub trim : Text → Text
unfolding trim_start trim_end
trim t = trim_end (trim_start t)

-- The longest line that the scanner's buffer holds is one byte shorter than this.
abbrev pub max_line : ℕ
max_line = 1024 * 1024

pub data Parsed : Type 0 where
  entries : List Entry → Parsed
  corrupt : ℕ → Parsed
  too_long : Parsed

abbrev pub with_entry : Entry → Parsed → Parsed
with_entry e (entries es) = entries (e ∷ es)
with_entry e (corrupt n) = corrupt n
with_entry e too_long = too_long

module _ (codec : Codec) where
  open codec use {encode, decode}

  -- `AppendEntry`.
  unfoldable pub append_entry : Text → Entry → Text
  unfolding unterminated
  append_entry index e = terminated index ++ (encode e ++ newline ∷ [])

  -- `marshal`.
  unfoldable pub marshal_from : Text → List Entry → Text
  unfolding append_entry
  marshal_from raw [] = raw
  marshal_from raw (e ∷ es) = marshal_from (append_entry raw e) es

  unfoldable pub marshal : List Entry → Text
  unfolding marshal_from
  marshal es = marshal_from [] es

  abbrev parse_line : Text → ℕ → Parsed → Parsed
  parse_line raw n rest =
      if is_nil raw
      then rest
      else elim (decode raw) [ none ↦ corrupt n | some e ↦ with_entry e rest ]

  -- The loop of `ParseIndex`; lines count from 1.
  unfoldable pub parse_lines : ℕ → List Text → Parsed
  parse_lines n [] = entries []
  parse_lines n (l ∷ ls) =
      let rest = parse_lines (suc n) ls in
      if leb max_line (length l) then too_long else parse_line (trim l) n rest

  -- `ParseIndex`.
  unfoldable pub parse_index : Text → Parsed
  unfolding lines trim parse_lines
  parse_index b = parse_lines 1 (lines b)

  -- What the encoding of an entry is assumed to be: one line that reads back, with nothing to trim,
  -- which fits the scanner's buffer.
  pub record IsLine (e : Entry) : Type 0 where
    pub decode_encode : decode (encode e) ≡ some e
    pub one_line : All (λ c. (c == newline) ≡ false) (encode e)
    pub trimmed : trim (encode e) ≡ encode e
    pub nonempty : is_nil (encode e) ≡ false
    pub short : length (encode e) < max_line
