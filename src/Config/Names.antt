-- ===== src/Config/Names.antt =====
-- internal/config/validate.go: `nameRE`, `^[a-z0-9][a-z0-9_-]*$`, and `identRE`,
-- `^[a-zA-Z_][a-zA-Z0-9_]*$`.
use Prim.Native.Char.{Char, code}
use vaultd.Base.{String, Bool, true, false, ◌&&◌, ◌||◌, leb, ◌==◌}

abbrev is_lower : Char → Bool
is_lower c = leb 97 (code c) && leb (code c) 122

abbrev is_upper : Char → Bool
is_upper c = leb 65 (code c) && leb (code c) 90

abbrev is_digit : Char → Bool
is_digit c = leb 48 (code c) && leb (code c) 57

abbrev pub all_chars : (Char → Bool) → String → Bool
all_chars p String.[] = true
all_chars p (String.◌∷◌ c s) = p c && all_chars p s

-- The first class of `nameRE`, and the second.
abbrev name_start : Char → Bool
name_start c = is_lower c || is_digit c

abbrev pub name_char : Char → Bool
name_char c = name_start c || (code c == 95 || code c == 45)

-- `nameRE.MatchString`.
unfoldable pub name_matches : String → Bool
name_matches String.[] = false
name_matches (String.◌∷◌ c s) = name_start c && all_chars name_char s

-- `identRE.MatchString`.
unfoldable pub ident_matches : String → Bool
ident_matches String.[] = false
ident_matches (String.◌∷◌ c s) =
    (is_lower c || (is_upper c || code c == 95))
    && all_chars (λ d. is_lower d || (is_upper d || (is_digit d || code d == 95))) s
