-- ===== src/Manifest/Keys.antt =====
-- internal/manifest/keys.go: the keys of different targets, of the indexes and of the locks.
use Prim.Native.String.{◌++◌}
use Prim.Native.String.append
use Prim.Native.Char.{Char, code}
use text.Mathlib.TextLemmas.{append-nil, append_assoc, append_cancel_left}
use vaultd.Base.{
  ℕ, List, [], ◌∷◌, inl, inr, String, true, false, if◌then◌else◌, ◌=s=◌, ◌≡◌, ◌≢◌, refl, sym, ap,
  ◌∙◌, Bool-cases, arith,
}
use vaultd.Config.Names.{name_char, name_matches, all_chars}
use vaultd.Manifest.Layout.{
  Layout, Stamp, base, layout_join, path_join, target_prefix, index_key, lock_key,
}

-- The elements behind the prefix of a destination.
abbrev under : String → String → String
under prefix s = if prefix =s= "" then s else prefix ++ ("/" ++ s)

under_cancel : (prefix s t : String) → under prefix s ≡ under prefix t → s ≡ t
under_cancel prefix s t e = elim (Bool-cases (prefix =s= "")) [
  | inl q ↦ rw q at e
  | inr q ↦ append_cancel_left "/" s t (append_cancel_left prefix ("/" ++ s) ("/" ++ t) (rw q at e))
]

under_append : (prefix s t : String) → under prefix s ++ t ≡ under prefix (s ++ t)
under_append prefix s t = elim (Bool-cases (prefix =s= "")) [
  | inl q ↦ rw q refl
  | inr q ↦ rw q (append_assoc prefix ("/" ++ s) t ∙ ap (λ x. prefix ++ x) (append_assoc "/" s t))
]

name_char-slash : (c : Char) → name_char c ≡ true → code c ≢ 47
name_char-slash c h e = ground arith

code_of : String → ℕ
code_of String.[] = 0
code_of (String.◌∷◌ c s) = code c

rest_of : String → String
rest_of String.[] = ""
rest_of (String.◌∷◌ c s) = s

slash_code : (v : String) → code_of ("/" ++ v) ≡ 47
unfolding code_of
slash_code v = ap code_of (append.cons "/" "" v)

-- A name does not run into the slash behind another name.
slash_name :
    (d : Char) (t u v : String)
    → all_chars name_char (String.◌∷◌ d t) ≡ true
    → ("/" ++ u ≡ String.◌∷◌ d t ++ ("/" ++ v))
    → ⊥
unfolding code_of
slash_name d t u v k e =
    let same : 47 ≡ code d =
      sym (slash_code u) ∙ (ap code_of e ∙ ap code_of (append.cons d t ("/" ++ v))) in
    name_char-slash d (all_head d t k) (sym same)
  where
    all_head :
        (d : Char) (t : String) → all_chars name_char (String.◌∷◌ d t) ≡ true → name_char d ≡ true
    all_head d t k = ground arith

-- Names that are followed by a slash.
slash_names :
    (s t u v : String)
    → all_chars name_char s ≡ true
    → all_chars name_char t ≡ true
    → s ++ ("/" ++ u) ≡ t ++ ("/" ++ v)
    → s ≡ t
unfolding code_of rest_of
slash_names String.[] String.[] u v h k e = refl
slash_names String.[] (String.◌∷◌ d t) u v h k e =
    absurd (slash_name d t u v k (sym (append.nil ("/" ++ u)) ∙ e))
slash_names (String.◌∷◌ c s) String.[] u v h k e =
    absurd (slash_name c s v u h (sym (append.nil ("/" ++ v)) ∙ sym e))
slash_names (String.◌∷◌ c s) (String.◌∷◌ d t) u v h k e =
    let both : String.◌∷◌ c (s ++ ("/" ++ u)) ≡ String.◌∷◌ d (t ++ ("/" ++ v)) =
      sym (append.cons c s ("/" ++ u)) ∙ (e ∙ append.cons d t ("/" ++ v)) in
    let rest = slash_names s t u v (ground (arith, h)) (ground (arith, k)) (ap rest_of both) in
    cc (both, rest)

layout_join-under :
    (l : Layout) (p : String) (ps : List String)
    → layout_join l (p ∷ ps) ≡ under l.prefix (path_join (p ∷ ps))
layout_join-under l p ps = elim (Bool-cases (l.prefix =s= "")) [
  | inl q ↦ rw q refl
  | inr q ↦ rw q refl
]

-- A key below the prefix of a target.
target_prefix-under :
    (l : Layout) (r : String) → target_prefix l ++ r ≡ under l.prefix (l.target ++ ("/" ++ r))
target_prefix-under l r =
    ap (λ x. (x ++ "/") ++ r) (layout_join-under l l.target [])
    ∙ (append_assoc (under l.prefix (l.target ++ "")) "/" r
        ∙ (under_append l.prefix (l.target ++ "") ("/" ++ r)
            ∙ ap (λ x. under l.prefix (x ++ ("/" ++ r))) (append-nil l.target)))

system_key-under :
    (l : Layout) (dir name : String)
    → layout_join l (dir ∷ name ∷ []) ≡ under l.prefix (dir ++ ("/" ++ (name ++ "")))
system_key-under l dir name = layout_join-under l dir (name ∷ [])

name_matches-chars : (s : String) → name_matches s ≡ true → all_chars name_char s ≡ true
unfolding name_matches
name_matches-chars String.[] h = refl
name_matches-chars (String.◌∷◌ c s) h = ground arith

-- No key below the prefix of a target lies in a directory of the program's own.
not_system :
    (l : Layout) (dir name r : String)
    → name_matches l.target ≡ true
    → all_chars name_char dir ≡ true
    → name_matches dir ≡ false
    → target_prefix l ++ r ≢ layout_join l (dir ∷ name ∷ [])
not_system l dir name r h k n e =
    let same : l.target ≡ dir =
      slash_names l.target dir r (name ++ "") (name_matches-chars l.target h) k (
        under_cancel l.prefix _ _
          (sym (target_prefix-under l r) ∙ (e ∙ system_key-under l dir name))) in
    cc (h, n, same)

-- Every key of a backup lies below the prefix of its target.
base-target_prefix : (l : Layout) (at : Stamp) → (r : String) × (base l at ≡ target_prefix l ++ r)
base-target_prefix l at = (
  at.year
      ++ ("/"
          ++ (at.month ++ ("/" ++ (at.day ++ ("/" ++ ((l.target ++ ("-" ++ at.full)) ++ "")))))),
  layout_join-under l l.target (at.year ∷ at.month ∷ at.day ∷ (l.target ++ ("-" ++ at.full)) ∷ [])
      ∙ sym (target_prefix-under l _),
)

-- In one destination, with names as the configuration demands them: the objects of a target are never
-- the index or the lock of a target, and never the objects of another target.
pub target_prefix-apart :
    (prefix t u r v : String)
    → name_matches t ≡ true
    → name_matches u ≡ true
    → (target_prefix (record { prefix = prefix; target = t }) ++ r
        ≢ index_key (record { prefix = prefix; target = u }))
      × (target_prefix (record { prefix = prefix; target = t }) ++ r
          ≢ lock_key (record { prefix = prefix; target = u }))
      × (target_prefix (record { prefix = prefix; target = t }) ++ r
            ≡ target_prefix (record { prefix = prefix; target = u }) ++ v
          → t ≡ u)
unfolding name_matches
target_prefix-apart prefix t u r v h k = (
  not_system (record { prefix = prefix; target = t }) "_index" (u ++ ".jsonl") r h refl refl,
  not_system (record { prefix = prefix; target = t }) "_locks" (u ++ ".lock") r h refl refl,
  λ e. slash_names t u r v (name_matches-chars t h) (name_matches-chars u k) (
      under_cancel prefix _ _ (
        sym (target_prefix-under (record { prefix = prefix; target = t }) r)
        ∙ (e ∙ target_prefix-under (record { prefix = prefix; target = u }) v))),
)
