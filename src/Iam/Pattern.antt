-- ===== src/Iam/Pattern.antt =====
-- iam/src/lib.rs: `Pattern`, a permission or a set of them by `*` segments.
pub mod Sound
use concierge.Prelude.{
  ℕ, List, [], ◌∷◌, Bool, true, false, not, ◌&&◌, ◌||◌, ◌⊎◌, inl, inr, all, any, length, take,
  is_empty, ltb, leb, ◌==◌, if◌then◌else◌,
}
use concierge.Errors.{Message, lit, num, text}
use concierge.Text.{Text, bytes, split, split_first, same_text, is_ascii_lowercase, is_ascii_digit}

abbrev pub max_name_chars : ℕ
max_name_chars = 128

unfoldable pub is_segment : Text → Bool
is_segment s =
    not (is_empty s)
    && all (λ b. is_ascii_lowercase b || (is_ascii_digit b || (b == b'_'))) (bytes s)

-- `*s == "*"`.
abbrev pub is_star : Text → Bool
is_star s = same_text s (b'*' ∷ [])

-- `raw.split(':')`.
abbrev pub segments : Text → List Text
segments raw = split (λ c. c == b':') raw

-- A namespace, and then one segment or star at least.
abbrev pub is_pattern : List Text → Bool
is_pattern [] = false
is_pattern (namespace ∷ rest) =
    not (is_empty rest) && (is_segment namespace && all (λ s. is_star s || is_segment s) rest)

pub record Pattern : Type 0 where
  pub raw : Text

-- `Pattern::parse`: a message or the pattern.
unfoldable pub parse : Text → Message ⊎ Pattern
parse raw =
    if ltb max_name_chars (length raw)
    then inl (lit "a permission pattern is at most " ∷ num max_name_chars ∷ lit " characters" ∷ [])
    else if is_pattern (segments raw)
    then inr (record { raw = raw })
    else inl (lit "`" ∷ text (take 64 raw) ∷ lit "` is not a permission pattern" ∷ [])

-- The namespace, the first part.
unfoldable pub namespace : Pattern → Text
namespace p = split_first b':' p.raw

-- The loop of `contains` over the segments that are left on either side.
pub contains_loop : List Text → List Text → Bool
contains_loop [] theirs = is_empty theirs
contains_loop (seg ∷ mine) [] = false
contains_loop (seg ∷ mine) (their ∷ theirs) =
    let rest = contains_loop mine theirs in
    if is_empty mine && is_star seg
    then true
    else if is_empty theirs && (is_star their && not (is_empty mine))
    then false
    else if not (is_star seg) && not (same_text seg their)
    then false
    else rest

unfoldable pub contains : Pattern → Pattern → Bool
unfolding contains_loop
contains p other = contains_loop (segments p.raw) (segments other.raw)

unfoldable pub matches : Pattern → Text → Bool
unfolding contains
matches p permission = contains p (record { raw = permission })
