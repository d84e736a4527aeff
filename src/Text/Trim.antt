-- ===== src/Text/Trim.antt =====
-- Laws of `trim` and of the comparison of texts.
use concierge.Prelude.{
  ℕ, [], ◌∷◌, true, false, not, all, ◌≡◌, ◌↔◌, inl, inr, refl, ap, ◌∙◌, arith, Bool-cases,
}
use concierge.Text.{Text, is_whitespace, trim, trim_start, trim_end, before_trimmed, same_text}

pub same_text_iff : (s t : Text) → (same_text s t ≡ true) ↔ (s ≡ t)
unfolding same_text
same_text_iff [] [] = ground arith
same_text_iff [] (d ∷ t) = ground arith
same_text_iff (c ∷ s) [] = ground arith
same_text_iff (c ∷ s) (d ∷ t) = ground (arith, same_text_iff s t)

-- A text whose first character, if any, is no white space.
abbrev StartsTrimmed : Text → Type 0
StartsTrimmed [] = Unit
StartsTrimmed (c ∷ s) = is_whitespace c ≡ false

trim_start-StartsTrimmed : (s : Text) → StartsTrimmed (trim_start s)
unfolding trim_start
trim_start-StartsTrimmed [] = tt
trim_start-StartsTrimmed (c ∷ s) = elim (Bool-cases (is_whitespace c)) [
  | inl w ↦ rw w (trim_start-StartsTrimmed s)
  | inr w ↦ rw w w
]

trim_start-of_trimmed : (s : Text) → StartsTrimmed s → trim_start s ≡ s
unfolding trim_start
trim_start-of_trimmed [] h = refl
trim_start-of_trimmed (c ∷ s) h = rw h

before_trimmed-StartsTrimmed :
    (c : ℕ) (s : Text) → is_whitespace c ≡ false → StartsTrimmed (before_trimmed c s)
unfolding before_trimmed
before_trimmed-StartsTrimmed c [] h = rw h h
before_trimmed-StartsTrimmed c (d ∷ s) h = h

trim_end-StartsTrimmed : (s : Text) → StartsTrimmed s → StartsTrimmed (trim_end s)
unfolding trim_end
trim_end-StartsTrimmed [] h = tt
trim_end-StartsTrimmed (c ∷ s) h = before_trimmed-StartsTrimmed c (trim_end s) h

trim_end-before_trimmed :
    (c : ℕ) (s : Text) → trim_end s ≡ s → trim_end (before_trimmed c s) ≡ before_trimmed c s
unfolding trim_end
trim_end-before_trimmed c [] h = ground arith
trim_end-before_trimmed c (d ∷ s) h = rw h

trim_end_idem : (s : Text) → trim_end (trim_end s) ≡ trim_end s
unfolding trim_end
trim_end_idem [] = refl
trim_end_idem (c ∷ s) = trim_end-before_trimmed c (trim_end s) (trim_end_idem s)

-- Trimming twice is trimming once.
pub trim_idem : (s : Text) → trim (trim s) ≡ trim s
unfolding trim
trim_idem s =
    ap trim_end (
      trim_start-of_trimmed (trim_end (trim_start s))
        (trim_end-StartsTrimmed (trim_start s) (trim_start-StartsTrimmed s)))
    ∙ trim_end_idem (trim_start s)

trim_end-none : (s : Text) → all (λ c. not (is_whitespace c)) s ≡ true → trim_end s ≡ s
unfolding trim_end
trim_end-none [] h = refl
trim_end-none (c ∷ s) h = rw (trim_end-none s (ground arith)) (kept c s (ground arith))
  where
    kept : (c : ℕ) (s : Text) → is_whitespace c ≡ false → before_trimmed c s ≡ c ∷ s
    kept c [] w = rw w
    kept c (d ∷ s) w = refl

starts : (s : Text) → all (λ c. not (is_whitespace c)) s ≡ true → StartsTrimmed s
starts [] h = tt
starts (c ∷ s) h = ground arith

-- A text without white space is trimmed.
pub trim-none : (s : Text) → all (λ c. not (is_whitespace c)) s ≡ true → trim s ≡ s
unfolding trim
trim-none s h = ap trim_end (trim_start-of_trimmed s (starts s h)) ∙ trim_end-none s h
