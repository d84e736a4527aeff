-- ===== src/Iam/Pattern/Sound.antt =====
-- A pattern that contains another matches whatever the other matches.
use concierge.Prelude.{
  List, [], ◌∷◌, Bool, true, false, not, all, is_empty, ◌≡◌, arith, inl, inr, refl, ◌⊎◌, ◌↔◌,
}
use concierge.Text.{Text}
use concierge.Text.Trim.{same_text_iff}
use concierge.Iam.Pattern.{Pattern, contains, contains_loop, matches, segments, is_star}

-- A concrete permission has no star among its segments.
abbrev pub is_concrete : List Text → Bool
is_concrete segs = all (λ s. not (is_star s)) segs

-- One round of the loop: the last segment is a star, or neither side ends in a star out of turn and
-- the segments fit.
abbrev Round : Text → List Text → Text → List Text → Type 0
Round seg mine their theirs =
    ((is_empty mine ≡ true) × (is_star seg ≡ true))
    ⊎ (((is_empty theirs ≡ false) ⊎ ((is_star their ≡ false) ⊎ (is_empty mine ≡ true)))
        × ((is_star seg ≡ true) ⊎ (seg ≡ their))
        × (contains_loop mine theirs ≡ true))

Round-of :
    (seg their : Text) (mine theirs : List Text)
    → contains_loop (seg ∷ mine) (their ∷ theirs) ≡ true
    → Round seg mine their theirs
unfolding contains_loop
Round-of seg their mine theirs h =
    ground (arith, same_text_iff seg their, same_text_iff seg (42 ∷ []))

of_Round :
    (seg their : Text) (mine theirs : List Text)
    → Round seg mine their theirs
    → contains_loop (seg ∷ mine) (their ∷ theirs) ≡ true
unfolding contains_loop
of_Round seg their mine theirs h =
    ground (arith, same_text_iff seg their, same_text_iff seg (42 ∷ []))

Round-trans :
    (m t s : Text) (mine theirs segs : List Text)
    → is_star s ≡ false
    → (contains_loop mine theirs ≡ true
        → contains_loop theirs segs ≡ true
        → contains_loop mine segs ≡ true)
    → Round m mine t theirs
    → Round t theirs s segs
    → Round m mine s segs
Round-trans m t s mine theirs segs c ih h k = ground arith

contains_loop_trans :
    (mine theirs segs : List Text)
    → is_concrete segs ≡ true
    → contains_loop mine theirs ≡ true
    → contains_loop theirs segs ≡ true
    → contains_loop mine segs ≡ true
contains_loop_trans [] [] segs c h k = k
contains_loop_trans [] (t ∷ theirs) segs c h k = absurd (unfold contains_loop in ground arith)
contains_loop_trans (m ∷ mine) [] segs c h k = absurd (unfold contains_loop in ground arith)
contains_loop_trans (m ∷ mine) (t ∷ theirs) [] c h k = absurd (unfold contains_loop in ground arith)
contains_loop_trans (m ∷ mine) (t ∷ theirs) (s ∷ segs) c h k = of_Round m s mine segs (
    Round-trans m t s mine theirs segs (ground arith)
      (contains_loop_trans mine theirs segs (ground arith)) (Round-of m t mine theirs h)
      (Round-of t s theirs segs k))

-- Whatever a pattern matches among the permissions without a star, every pattern that contains it
-- matches too.
pub contains_sound :
    (p q : Pattern) (permission : Text)
    → is_concrete (segments permission) ≡ true
    → contains p q ≡ true
    → matches q permission ≡ true
    → matches p permission ≡ true
unfolding matches contains
contains_sound p q permission c h k =
    contains_loop_trans (segments p.raw) (segments q.raw) (segments permission) c h k

-- What a pattern means: segment by segment, a star stands for one segment, and a star at the end for
-- one or more.
pub data Matches : List Text → List Text → Type 0 where
  end : Matches [] []
  segment : {s t : Text} {ss ts : List Text} → s ≡ t → Matches ss ts → Matches (s ∷ ss) (t ∷ ts)
  star :
      {s t : Text} {ss ts : List Text}
      → is_star s ≡ true
      → Matches ss ts
      → Matches (s ∷ ss) (t ∷ ts)
  tail : {s t : Text} {ts : List Text} → is_star s ≡ true → Matches (s ∷ []) (t ∷ ts)

contains_loop-Matches :
    (pattern_ permission : List Text)
    → contains_loop pattern_ permission ≡ true
    → Matches pattern_ permission
contains_loop-Matches [] [] h = end
contains_loop-Matches [] (t ∷ ts) h = absurd (unfold contains_loop in ground arith)
contains_loop-Matches (s ∷ ss) [] h = absurd (unfold contains_loop in ground arith)
contains_loop-Matches (s ∷ ss) (t ∷ ts) h =
    by_round ss (Round-of s t ss ts h) (contains_loop-Matches ss ts)
  where
    by_round :
        (ss : List Text)
        → Round s ss t ts
        → (contains_loop ss ts ≡ true → Matches ss ts)
        → Matches (s ∷ ss) (t ∷ ts)
    by_round [] (inl (last, is)) ih = tail is
    by_round (x ∷ ss) (inl (last, is)) ih = absurd (ground arith)
    by_round ss (inr (turn, inl is, rest)) ih = star is (ih rest)
    by_round ss (inr (turn, inr same, rest)) ih = segment same (ih rest)

Matches-contains_loop :
    {pattern_ permission : List Text}
    → Matches pattern_ permission
    → is_concrete permission ≡ true
    → contains_loop pattern_ permission ≡ true
Matches-contains_loop end c = unfold contains_loop in refl
Matches-contains_loop (segment {s} {t} {ss} {ts} e m) c =
    of_Round s t ss ts
      (inr (inr (inl (ground arith)), inr e, Matches-contains_loop m (ground arith)))
Matches-contains_loop (star {s} {t} {ss} {ts} e m) c =
    of_Round s t ss ts
      (inr (inr (inl (ground arith)), inl e, Matches-contains_loop m (ground arith)))
Matches-contains_loop (tail {s} {t} {ts} e) c = of_Round s t [] ts (inl (refl, e))

-- A pattern matches a permission without a star exactly when each segment is the permission's or a
-- star, where a star at the end takes one segment or more.
pub matches_iff :
    (p : Pattern) (permission : Text)
    → is_concrete (segments permission) ≡ true
    → (matches p permission ≡ true) ↔ Matches (segments p.raw) (segments permission)
unfolding matches contains
matches_iff p permission c =
    (contains_loop-Matches (segments p.raw) (segments permission), λ m. Matches-contains_loop m c)
