-- ===== src/Sdp/Text/Reference.antt =====
-- Lines by an independent definition, character by character and without fuel.
use asio_rtc.Common.{
  ℕ, zero, suc, ◌<◌, ◌≤◌, ◌==◌, ◌≡◌, refl, ap, ◌∙◌, inl, inr, Bool-cases, Option-cases,
  if◌then◌else◌, none, List, [], ◌∷◌, length, IfSome, IfSome-some, nothing, arith,
}
use mathlib.Core.Path.{ap₂}
use asio_rtc.Sdp.{Text}
use asio_rtc.Sdp.Text.{split_first, remove_cr, last_line, lines_loop, split_lines}

-- What stands before the first line feed, and the pieces between line feeds behind it.
unfoldable pub cut : Text → Text × List Text
cut [] = ([], [])
cut (c ∷ s) =
    let (piece, others) = cut s in if c == 10 then ([], piece ∷ others) else (c ∷ piece, others)

-- A piece without the carriage return at its end, if it has one there.
unfoldable pub strip_return : Text → Text
strip_return [] = []
strip_return (c ∷ []) = if c == 13 then [] else c ∷ []
strip_return (c ∷ d ∷ s) = c ∷ strip_return (d ∷ s)

-- The last piece is no line if nothing is left of it.
unfoldable pub lines_of : Text → List Text → List Text
lines_of piece [] = elim (strip_return piece) [ [] ↦ [] | c ∷ s ↦ (c ∷ s) ∷ [] ]
lines_of piece (next ∷ others) = strip_return piece ∷ lines_of next others

remove_cr_lem : (s : Text) → remove_cr s ≡ strip_return s
unfolding remove_cr strip_return
remove_cr_lem [] = refl
remove_cr_lem (c ∷ []) = refl
remove_cr_lem (c ∷ d ∷ s) = ap (λ t. c ∷ t) (remove_cr_lem (d ∷ s))

last_line_lem : (s : Text) → last_line (remove_cr s) ≡ lines_of s []
unfolding last_line lines_of
last_line_lem s = ap last_line (remove_cr_lem s) ∙ by_parts (strip_return s)
  where
    by_parts : (s : Text) → last_line s ≡ elim s [ [] ↦ [] | c ∷ t ↦ (c ∷ t) ∷ [] ]
    by_parts [] = refl
    by_parts (c ∷ t) = refl

unfoldable pub cut_lines : Text → List Text
cut_lines s = lines_of (cut s).0 (cut s).1

cut-none : (s : Text) → split_first 10 s ≡ none → cut s ≡ (s, [])
unfolding split_first cut
cut-none [] e = refl
cut-none (c ∷ s) e = elim (Bool-cases (c == 10)) [
  | inl feed ↦ absurd (ground (arith, rw feed at e))
  | inr other ↦ elim (Option-cases (split_first 10 s)) [
    | inl later ↦ rw (other, cut-none s later) refl
    | inr (parts, later) ↦ absurd (ground (arith, rw (other, later) at e))
  ]
]

-- A line was found: it and the rest make up the cut, and the rest is shorter.
record IsCutAt (s line rest : Text) : Type 0 where
  pieces : cut s ≡ (line, (cut rest).0 ∷ (cut rest).1)
  shorter : length rest < length s

cut_at : (s : Text) → IfSome (λ parts. IsCutAt s parts.0 parts.1) (split_first 10 s)
unfolding split_first cut
cut_at [] = nothing
cut_at (c ∷ s) = elim (Bool-cases (c == 10)) [
  | inl feed ↦
      rw feed (IfSome-some (record { pieces = rw (cut, feed) refl; shorter = omega arith }))
  | inr other ↦ elim (Option-cases (split_first 10 s)) [
    | inl later ↦ rw (other, later) nothing
    | inr (parts, later) ↦
        let behind : IsCutAt s parts.0 parts.1 = (cut_at s).holds parts later in
        let short : length parts.1 < length s = behind.shorter in
        rw (other, later)
          (IfSome-some
            (record { pieces = rw (cut, other, behind.pieces) refl; shorter = omega arith }))
  ]
]

lines_loop-cut_lines : (fuel : ℕ) (s : Text) → length s ≤ fuel → lines_loop fuel s ≡ cut_lines s
unfolding lines_loop cut_lines lines_of cut strip_return
lines_loop-cut_lines zero [] h = refl
lines_loop-cut_lines zero (c ∷ s) h = absurd (omega arith)
lines_loop-cut_lines (suc fuel) [] h = refl
lines_loop-cut_lines (suc fuel) (c ∷ s) h = elim (Option-cases (split_first 10 (c ∷ s))) [
  | inl e ↦ rw (lines_loop, e, cut_lines, cut-none (c ∷ s) e) (last_line_lem (c ∷ s))
  | inr ((l, rest), e) ↦
      let found : IsCutAt (c ∷ s) l rest = (cut_at (c ∷ s)).holds (l, rest) e in
      let short : length rest < suc (length s) = found.shorter in
      rw (lines_loop, e, cut_lines, found.pieces)
        (ap₂ (λ (x : Text) (t : List Text). x ∷ t) (remove_cr_lem l)
          (lines_loop-cut_lines fuel rest (omega arith)))
]

-- For every text `split_lines` gives the lines of the definition above, so its loop ends and the
-- length of the text is fuel enough.
pub split_lines-cut_lines : (s : Text) → split_lines s ≡ cut_lines s
unfolding split_lines
split_lines-cut_lines s = lines_loop-cut_lines (length s) s (omega arith)
