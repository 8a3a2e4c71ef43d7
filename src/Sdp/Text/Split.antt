-- ===== src/Sdp/Text/Split.antt =====
-- Text is taken apart into the lines it was put together from.
use asio_rtc.Common.{
  ℕ, zero, suc, ◌≤◌, ◌==◌, ◌≡◌, refl, sym, ap, ◌∙◌, false, some, List, [], ◌∷◌, ◌++◌, append_assoc,
  length, length-append, All, All-append, arith,
}
use asio_rtc.Sdp.{Text}
use asio_rtc.Sdp.Text.{split_first, remove_cr, lines_loop, split_lines}
use asio_rtc.Sdp.Text.Laws.{Without, split_first-append}

-- Each line with `\r\n` behind it.
unfoldable pub with_ends : List Text → Text
with_ends [] = []
with_ends (l ∷ lines) = l ++ 13 ∷ 10 ∷ with_ends lines

remove_cr-append : (l : Text) → remove_cr (l ++ 13 ∷ []) ≡ l
unfolding remove_cr
remove_cr-append [] = refl
remove_cr-append (c ∷ []) = refl
remove_cr-append (c ∷ d ∷ l) = ap (λ t. c ∷ t) (remove_cr-append (d ∷ l))

first_line :
    (l rest : Text)
    → Without 10 l
    → split_first 10 (l ++ 13 ∷ 10 ∷ rest) ≡ some (l ++ 13 ∷ [], rest)
first_line l rest h =
    ap (split_first 10) (sym (append_assoc l (13 ∷ []) (10 ∷ rest)))
    ∙ split_first-append 10 (l ++ 13 ∷ []) rest
        (All-append (λ d. (d == 10) ≡ false) l (13 ∷ []) h (refl, tt))

one_round :
    (fuel : ℕ) (l rest : Text)
    → Without 10 l
    → lines_loop (suc fuel) (l ++ 13 ∷ 10 ∷ rest) ≡ l ∷ lines_loop fuel rest
unfolding lines_loop
one_round fuel [] rest h = rw (lines_loop, first_line [] rest h, remove_cr-append []) refl
one_round fuel (c ∷ l) rest h =
    rw (lines_loop, first_line (c ∷ l) rest h, remove_cr-append (c ∷ l)) refl

lines_loop-with_ends :
    (fuel : ℕ) (lines : List Text)
    → All (Without 10) lines
    → length (with_ends lines) ≤ fuel
    → lines_loop fuel (with_ends lines) ≡ lines
unfolding with_ends lines_loop
lines_loop-with_ends zero [] h e = refl
lines_loop-with_ends (suc fuel) [] h e = refl
lines_loop-with_ends zero (l ∷ lines) h e =
    absurd (omega (arith, length-append l (13 ∷ 10 ∷ with_ends lines)))
lines_loop-with_ends (suc fuel) (l ∷ lines) h e =
    one_round fuel l (with_ends lines) h.0
    ∙ ap (λ t. l ∷ t)
        (lines_loop-with_ends fuel lines h.1
          (omega (arith, length-append l (13 ∷ 10 ∷ with_ends lines))))

-- Lines without a line feed, each with `\r\n` behind it, are split into the same lines.
pub split_lines-with_ends :
    (lines : List Text) → All (Without 10) lines → split_lines (with_ends lines) ≡ lines
unfolding split_lines
split_lines-with_ends lines h =
    lines_loop-with_ends (length (with_ends lines)) lines h (omega arith)
