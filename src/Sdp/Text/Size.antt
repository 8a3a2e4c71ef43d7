-- ===== src/Sdp/Text/Size.antt =====
-- What the helpers on text leave is not longer than what they were given.
use asio_rtc.Common.{
  ◌≤◌, ◌&&◌, inl, inr, Bool-cases, Option-cases, [], ◌∷◌, length, IfSome, IfSome-some, nothing,
  arith,
}
use asio_rtc.Sdp.{Text}
use asio_rtc.Sdp.Text.{is_empty, starts_with, split_text, is_blank, trim_begin, trim_end, trim}

trim_begin_size : (s : Text) → length (trim_begin s) ≤ length s
unfolding trim_begin
trim_begin_size [] = omega arith
trim_begin_size (c ∷ s) = elim (Bool-cases (is_blank c)) [
  | inl e ↦ rw e (omega (arith, trim_begin_size s))
  | inr e ↦ rw e (omega arith)
]

trim_end_size : (s : Text) → length (trim_end s) ≤ length s
unfolding trim_end
trim_end_size [] = omega arith
trim_end_size (c ∷ s) = elim (Bool-cases (is_blank c && is_empty (trim_end s))) [
  | inl e ↦ rw e (omega arith)
  | inr e ↦ rw e (omega (arith, trim_end_size s))
]

pub trim_size : (s : Text) → length (trim s) ≤ length s
unfolding trim
trim_size s = omega (arith, trim_end_size (trim_begin s), trim_begin_size s)

pub split_text_size : (p s : Text) → IfSome (λ parts. length parts.1 ≤ length s) (split_text p s)
unfolding split_text
split_text_size p [] = elim (Bool-cases (starts_with p [])) [
  | inl e ↦ rw e (IfSome-some (omega arith))
  | inr e ↦ rw e nothing
]
split_text_size p (c ∷ s) = elim (Bool-cases (starts_with p (c ∷ s))) [
  | inl e ↦ rw e (IfSome-some (omega arith))
  | inr e ↦ elim (Option-cases (split_text p s)) [
    | inl later ↦ rw (e, later) nothing
    | inr (parts, later) ↦
        let short : length parts.1 ≤ length s = (split_text_size p s).holds parts later in
        rw (e, later) (IfSome-some (omega arith))
  ]
]
