-- ===== src/Sdp/Simulcast/Ends.antt =====
-- The loop of `parse_simulcast` ends.
use asio_rtc.Common.{
  ℕ, zero, suc, ◌+◌, ◌≤◌, ◌==◌, ◌≡◌, refl, inl, inr, Bool-cases, Option-cases, if◌then◌else◌, [],
  ◌∷◌, length, drop, length-drop, arith,
}
use asio_rtc.Sdp.{Text, SdpSimulcast}
use asio_rtc.Sdp.Text.{split_text, first_token, trim, codes}
use asio_rtc.Sdp.Text.Size.{trim_size, split_text_size}
use asio_rtc.Sdp.Simulcast.{after_keyword, simulcast_loop}

after_keyword_size : (keyword rest : Text) → length (after_keyword keyword rest) ≤ length rest
unfolding after_keyword
after_keyword_size keyword rest = elim (Option-cases (split_text keyword rest)) [
  | inl e ↦ rw (after_keyword, e) (omega arith)
  | inr (parts, e) ↦
      let short : length parts.1 ≤ length rest = (split_text_size keyword rest).holds parts e in
      rw (after_keyword, e) (omega (arith, length-drop 1 parts.1))
]

-- What is left of the text behind its first word.
abbrev behind_token : Text → Text
behind_token v =
    if length (first_token v) == length v then [] else trim (drop (length (first_token v) + 1) v)

behind_token_size : (c : ℕ) (s : Text) → length (behind_token (c ∷ s)) ≤ length s
behind_token_size c s = elim (Bool-cases (length (first_token (c ∷ s)) == length (c ∷ s))) [
  | inl e ↦ rw e (omega arith)
  | inr e ↦ rw e (
      omega (
        arith,
        trim_size (drop (length (first_token (c ∷ s)) + 1) (c ∷ s)),
        length-drop (length (first_token (c ∷ s)) + 1) (c ∷ s),
      ))
]

next_size :
    (keyword : Text) (c : ℕ) (s : Text)
    → length (after_keyword keyword (behind_token (c ∷ s))) ≤ length s
next_size keyword c s =
    omega (arith, after_keyword_size keyword (behind_token (c ∷ s)), behind_token_size c s)

-- The rounds of the loop on text `v` are at most as many as `v` has characters: with that fuel or
-- more, however much, the loop gives the same result, so it ends by itself.
pub simulcast_loop_ends :
    (f g : ℕ) (v : Text) (attr : SdpSimulcast)
    → length v ≤ f
    → length v ≤ g
    → simulcast_loop f v attr ≡ simulcast_loop g v attr
unfolding simulcast_loop
simulcast_loop_ends zero zero v attr hf hg = refl
simulcast_loop_ends zero (suc g) [] attr hf hg = refl
simulcast_loop_ends zero (suc g) (c ∷ s) attr hf hg = absurd (omega arith)
simulcast_loop_ends (suc f) zero [] attr hf hg = refl
simulcast_loop_ends (suc f) zero (c ∷ s) attr hf hg = absurd (omega arith)
simulcast_loop_ends (suc f) (suc g) [] attr hf hg = refl
simulcast_loop_ends (suc f) (suc g) (c ∷ s) attr hf hg =
    rw
      (
        simulcast_loop_ends f g (after_keyword (codes " recv") (behind_token (c ∷ s))) _
            (omega (arith, next_size (codes " recv") c s))
            (omega (arith, next_size (codes " recv") c s)),
        simulcast_loop_ends f g (after_keyword (codes " send") (behind_token (c ∷ s))) _
            (omega (arith, next_size (codes " send") c s))
            (omega (arith, next_size (codes " send") c s)),
      )
      refl
