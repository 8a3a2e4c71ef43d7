-- ===== src/Sdp/Session/Refused.antt =====
-- Descriptions that the parser refuses.
use asio_rtc.Common.{
  ℕ, ◌≡◌, refl, ap, ◌∙◌, inl, inr, ◌==◌, ==_iff, Bool-cases, Option-cases, none, List, [], ◌∷◌,
  ◌++◌,
}
use asio_rtc.Sdp.{Text}
use asio_rtc.Sdp.Text.{trim, parse_line_type_value, split_lines}
use asio_rtc.Sdp.Names.{Nceq}
use asio_rtc.Sdp.Attribute.{Patterns}
use asio_rtc.Sdp.Simulcast.{RidPatterns}
use asio_rtc.Sdp.Session.{Parsing, parse_line, parse_lines, from_lines, do_parse}

-- A character, an equals sign, and the value behind it.
abbrev pub HasForm : Text → Type 0
HasForm l = (c : ℕ) × (val : Text) × (l ≡ c ∷ 61 ∷ val)

parse_line_type_value-form : (l : Text) → ¬ HasForm l → parse_line_type_value l ≡ none
unfolding parse_line_type_value
parse_line_type_value-form [] h = refl
parse_line_type_value-form (c ∷ []) h = refl
parse_line_type_value-form (c ∷ d ∷ s) h = elim (Bool-cases (d == 61)) [
  | inl e ↦ absurd (h (c, s, ap (λ x. c ∷ x ∷ s) ((==_iff d 61).0 e)))
  | inr e ↦ rw e refl
]

module _ (nceq : Nceq) (patterns : Patterns) (rid_patterns : RidPatterns) where
  bad_line :
      (p : Parsing) (c : ℕ) (s : Text)
      → ¬ HasForm (c ∷ s)
      → parse_line nceq patterns rid_patterns p (c ∷ s) ≡ none
  unfolding parse_line
  bad_line p c s h = rw (parse_line, parse_line_type_value-form (c ∷ s) h) refl

  bad_lines :
      (before : List Text) (l : Text) (after : List Text) (p : Parsing)
      → ((q : Parsing) → parse_line nceq patterns rid_patterns q (trim l) ≡ none)
      → parse_lines nceq patterns rid_patterns p (before ++ l ∷ after) ≡ none
  unfolding parse_lines
  bad_lines [] l after p h = rw (h p) refl
  bad_lines (b ∷ before) l after p h =
      elim (Option-cases (parse_line nceq patterns rid_patterns p (trim b))) [
        | inl e ↦ rw e refl
        | inr (q, e) ↦ rw e (bad_lines before l after q h)
      ]

  from_bad_lines :
      (before : List Text) (l : Text) (after : List Text) (type : Text)
      → ((q : Parsing) → parse_line nceq patterns rid_patterns q (trim l) ≡ none)
      → from_lines nceq patterns rid_patterns (before ++ l ∷ after) type ≡ none
  unfolding from_lines
  from_bad_lines [] l after type h = rw (bad_lines [] l after _ h) refl
  from_bad_lines (b ∷ before) l after type h = rw (bad_lines (b ∷ before) l after _ h) refl

  -- A description is refused if one of its lines, without the blanks at its ends, is not empty and
  -- is not a character, an equals sign and a value, whatever the lines in front of it and behind it.
  pub do_parse_refuses :
      (sdp type : Text) (before : List Text) (l : Text) (after : List Text) (c : ℕ) (s : Text)
      → split_lines sdp ≡ before ++ l ∷ after
      → trim l ≡ c ∷ s
      → ¬ HasForm (c ∷ s)
      → do_parse nceq patterns rid_patterns sdp type ≡ none
  unfolding do_parse
  do_parse_refuses sdp type before l after c s e t h = rw e (
      from_bad_lines before l after type
        (λ q. ap (parse_line nceq patterns rid_patterns q) t ∙ bad_line q c s h))
