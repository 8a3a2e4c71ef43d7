-- ===== src/Sdp/Params/Update.antt =====
-- A parameter that was added is found again.
use asio_rtc.Common.{
  ℕ, ◌≤◌, ◌==◌, ◌≡◌, refl, sym, ap, ◌∙◌, true, false, ◌⊎◌, inl, inr, Bool-cases, Option-cases, none,
  some, [], ◌∷◌, ◌++◌, append-nil, append_assoc, length, length-append, drop, drop-append, IfSome,
  IfSome-some, nothing, arith,
}
use mathlib.Core.Path.{ap₂}
use asio_rtc.Sdp.{Text}
use asio_rtc.Sdp.Text.{split_first, starts_with, split_text}
use asio_rtc.Sdp.Text.Laws.{Without, split_first-append, split_first-none}
use asio_rtc.Sdp.Params.{
  value_before, value_behind, behind_equals, find_param, replace_value, add_param,
}

starts_with-append : (p t : Text) → starts_with p (p ++ t) ≡ true
unfolding starts_with
starts_with-append [] t = refl
starts_with-append (c ∷ p) t = ground (arith, starts_with-append p t)

-- Only the first characters matter.
starts_with_same :
    (p u x y : Text) → length p ≤ length u → starts_with p (u ++ x) ≡ starts_with p (u ++ y)
unfolding starts_with
starts_with_same [] u x y h = refl
starts_with_same (c ∷ p) [] x y h = absurd (omega arith)
starts_with_same (c ∷ p) (d ∷ u) x y h = rw (starts_with_same p u x y (omega arith)) refl

-- A semicolon ends the search, since the name has none.
starts_with_over :
    (p s x : Text) → Without 59 p → starts_with p s ≡ false → starts_with p (s ++ 59 ∷ x) ≡ false
unfolding starts_with
starts_with_over [] s x w h = absurd (ground (arith, h))
starts_with_over (c ∷ p) [] x w h = simp w.0
starts_with_over (c ∷ p) (d ∷ s) x w h = elim (Bool-cases (c == d)) [
  | inl same ↦ rw same (starts_with_over p s x w.1 (rw same at h))
  | inr other ↦ rw other refl
]

found_at_start : (p s : Text) → starts_with p s ≡ true → split_text p s ≡ some ([], s)
unfolding split_text
found_at_start p [] h = rw h refl
found_at_start p (c ∷ s) h = rw h refl

-- The name stands nowhere in the text, and is put behind it.
split_text_new :
    (p s t : Text)
    → Without 59 p
    → split_text p s ≡ none
    → split_text p (s ++ 59 ∷ (p ++ t)) ≡ some (s ++ 59 ∷ [], p ++ t)
unfolding split_text
split_text_new p [] t w h = elim (Bool-cases (starts_with p [])) [
  | inl found ↦ absurd (ground (arith, rw found at h))
  | inr no_match ↦
      rw
        (
          starts_with_over p [] (p ++ t) w no_match,
          found_at_start p (p ++ t) (starts_with-append p t),
        )
        refl
]
split_text_new p (c ∷ s) t w h = elim (Bool-cases (starts_with p (c ∷ s))) [
  | inl found ↦ absurd (ground (arith, rw found at h))
  | inr no_match ↦ elim (Option-cases (split_text p s)) [
    | inl later ↦
        rw (starts_with_over p (c ∷ s) (p ++ t) w no_match, split_text_new p s t w later) refl
    | inr (parts, later) ↦ absurd (ground (arith, rw (no_match, later) at h))
  ]
]

-- The text where the name was found.
record IsFirst (p s before at : Text) : Type 0 where
  whole : s ≡ before ++ at
  begins : starts_with p at ≡ true
  first : (y : Text) → split_text p (before ++ (p ++ y)) ≡ some (before, p ++ y)

starts_with_split : (p s : Text) → starts_with p s ≡ true → s ≡ p ++ drop (length p) s
unfolding starts_with
starts_with_split [] s h = refl
starts_with_split (c ∷ p) [] h = absurd (ground (arith, h))
starts_with_split (c ∷ p) (d ∷ s) h = elim (Bool-cases (c == d)) [
  | inl same ↦ ap₂ (λ a t. a ∷ t) (ground (arith, same)) (starts_with_split p s (rw same at h))
  | inr other ↦ absurd (ground (arith, rw other at h))
]

IsFirst-here : (p s : Text) → starts_with p s ≡ true → IsFirst p s [] s
IsFirst-here p s h = record {
  whole = refl;
  begins = h;
  first = λ y. found_at_start p (p ++ y) (starts_with-append p y);
}

no_earlier_match :
    (p before at y : Text)
    → starts_with p at ≡ true
    → starts_with p (before ++ at) ≡ false
    → starts_with p (before ++ (p ++ y)) ≡ false
no_earlier_match p before at y b h =
    ap (starts_with p) (sym (append_assoc before p y))
    ∙ (starts_with_same p (before ++ p) y (drop (length p) at)
          (omega (arith, length-append before p))
        ∙ (ap (starts_with p) (
              append_assoc before p (drop (length p) at)
              ∙ ap (λ t. before ++ t) (sym (starts_with_split p at b)))
            ∙ h))

IsFirst-later :
    (p s before at : Text) (d : ℕ)
    → starts_with p (d ∷ s) ≡ false
    → IsFirst p s before at
    → IsFirst p (d ∷ s) (d ∷ before) at
unfolding split_text
IsFirst-later p s before at d h f = record {
  whole = ap (λ t. d ∷ t) f.whole;
  begins = f.begins;
  first = λ y.
      rw
        (
          no_earlier_match p (d ∷ before) at y f.begins
              (ap (λ t. starts_with p (d ∷ t)) (sym f.whole) ∙ h),
          f.first y,
        )
        refl;
}

split_text-IsFirst : (p s : Text) → IfSome (λ parts. IsFirst p s parts.0 parts.1) (split_text p s)
unfolding split_text
split_text-IsFirst p [] = elim (Bool-cases (starts_with p [])) [
  | inl found ↦ rw found (IfSome-some (IsFirst-here p [] found))
  | inr no_match ↦ rw no_match nothing
]
split_text-IsFirst p (d ∷ s) = elim (Bool-cases (starts_with p (d ∷ s))) [
  | inl found ↦ rw found (IfSome-some (IsFirst-here p (d ∷ s) found))
  | inr no_match ↦ elim (Option-cases (split_text p s)) [
    | inl later ↦ rw (no_match, later) nothing
    | inr (parts, later) ↦
        rw (no_match, later)
          (IfSome-some (
            IsFirst-later p s parts.0 parts.1 d no_match
              ((split_text-IsFirst p s).holds parts later)))
  ]
]

alone : (value : Text) → Without 59 value → value_before value ≡ value
unfolding value_before
alone value w = rw (value_before, split_first-none 59 value w) refl

-- The value behind the name, up to the next semicolon.
value_before-append :
    (value rest : Text) → Without 59 value → value_before (value ++ value_behind rest) ≡ value
unfolding value_before value_behind
value_before-append value rest w = elim (Option-cases (split_first 59 rest)) [
  | inl e ↦ rw (value_behind, e) (ap value_before (append-nil value) ∙ alone value w)
  | inr ((b, a), e) ↦ rw (value_behind, e, value_before, split_first-append 59 value a w) refl
]

find_param_at :
    (name params before tail value : Text)
    → split_text name params ≡ some (before, name ++ 61 ∷ tail)
    → value_before tail ≡ value
    → find_param name params ≡ some value
unfolding find_param behind_equals
find_param_at name params before tail value e w =
    rw (find_param, e, drop-append (length name) name (61 ∷ tail) refl, w) refl

-- The text found is one with a value, so the value is replaced.
replaced :
    (name value params before at : Text)
    → Without 59 value
    → split_text name params ≡ some (before, at)
    → (old : Text) × (find_param name params ≡ some old)
    → find_param name (replace_value name value params before at) ≡ some value
unfolding find_param replace_value
replaced name value params before at w e (old, f) =
    elim (Option-cases (behind_equals (drop (length name) at))) [
      | inl no_value ↦ absurd (ground (arith, rw (find_param, e, no_value) at f))
      | inr (rest, found) ↦
          rw (replace_value, found)
            (find_param_at name (before ++ (name ++ 61 ∷ (value ++ value_behind rest))) before
              (value ++ value_behind rest) value
              (((split_text-IsFirst name params).holds (before, at) e).first
                (61 ∷ (value ++ value_behind rest)))
              (value_before-append value rest w))
    ]

-- A parameter that was added to text without its name, or where the name has a value already, is
-- found with the added value. Neither the name nor the value has a semicolon.
pub find_param-add_param :
    (name value params : Text)
    → Without 59 name
    → Without 59 value
    → (split_text name params ≡ none) ⊎ ((old : Text) × (find_param name params ≡ some old))
    → find_param name (add_param name value params) ≡ some value
unfolding add_param find_param
find_param-add_param name value [] wn wv h =
    find_param_at name (name ++ 61 ∷ value) [] value value
      (found_at_start name (name ++ 61 ∷ value) (starts_with-append name (61 ∷ value)))
      (alone value wv)
find_param-add_param name value (c ∷ params) wn wv (inl e) =
    rw (add_param, e)
      (find_param_at name ((c ∷ params) ++ 59 ∷ (name ++ 61 ∷ value)) ((c ∷ params) ++ 59 ∷ [])
        value value (split_text_new name (c ∷ params) (61 ∷ value) wn e) (alone value wv))
find_param-add_param name value (c ∷ params) wn wv (inr h) =
    elim (Option-cases (split_text name (c ∷ params))) [
      | inl e ↦ absurd (ground (arith, rw (find_param, e) at h.1))
      | inr ((before, at), e) ↦
          rw (add_param, e) (replaced name value (c ∷ params) before at wv e h)
    ]
