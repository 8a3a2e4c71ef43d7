-- ===== src/Sdp/Text/Laws.antt =====
-- Text without a character, and text that trimming leaves alone.
use asio_rtc.Common.{
  ℕ, ◌≡◌, refl, ap, ◌∙◌, inl, inr, Bool, Bool-cases, true, false, ◌&&◌, ◌==◌, ==_iff, none, some,
  [], ◌∷◌, ◌++◌, All, All-imply, arith,
}
use mathlib.Core.Path.{ap₂}
use asio_rtc.Sdp.{Text}
use asio_rtc.Sdp.Text.{is_empty, equal, split_first, is_blank, trim_begin, trim_end, trim}

-- The character does not occur.
abbrev pub Without : ℕ → Text → Type 0
Without c s = All (λ d. (d == c) ≡ false) s

pub split_first-append :
    (c : ℕ) (s t : Text) → Without c s → split_first c (s ++ c ∷ t) ≡ some (s, t)
unfolding split_first
split_first-append c [] t h = ground arith
split_first-append c (d ∷ s) t h = simp (h.0, split_first-append c s t h.1)

pub split_first-none : (c : ℕ) (s : Text) → Without c s → split_first c s ≡ none
unfolding split_first
split_first-none c [] h = refl
split_first-none c (d ∷ s) h = simp (h.0, split_first-none c s h.1)

pub equal_eq : (s t : Text) → equal s t ≡ true → s ≡ t
unfolding equal
equal_eq [] [] h = refl
equal_eq [] (b ∷ t) h = absurd (ground (arith, h))
equal_eq (a ∷ s) [] h = absurd (ground (arith, h))
equal_eq (a ∷ s) (b ∷ t) h = elim (Bool-cases (a == b)) [
  | inl e ↦ ap₂ (λ (x : ℕ) (l : Text). x ∷ l) ((==_iff a b).0 e) (equal_eq s t (ground (arith, h)))
  | inr e ↦ absurd (ground (arith, h))
]

pub equal_refl : (s : Text) → equal s s ≡ true
unfolding equal
equal_refl [] = refl
equal_refl (c ∷ s) = ground (arith, equal_refl s)

-- A word: characters that are no blanks.
abbrev pub IsWord : Text → Type 0
IsWord s = All (λ d. is_blank d ≡ false) s

-- Trimmed text is empty or has no blank at either end.
pub record IsTrimmed (s : Text) : Type 0 where
  pub begin_lem : trim_begin s ≡ s
  pub end_lem : trim_end s ≡ s

pub trim-IsTrimmed : (s : Text) → IsTrimmed s → trim s ≡ s
unfolding trim
trim-IsTrimmed s h = ap trim_end h.begin_lem ∙ h.end_lem

trim_begin-IsWord : (s : Text) → IsWord s → trim_begin s ≡ s
unfolding trim_begin
trim_begin-IsWord [] h = refl
trim_begin-IsWord (c ∷ s) h = simp h.0

trim_end-IsWord : (s : Text) → IsWord s → trim_end s ≡ s
unfolding trim_end
trim_end-IsWord [] h = refl
trim_end-IsWord (c ∷ s) h = simp (h.0, trim_end-IsWord s h.1)

pub IsWord-IsTrimmed : (s : Text) → IsWord s → IsTrimmed s
IsWord-IsTrimmed s h = record { begin_lem = trim_begin-IsWord s h; end_lem = trim_end-IsWord s h }

-- A word with trimmed text behind it that is not empty.
and_false : (b : Bool) → (b && false) ≡ false
and_false true = refl
and_false false = refl

not_empty-append : (s t : Text) → is_empty t ≡ false → is_empty (s ++ t) ≡ false
not_empty-append [] t h = h
not_empty-append (c ∷ s) t h = refl

begins_word : (c : ℕ) (s : Text) → is_blank c ≡ false → trim_begin (c ∷ s) ≡ c ∷ s
unfolding trim_begin
begins_word c s h = simp h

trim_end-append : (s t : Text) → is_empty t ≡ false → trim_end t ≡ t → trim_end (s ++ t) ≡ s ++ t
unfolding trim_end
trim_end-append [] t h e = e
trim_end-append (c ∷ s) t h e =
    simp (trim_end-append s t h e, not_empty-append s t h, and_false (is_blank c))

pub append-IsTrimmed :
    (s t : Text)
    → is_empty s ≡ false
    → IsWord s
    → is_empty t ≡ false
    → trim_end t ≡ t
    → IsTrimmed (s ++ t)
append-IsTrimmed [] t h w h' e = ground (arith, h)
append-IsTrimmed (c ∷ s) t h w h' e = record {
  begin_lem = begins_word c (s ++ t) w.0;
  end_lem = trim_end-append (c ∷ s) t h' e;
}

-- Text that is not empty and has no blank at its end.
pub record EndsWell (t : Text) : Type 0 where
  pub not_empty : is_empty t ≡ false
  pub end_lem : trim_end t ≡ t

pub EndsWell-append : (s : Text) {t : Text} → EndsWell t → EndsWell (s ++ t)
EndsWell-append s {t = t} h = record {
  not_empty = not_empty-append s t h.not_empty;
  end_lem = trim_end-append s t h.not_empty h.end_lem;
}

pub word_ends : (c : ℕ) (s : Text) → IsWord (c ∷ s) → EndsWell (c ∷ s)
word_ends c s h = record { not_empty = refl; end_lem = trim_end-IsWord (c ∷ s) h }

pub trimmed_ends : (c : ℕ) (s : Text) → IsTrimmed (c ∷ s) → EndsWell (c ∷ s)
trimmed_ends c s h = record { not_empty = refl; end_lem = h.end_lem }

-- A line that begins with no blank and ends with none is not changed by trimming.
pub trim-line : (c : ℕ) (s : Text) → is_blank c ≡ false → EndsWell s → trim (c ∷ s) ≡ c ∷ s
trim-line c s h e =
    trim-IsTrimmed (c ∷ s)
      (record { begin_lem = begins_word c s h; end_lem = (EndsWell-append (c ∷ []) e).end_lem })

pub Without-IsWord : (c : ℕ) (s : Text) → is_blank c ≡ true → IsWord s → Without c s
Without-IsWord c s h w = All-imply _ _ (λ d e. differs c d h e) s w
  where
    differs : (c d : ℕ) → is_blank c ≡ true → is_blank d ≡ false → (d == c) ≡ false
    differs c d h e = ground arith
