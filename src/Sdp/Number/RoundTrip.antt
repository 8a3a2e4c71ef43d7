-- ===== src/Sdp/Number/RoundTrip.antt =====
-- A number is read back from its digits.
use asio_rtc.Common.{
  ℕ, zero, suc, ◌+◌, ◌-◌, ◌*◌, ◌/◌, ◌%◌, ◌^◌, ◌≤◌, ◌<◌, ◌≡◌, refl, ap, ◌∙◌, false, true, inl, inr,
  Bool-cases, ltb, ltb→lt, ltb→le, lt→ltb, if◌then◌else◌, some, [], ◌∷◌, ◌++◌, All, All-append,
  All-imply, ◌==◌, none, arith,
}
use asio_rtc.Sdp.{Text}
use asio_rtc.Sdp.Text.{is_empty, is_blank}
use asio_rtc.Sdp.Text.Laws.{Without, IsWord, IsWord-IsTrimmed, EndsWell}
use asio_rtc.Sdp.Number.{is_digit, read_digits, parse_uint, decimal, number_text}

abbrev pub IsDigits : Text → Type 0
IsDigits s = All (λ c. is_digit c ≡ true) s

read_digits-append :
    (acc v d : ℕ) (s : Text)
    → d < 10
    → read_digits acc s ≡ some v
    → read_digits acc (s ++ (48 + d) ∷ []) ≡ some (v * 10 + d)
unfolding read_digits
read_digits-append acc v d [] h e = ground arith
read_digits-append acc v d (c ∷ s) h e = elim (Bool-cases (is_digit c)) [
  | inl digit ↦ rw digit (read_digits-append (acc * 10 + (c - 48)) v d s h (rw digit at e))
  | inr other ↦ ground (arith, other)
]

read_nothing : read_digits 0 [] ≡ some 0
unfolding read_digits
read_nothing = refl

read_digits-decimal : (fuel n : ℕ) → n < fuel → read_digits 0 (decimal fuel n) ≡ some n
unfolding decimal
read_digits-decimal zero n h = absurd (omega arith)
read_digits-decimal (suc fuel) n h = elim (Bool-cases (ltb n 10)) [
  | inl e ↦ rw e (read_digits-append 0 0 n [] (ltb→lt n 10 e) read_nothing ∙ ap some (omega arith))
  | inr e ↦
      let large : 10 ≤ n = ltb→le n 10 e in
      rw e (
        read_digits-append 0 (n / 10) (n % 10) (decimal fuel (n / 10)) (omega arith)
          (read_digits-decimal fuel (n / 10) (omega arith))
        ∙ ap some (omega arith))
]

-- What a printed number is made of.
last_digit : (n : ℕ) → is_digit (48 + n % 10) ≡ true
last_digit n = ground arith

not_empty_append : (s : Text) (c : ℕ) → is_empty (s ++ c ∷ []) ≡ false
not_empty_append [] c = refl
not_empty_append (d ∷ s) c = refl

digits_back : (n : ℕ) → read_digits 0 (number_text n) ≡ some n
unfolding number_text
digits_back n = read_digits-decimal (suc n) n (omega arith)

decimal-IsDigits : (fuel n : ℕ) → IsDigits (decimal fuel n)
unfolding decimal
decimal-IsDigits zero n = tt
decimal-IsDigits (suc fuel) n = elim (Bool-cases (ltb n 10)) [
  | inl e ↦ rw e (ground (arith, ltb→lt n 10 e), tt)
  | inr e ↦ rw e (
      All-append (λ c. is_digit c ≡ true) (decimal fuel (n / 10)) ((48 + n % 10) ∷ [])
        (decimal-IsDigits fuel (n / 10)) (last_digit n, tt))
]

decimal_not_empty : (fuel n : ℕ) → is_empty (decimal (suc fuel) n) ≡ false
unfolding decimal
decimal_not_empty fuel n = elim (Bool-cases (ltb n 10)) [
  | inl e ↦ rw e
  | inr e ↦ rw e (not_empty_append (decimal fuel (n / 10)) (48 + n % 10))
]

pub number_text-IsDigits : (n : ℕ) → IsDigits (number_text n)
unfolding number_text
number_text-IsDigits n = decimal-IsDigits (suc n) n

pub number_text_not_empty : (n : ℕ) → is_empty (number_text n) ≡ false
unfolding number_text
number_text_not_empty n = decimal_not_empty n n

digit_no_blank : (c : ℕ) → is_digit c ≡ true → is_blank c ≡ false
digit_no_blank c h = ground arith

pub IsWord-number_text : (n : ℕ) → IsWord (number_text n)
IsWord-number_text n = All-imply _ _ digit_no_blank (number_text n) (number_text-IsDigits n)

pub Without-number_text : (c n : ℕ) → is_digit c ≡ false → Without c (number_text n)
Without-number_text c n h =
    All-imply _ _ (λ d e. differs d e) (number_text n) (number_text-IsDigits n)
  where
    differs : (d : ℕ) → is_digit d ≡ true → (d == c) ≡ false
    differs d e = ground (arith, h)

pub EndsWell-number_text : (n : ℕ) → EndsWell (number_text n)
EndsWell-number_text n = record {
  not_empty = number_text_not_empty n;
  end_lem = (IsWord-IsTrimmed (number_text n) (IsWord-number_text n)).end_lem;
}

-- The digits of a number are read back as that number if it fits the width, and refused otherwise.
pub parse_uint_digits :
    (width n : ℕ) → parse_uint width (number_text n) ≡ (if ltb n (2 ^ width) then some n else none)
unfolding parse_uint
parse_uint_digits width n = simp (number_text_not_empty n, digits_back n)

pub parse_uint-number_text :
    (width n : ℕ) → n < 2 ^ width → parse_uint width (number_text n) ≡ some n
parse_uint-number_text width n h = simp (parse_uint_digits width n, lt→ltb n (2 ^ width) h)
