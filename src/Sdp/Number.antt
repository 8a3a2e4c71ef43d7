-- ===== src/Sdp/Number.antt =====
-- src/sdp.cpp: numbers in text, by `std::from_chars` over the whole text and by `std::to_chars`.
-- For an unsigned type there is no sign, and a value past the type's range is refused.
pub mod RoundTrip
use asio_rtc.Common.{
  ℕ, zero, suc, ◌+◌, ◌-◌, ◌*◌, ◌/◌, ◌%◌, ◌^◌, Bool, ◌&&◌, ltb, leb, if◌then◌else◌, Option, none,
  some, ◌>>=◌, List, [], ◌∷◌, ◌++◌,
}
use asio_rtc.Sdp.{Text}
use asio_rtc.Sdp.Text.{is_empty}

abbrev pub is_digit : ℕ → Bool
is_digit c = leb 48 c && leb c 57

unfoldable pub read_digits : ℕ → Text → Option ℕ
read_digits acc [] = some acc
read_digits acc (c ∷ s) =
    let rest = read_digits (acc * 10 + (c - 48)) s in if is_digit c then rest else none

-- `parse_uint8`, `parse_uint16`, `parse_uint32`: a number of `width` bits.
unfoldable pub parse_uint : ℕ → Text → Option ℕ
parse_uint width s =
    if is_empty s
    then none
    else (do n ← read_digits 0 s; if ltb n (2 ^ width) then some n else none)

abbrev pub parse_uint8 : Text → Option ℕ
parse_uint8 s = parse_uint 8 s

abbrev pub parse_uint16 : Text → Option ℕ
parse_uint16 s = parse_uint 16 s

abbrev pub parse_uint32 : Text → Option ℕ
parse_uint32 s = parse_uint 32 s

unfoldable pub decimal : ℕ → ℕ → Text
decimal zero n = []
decimal (suc fuel) n =
    let front = decimal fuel (n / 10) in
    if ltb n 10 then (48 + n) ∷ [] else front ++ (48 + n % 10) ∷ []

-- `std::to_chars` and `{}` of an integer; a number has no more digits than its value, plus one.
unfoldable pub number_text : ℕ → Text
number_text n = decimal (suc n) n
