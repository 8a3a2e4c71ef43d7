-- ===== src/Sdp/Text.antt =====
-- src/sdp.cpp: the helpers on text. `find` with `substr` on both sides of the place is one function.
pub mod Laws
pub mod Split
pub mod Reference
pub mod Size
use Prim.Native.Char.{code}
use Prim.Native.String.{String}
use asio_rtc.Common.{
  ℕ, zero, suc, Bool, true, false, not, ◌&&◌, ◌||◌, leb, ◌==◌, if◌then◌else◌, Option, none, some,
  List, [], ◌∷◌, ◌++◌, length,
}
use asio_rtc.Sdp.{Text}

-- A literal of the source as its bytes.
abbrev pub codes : String → Text
codes String.[] = []
codes (String.◌∷◌ c s) = code c ∷ codes s

abbrev pub is_empty : Text → Bool
is_empty [] = true
is_empty (c ∷ s) = false

-- `==` of two texts
unfoldable pub equal : Text → Text → Bool
equal [] [] = true
equal [] (d ∷ t) = false
equal (c ∷ s) [] = false
equal (c ∷ s) (d ∷ t) = if c == d then equal s t else false

-- `find(c)`, with what stands before the place and behind it.
unfoldable pub split_first : ℕ → Text → Option (Text × Text)
split_first c [] = none
split_first c (d ∷ s) =
    if d == c
    then some ([], s)
    else elim (split_first c s) [ none ↦ none | some (before, after) ↦ some (d ∷ before, after) ]

unfoldable pub starts_with : Text → Text → Bool
starts_with [] s = true
starts_with (c ∷ p) [] = false
starts_with (c ∷ p) (d ∷ s) = if c == d then starts_with p s else false

-- `find(p)`, with what stands before the place and from it on.
unfoldable pub split_text : Text → Text → Option (Text × Text)
split_text p [] = if starts_with p [] then some ([], []) else none
split_text p (d ∷ s) =
    if starts_with p (d ∷ s)
    then some ([], d ∷ s)
    else elim (split_text p s) [ none ↦ none | some (before, at) ↦ some (d ∷ before, at) ]

-- " \t\n\r\f\v"
abbrev pub is_blank : ℕ → Bool
is_blank c = c == 32 || (leb 9 c && leb c 13)

unfoldable pub trim_begin : Text → Text
trim_begin [] = []
trim_begin (c ∷ s) = if is_blank c then trim_begin s else c ∷ s

unfoldable pub trim_end : Text → Text
trim_end [] = []
trim_end (c ∷ s) = let rest = trim_end s in if is_blank c && is_empty rest then [] else c ∷ rest

unfoldable pub trim : Text → Text
trim s = trim_end (trim_begin s)

unfoldable pub first_token : Text → Text
first_token s = elim (split_first 32 s) [ none ↦ s | some (before, after) ↦ before ]

unfoldable pub parse_line_type_value : Text → Option (ℕ × Text)
parse_line_type_value [] = none
parse_line_type_value (c ∷ []) = none
parse_line_type_value (c ∷ d ∷ s) = if d == 61 then some (c, s) else none

-- `if (line.back() == '\r') line.remove_suffix(1);`
unfoldable pub remove_cr : Text → Text
remove_cr [] = []
remove_cr (c ∷ []) = if c == 13 then [] else c ∷ []
remove_cr (c ∷ d ∷ s) = c ∷ remove_cr (d ∷ s)

unfoldable pub last_line : Text → List Text
last_line [] = []
last_line (c ∷ s) = (c ∷ s) ∷ []

-- The loop of `split_lines`; a round takes a byte at least.
unfoldable pub lines_loop : ℕ → Text → List Text
lines_loop zero s = []
lines_loop (suc fuel) [] = []
lines_loop (suc fuel) (c ∷ s) = elim (split_first 10 (c ∷ s)) [
  | none ↦ last_line (remove_cr (c ∷ s))
  | some (line, rest) ↦ remove_cr line ∷ lines_loop fuel rest
]

unfoldable pub split_lines : Text → List Text
split_lines s = lines_loop (length s) s

unfoldable pub split_attr : Text → Text × Text
split_attr attr = elim (split_first 58 attr) [ none ↦ (attr, []) | some parts ↦ parts ]

-- `find_first_not_of(' ')` and `remove_prefix`
unfoldable pub skip_spaces : Text → Text
skip_spaces [] = []
skip_spaces (c ∷ s) = if c == 32 then skip_spaces s else c ∷ s

-- The loop of `split_whitespace` on text that begins with no space, or is empty.
unfoldable pub parts_loop : ℕ → Text → List Text
parts_loop zero s = []
parts_loop (suc fuel) [] = []
parts_loop (suc fuel) (c ∷ s) = elim (split_first 32 (c ∷ s)) [
  | none ↦ (c ∷ s) ∷ []
  | some (part, rest) ↦ part ∷ parts_loop fuel (skip_spaces rest)
]

unfoldable pub split_whitespace : Text → List Text
split_whitespace s = parts_loop (length s) (skip_spaces s)

-- The loops `while (!str.empty())` that cut at a separator, as in the simulcast layers.
unfoldable pub pieces : ℕ → ℕ → Text → List Text
pieces c zero s = []
pieces c (suc fuel) [] = []
pieces c (suc fuel) (d ∷ s) = elim (split_first c (d ∷ s)) [
  | none ↦ (d ∷ s) ∷ []
  | some (piece, rest) ↦ piece ∷ pieces c fuel rest
]

-- One word of `stream >> word`, and the stream behind it.
unfoldable pub take_word : Text → Text × Text
take_word [] = ([], [])
take_word (c ∷ s) =
    let (word, rest) = take_word s in if is_blank c then ([], c ∷ s) else (c ∷ word, rest)

-- The words that `>>` reads to the end of a stream.
unfoldable pub words : ℕ → Text → List Text
words zero s = []
words (suc fuel) s = elim (trim_begin s) [
  | [] ↦ []
  | c ∷ t ↦ (take_word (c ∷ t)).0 ∷ words fuel (take_word (c ∷ t)).1
]
