-- ===== src/Sdp/Params.antt =====
-- src/sdp.cpp: the parameters of a codec, which one text holds as `name=value` with semicolons.
pub mod Update
use asio_rtc.Common.{
  ℕ, ◌==◌, if◌then◌else◌, Option, none, some, ◌>>=◌, List, [], ◌∷◌, ◌++◌, length, drop,
}
use asio_rtc.Sdp.{Text}
use asio_rtc.Sdp.Text.{is_empty, split_first, split_text}

-- Up to the next semicolon, and from it on.
unfoldable pub value_before : Text → Text
value_before s = elim (split_first 59 s) [ none ↦ s | some (before, after) ↦ before ]

unfoldable pub value_behind : Text → Text
value_behind s = elim (split_first 59 s) [ none ↦ [] | some (before, after) ↦ 59 ∷ after ]

-- What stands behind an equals sign.
unfoldable pub behind_equals : Text → Option Text
behind_equals [] = none
behind_equals (c ∷ s) = if c == 61 then some s else none

unfoldable pub find_param : Text → Text → Option Text
find_param name params = do
  (before, at) ← split_text name params
  rest ← behind_equals (drop (length name) at)
  some (value_before rest)

-- `_params.replace` of the value; text that is no value stays.
unfoldable pub replace_value : Text → Text → Text → Text → Text → Text
replace_value name value params before at = elim (behind_equals (drop (length name) at)) [
  | none ↦ params
  | some rest ↦ before ++ (name ++ 61 ∷ (value ++ value_behind rest))
]

unfoldable pub add_param : Text → Text → Text → Text
add_param name value params =
    if is_empty params then name ++ 61 ∷ value else elim (split_text name params) [
      | none ↦ params ++ 59 ∷ (name ++ 61 ∷ value)
      | some (before, at) ↦ replace_value name value params before at
    ]

-- Behind the semicolon that ends a parameter.
abbrev next_param : Text → Text
next_param s = elim (split_first 59 s) [ none ↦ [] | some (before, after) ↦ after ]

unfoldable pub remove_param : Text → Text → Text
remove_param name params = elim (split_text name params) [
  | none ↦ params
  | some (before, at) ↦ before ++ next_param (drop (length name) at)
]
