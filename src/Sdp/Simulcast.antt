-- ===== src/Sdp/Simulcast.antt =====
-- src/sdp.cpp: simulcast layers and restriction identifiers (rid).
pub mod Ends
use asio_rtc.Common.{
  ℕ, zero, suc, ◌+◌, Bool, true, false, not, ◌&&◌, ltb, ◌==◌, if◌then◌else◌, Option, none, some,
  ◌>>=◌, List, [], ◌∷◌, ◌++◌, length, drop,
}
use asio_rtc.Sdp.{Text, SdpSimulcastStream, SdpSimulcastLayer, SdpSimulcast, SdpRid, send, recv}
use asio_rtc.Sdp.Text.{is_empty, equal, split_text, first_token, trim, pieces, codes}
use asio_rtc.Sdp.Number.{parse_uint8, number_text}
use asio_rtc.Sdp.Names.{rid_direction_name}

abbrev stream_of : Text → SdpSimulcastStream
stream_of [] = record { rid = []; paused = false }
stream_of (c ∷ s) =
    if c == 126 then record { rid = s; paused = true } else record { rid = c ∷ s; paused = false }

-- The alternatives of one layer; empty ones are skipped.
unfoldable pub parse_streams : List Text → SdpSimulcastLayer
parse_streams [] = []
parse_streams (p ∷ ps) =
    let token = trim p in
    if is_empty token then parse_streams ps else stream_of token ∷ parse_streams ps

unfoldable pub parse_layers : List Text → List SdpSimulcastLayer
parse_layers [] = []
parse_layers (g ∷ groups) = elim (parse_streams (pieces 44 (length g) g)) [
  | [] ↦ parse_layers groups
  | s ∷ streams ↦ (s ∷ streams) ∷ parse_layers groups
]

unfoldable pub parse_simulcast_layers : Text → List SdpSimulcastLayer
parse_simulcast_layers str = parse_layers (pieces 59 (length str) str)

unfoldable pub before_keyword : Text → Text → Text
before_keyword keyword rest = elim (split_text keyword rest) [
  | none ↦ rest
  | some (before, at) ↦ before
]

-- What is left for the next round; nothing ends the loop.
unfoldable pub after_keyword : Text → Text → Text
after_keyword keyword rest = elim (split_text keyword rest) [
  | none ↦ []
  | some (before, at) ↦ drop 1 at
]

-- The loop of `parse_simulcast` on trimmed text.
unfoldable pub simulcast_loop : ℕ → Text → SdpSimulcast → SdpSimulcast
simulcast_loop zero v attr = attr
simulcast_loop (suc fuel) v attr =
    let token = first_token v in
    let rest = if length token == length v then [] else trim (drop (length token + 1) v) in
    let sent = simulcast_loop fuel (after_keyword (codes " recv") rest) (record attr {
      send_layers = parse_simulcast_layers (trim (before_keyword (codes " recv") rest));
    }) in
    let received = simulcast_loop fuel (after_keyword (codes " send") rest) (record attr {
      recv_layers = parse_simulcast_layers (trim (before_keyword (codes " send") rest));
    }) in
    if is_empty v
    then attr
    else if equal token (codes "send") && not (is_empty rest)
    then sent
    else if equal token (codes "recv") && not (is_empty rest)
    then received
    else attr

unfoldable pub parse_simulcast : Text → Option SdpSimulcast
parse_simulcast value =
    some
      (simulcast_loop (length value) (trim value) (record { send_layers = []; recv_layers = [] }))

abbrev stream_text : SdpSimulcastStream → Text
stream_text s = if s.paused then 126 ∷ s.rid else s.rid

-- The streams of a layer, a comma between two of them.
unfoldable pub streams_text : SdpSimulcastLayer → Text
streams_text [] = []
streams_text (s ∷ []) = stream_text s
streams_text (s ∷ t ∷ streams) = stream_text s ++ 44 ∷ streams_text (t ∷ streams)

-- Each layer that is not empty, with a semicolon behind it.
unfoldable pub layers_ended : List SdpSimulcastLayer → Text
layers_ended [] = []
layers_ended ([] ∷ layers) = layers_ended layers
layers_ended ((s ∷ streams) ∷ layers) = streams_text (s ∷ streams) ++ 59 ∷ layers_ended layers

-- `pop_back`
unfoldable pub without_last : Text → Text
without_last [] = []
without_last (c ∷ []) = []
without_last (c ∷ d ∷ s) = c ∷ without_last (d ∷ s)

unfoldable pub layers_text : List SdpSimulcastLayer → Text
layers_text layers = without_last (layers_ended layers)

abbrev no_layers : List SdpSimulcastLayer → Bool
no_layers [] = true
no_layers (l ∷ layers) = false

unfoldable pub simulcast_text : SdpSimulcast → Text
simulcast_text attr =
    if no_layers attr.send_layers && no_layers attr.recv_layers
    then []
    else codes "a=simulcast:"
      ++ ((if no_layers attr.send_layers then [] else codes "send " ++ layers_text attr.send_layers)
          ++ (if no_layers attr.recv_layers
              then []
              else codes " recv " ++ layers_text attr.recv_layers))

-- The regular expressions of `parse_rid`: the head with its parameters, the parts between
-- semicolons, `key=value`, and the runs of digits.
pub record RidPatterns : Type 0 where
  pub match_head : Text → Option (Text × Text × Text)
  pub segments : Text → List Text
  pub match_key_value : Text → Option (Text × Text)
  pub digit_runs : Text → List Text

-- The order of the map's keys.
unfoldable pub less : Text → Text → Bool
less [] [] = false
less [] (d ∷ t) = true
less (c ∷ s) [] = false
less (c ∷ s) (d ∷ t) = if c == d then less s t else ltb c d

-- `emplace` on the map: a key that is there keeps its value.
unfoldable pub emplace : Text → Text → List (Text × Text) → List (Text × Text)
emplace key val [] = (key, val) ∷ []
emplace key val ((k, v) ∷ entries) =
    if equal key k
    then (k, v) ∷ entries
    else if less key k
    then (key, val) ∷ (k, v) ∷ entries
    else (k, v) ∷ emplace key val entries

-- The numbers that fit are added.
unfoldable pub add_numbers : List Text → List ℕ → List ℕ
add_numbers [] pts = pts
add_numbers (t ∷ texts) pts =
    add_numbers texts (elim (parse_uint8 t) [ none ↦ pts | some pt ↦ pts ++ pt ∷ [] ])

module _ (patterns : RidPatterns) where
  -- One segment; the flag is `in_pt_list`.
  unfoldable pub rid_segment : Bool → SdpRid → Text → Bool × SdpRid
  rid_segment in_pt_list rid token = elim (patterns.match_key_value token) [
    | none ↦ (
      in_pt_list,
      if in_pt_list
          then record rid { payload_types = add_numbers (token ∷ []) rid.payload_types }
          else rid,
    )
    | some (key, val) ↦
        if equal (trim key) (codes "pt")
        then (
          true,
          record rid {
            payload_types = add_numbers (patterns.digit_runs (trim val)) rid.payload_types;
          },
        )
        else (false, record rid { params = emplace (trim key) (trim val) rid.params })
  ]

  unfoldable pub rid_segments : Bool → SdpRid → List Text → SdpRid
  rid_segments in_pt_list rid [] = rid
  rid_segments in_pt_list rid (t ∷ tokens) =
      let (next, after) = rid_segment in_pt_list rid (trim t) in rid_segments next after tokens

  unfoldable pub parse_rid : Text → Option SdpRid
  parse_rid value = do
    (id, dir_str, params_str) ← patterns.match_head value
    let rid : SdpRid = record {
      id = id;
      direction = if equal dir_str (codes "send") then send else recv;
      payload_types = [];
      params = [];
    }
    some
        (if is_empty params_str then rid else rid_segments false rid (patterns.segments params_str))

-- Numbers with a comma between two of them.
unfoldable pub comma_numbers : List ℕ → Text
comma_numbers [] = []
comma_numbers (n ∷ []) = number_text n
comma_numbers (n ∷ m ∷ ns) = number_text n ++ 44 ∷ comma_numbers (m ∷ ns)

unfoldable pub key_values : List (Text × Text) → List Text
key_values [] = []
key_values ((k, v) ∷ entries) = (k ++ 61 ∷ v) ∷ key_values entries

unfoldable pub semicolons : List Text → Text
semicolons [] = []
semicolons (p ∷ []) = p
semicolons (p ∷ q ∷ parts) = p ++ 59 ∷ semicolons (q ∷ parts)

abbrev pt_part : List ℕ → List Text
pt_part [] = []
pt_part (n ∷ ns) = (codes "pt=" ++ comma_numbers (n ∷ ns)) ∷ []

abbrev behind_space : List Text → Text
behind_space [] = []
behind_space (p ∷ parts) = 32 ∷ semicolons (p ∷ parts)

unfoldable pub rid_text : SdpRid → Text
rid_text attr =
    codes "a=rid:"
    ++ (attr.id
        ++ (32 ∷ rid_direction_name attr.direction
            ++ behind_space (pt_part attr.payload_types ++ key_values attr.params)))
