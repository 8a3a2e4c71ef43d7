-- ===== src/Sdp/Session.antt =====
-- src/sdp.cpp: the parser of a session description, line by line.
pub mod Print
pub mod Lines
pub mod Induction
pub mod Refused
pub mod Valid
use asio_rtc.Common.{
  ℕ, Bool, true, false, ◌==◌, if◌then◌else◌, Option, none, some, ◌>>=◌, List, [], ◌∷◌, ◌++◌, length,
}
use asio_rtc.Sdp.{Text, SdpOrigin, SdpMedia, SessionDescription}
use asio_rtc.Sdp.Text.{
  is_empty, equal, trim, parse_line_type_value, split_lines, split_attr, split_whitespace, words,
  codes,
}
use asio_rtc.Sdp.Number.{parse_uint8}
use asio_rtc.Sdp.Names.{Nceq, parse_sdp_direction, parse_setup_role}
use asio_rtc.Sdp.Attribute.{
  check_msid, parse_fingerprint, parse_msid_semantic, parse_group, parse_bandwidth, Patterns,
}
use asio_rtc.Sdp.Simulcast.{RidPatterns}
use asio_rtc.Sdp.Media.{parse_media_line}
use asio_rtc.Sdp.Media.Attr.{candidate_of, apply_media_attr}

abbrev pub default_origin : SdpOrigin
default_origin = record {
  username = codes "-";
  session_id = codes "0";
  session_version = codes "0";
  nettype = codes "IN";
  addrtype = codes "IP4";
  addr = codes "0.0.0.0";
}

-- The members' initial values.
abbrev pub new_session : Text → SessionDescription
new_session sdp_type = record {
  sdp_type = sdp_type;
  version = 0;
  origin = default_origin;
  session_name = codes "-";
  uri = [];
  email = [];
  phone_number = [];
  conn_nettype = [];
  conn_addrtype = [];
  conn_addr = [];
  direction = none;
  bandwidths = [];
  attributes = [];
  groups = [];
  ice_ufrag = [];
  ice_pwd = [];
  ice_options = [];
  ice_lite = false;
  fingerprints = [];
  setup = none;
  extmap_allow_mixed = false;
  msid_semantic = record { semantic = []; stream_ids = [] };
  candidates = [];
  medias = [];
}

-- Fewer than six words leave the default.
unfoldable pub origin_of : List Text → SdpOrigin
origin_of [] = default_origin
origin_of (a ∷ []) = default_origin
origin_of (a ∷ b ∷ []) = default_origin
origin_of (a ∷ b ∷ c ∷ []) = default_origin
origin_of (a ∷ b ∷ c ∷ d ∷ []) = default_origin
origin_of (a ∷ b ∷ c ∷ d ∷ e ∷ []) = default_origin
origin_of (a ∷ b ∷ c ∷ d ∷ e ∷ f ∷ rest) = record {
  username = a;
  session_id = b;
  session_version = c;
  nettype = d;
  addrtype = e;
  addr = f;
}

unfoldable pub parse_origin : Text → SdpOrigin
parse_origin s = origin_of (words (length s) s)

-- A version that is no number is passed over.
unfoldable pub set_version : SessionDescription → Text → SessionDescription
set_version s val = elim (parse_uint8 val) [ none ↦ s | some v ↦ record s { version = v } ]

-- `session.medias.back()`, changed by a function that may fail.
unfoldable pub change_last : (SdpMedia → Option SdpMedia) → List SdpMedia → Option (List SdpMedia)
change_last f [] = none
change_last f (m ∷ []) = do m' ← f m; some (m' ∷ [])
change_last f (m ∷ n ∷ ms) = do ms' ← change_last f (n ∷ ms); some (m ∷ ms')

-- The check of the last media section in front of the next one.
unfoldable pub last_checked : List SdpMedia → Bool
last_checked [] = true
last_checked (m ∷ []) = check_msid m
last_checked (m ∷ n ∷ ms) = last_checked (n ∷ ms)

-- The variables of the loop.
pub record Parsing : Type 0 where
  pub session : SessionDescription
  pub in_media : Bool

module _ (nceq : Nceq) (patterns : Patterns) (rid_patterns : RidPatterns) where
  unfoldable pub apply_other_session_attr :
      SessionDescription → Text → Text → Option SessionDescription
  apply_other_session_attr s name value = elim (parse_sdp_direction nceq name) [
    | some d ↦ some (record s { direction = some d })
    | none ↦ some (record s { attributes = s.attributes ++ (name, value) ∷ [] })
  ]

  unfoldable pub apply_session_attr : SessionDescription → Text → Text → Option SessionDescription
  apply_session_attr s name value =
      if equal name (codes "group")
      then (do g ← parse_group value; some (record s { groups = s.groups ++ g ∷ [] }))
      else if equal name (codes "ice-ufrag")
      then some (record s { ice_ufrag = trim value })
      else if equal name (codes "ice-pwd")
      then some (record s { ice_pwd = trim value })
      else if equal name (codes "ice-options")
      then some (record s { ice_options = s.ice_options ++ split_whitespace value })
      else if equal name (codes "ice-lite")
      then some (record s { ice_lite = true })
      else if equal name (codes "candidate")
      then some (record s { candidates = s.candidates ++ candidate_of value ∷ [] })
      else if equal name (codes "fingerprint")
      then (do
        f ← parse_fingerprint value
        some (record s { fingerprints = s.fingerprints ++ f ∷ [] }))
      else if equal name (codes "setup")
      then (do role ← parse_setup_role nceq value; some (record s { setup = some role }))
      else if equal name (codes "extmap-allow-mixed")
      then some (record s { extmap_allow_mixed = true })
      else if equal name (codes "msid-semantic")
      then (do ms ← parse_msid_semantic value; some (record s { msid_semantic = ms }))
      else apply_other_session_attr s name value

  -- `case 'a'` of a media section
  unfoldable pub media_attr_line : SessionDescription → Text → Option SessionDescription
  media_attr_line s val = do
    let (name, value) = split_attr val
    medias ← change_last (λ m. apply_media_attr nceq patterns rid_patterns m name value) s.medias
    some (record s { medias = medias })

  -- The lines `c`, `b` and `k` of a media section, and unknown ones, are passed over.
  unfoldable pub media_step : SessionDescription → ℕ → Text → Option SessionDescription
  media_step s type val = if type == 97 then media_attr_line s val else some s

  -- The lines `i`, `c`, `t`, `r`, `z` and `k`, and unknown ones, are passed over.
  unfoldable pub session_step : SessionDescription → ℕ → Text → Option SessionDescription
  session_step s type val =
      if type == 118
      then some (set_version s val)
      else if type == 111
      then some (record s { origin = parse_origin val })
      else if type == 115
      then some (record s { session_name = val })
      else if type == 117
      then some (record s { uri = val })
      else if type == 101
      then some (record s { email = val })
      else if type == 112
      then some (record s { phone_number = val })
      else if type == 98
      then (do
        b ← parse_bandwidth nceq val
        some (record s { bandwidths = s.bandwidths ++ b ∷ [] }))
      else if type == 97
      then (let (name, value) = split_attr val in apply_session_attr s name value)
      else some s

  -- `if (type == 'm')`
  unfoldable pub open_media : SessionDescription → Text → Option SessionDescription
  open_media s val =
      if last_checked s.medias
      then (do m ← parse_media_line nceq val; some (record s { medias = s.medias ++ m ∷ [] }))
      else none

  unfoldable pub parse_step : Parsing → ℕ → Text → Option Parsing
  parse_step p type val =
      if type == 109
      then (do s ← open_media p.session val; some (record { session = s; in_media = true }))
      else if p.in_media
      then (do s ← media_step p.session type val; some (record p { session = s }))
      else (do s ← session_step p.session type val; some (record p { session = s }))

  -- A round of the loop on a trimmed line.
  unfoldable pub parse_line : Parsing → Text → Option Parsing
  parse_line p [] = some p
  parse_line p (c ∷ s) = do (type, val) ← parse_line_type_value (c ∷ s); parse_step p type val

  unfoldable pub parse_lines : Parsing → List Text → Option Parsing
  parse_lines p [] = some p
  parse_lines p (l ∷ lines) = do next ← parse_line p (trim l); parse_lines next lines

  unfoldable pub from_lines : List Text → Text → Option SessionDescription
  from_lines [] type = none
  from_lines (l ∷ lines) type = do
    done ← parse_lines (record { session = new_session type; in_media = false }) (l ∷ lines)
    some done.session

  unfoldable pub do_parse : Text → Text → Option SessionDescription
  do_parse sdp type = from_lines (split_lines sdp) type
