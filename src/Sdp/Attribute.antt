-- ===== src/Sdp/Attribute.antt =====
-- src/sdp.cpp: the values of attributes, parsed. The regular expressions are those of a library that
-- is not in the repository: a match is an argument, which gives the text of its groups.
pub mod RoundTrip
pub mod Lists
use asio_rtc.Common.{
  ℕ, Bool, true, false, ◌==◌, if◌then◌else◌, Option, none, some, ◌>>=◌, List, [], ◌∷◌, length,
}
use asio_rtc.Sdp.{
  Text, SdpRtpmap, SdpExtmap, SdpRtcpFb, SdpSsrc, SdpSsrcGroup, SdpFingerprint, SdpBandwidth,
  SdpCrypto, SdpRtcp, SdpMsid, SdpMsidSemantic, SdpGroup, SdpMedia, SdpDirection,
}
use asio_rtc.Sdp.Text.{is_empty, equal, split_first, trim, split_whitespace, codes}
use asio_rtc.Sdp.Number.{parse_uint8, parse_uint16, parse_uint32}
use asio_rtc.Sdp.Names.{Nceq, parse_sdp_direction, parse_bandwidth_type}

-- The clock rate with the channels behind a second slash.
unfoldable pub parse_clock : Text → Option (ℕ × Option ℕ)
parse_clock after_name = elim (split_first 47 after_name) [
  | none ↦ do rate ← parse_uint32 after_name; some (rate, none)
  | some (rate_text, channel_text) ↦ do
    rate ← parse_uint32 rate_text
    channels ← parse_uint8 (trim channel_text)
    some (rate, some channels)
]

unfoldable pub parse_rtpmap : Text → Option SdpRtpmap
parse_rtpmap value = do
  (number, behind) ← split_first 32 value
  pt ← parse_uint8 number
  (name, after_name) ← split_first 47 (trim behind)
  (rate, channels) ← parse_clock after_name
  some (record {
    payload_type = pt;
    name = name;
    clock_rate = rate;
    channels = channels;
    params = [];
  })

-- Behind the first space: the type, and a subtype behind a second one.
unfoldable pub fb_kind : Option ℕ → Text → SdpRtcpFb
fb_kind pt rest = elim (split_first 32 rest) [
  | none ↦ record { payload_type = pt; kind = rest; subtype = [] }
  | some (kind, subtype) ↦ record { payload_type = pt; kind = kind; subtype = trim subtype }
]

-- `*` stands for all payload types.
unfoldable pub parse_fb_target : Text → Option (Option ℕ)
parse_fb_target pt_str =
    if equal pt_str (codes "*") then some none else (do pt ← parse_uint8 pt_str; some (some pt))

unfoldable pub parse_rtcpfb : Text → Option SdpRtcpFb
parse_rtcpfb value = do
  (pt_str, behind) ← split_first 32 value
  target ← parse_fb_target pt_str
  some (fb_kind target (trim behind))

-- The attribute's name, and a value behind a colon.
unfoldable pub ssrc_attribute : ℕ → Text → SdpSsrc
ssrc_attribute ssrc rest = elim (split_first 58 rest) [
  | none ↦ record { ssrc = ssrc; attribute = rest; value = [] }
  | some (attribute, v) ↦ record { ssrc = ssrc; attribute = attribute; value = v }
]

unfoldable pub parse_ssrc : Text → Option SdpSsrc
parse_ssrc value = do
  (number, rest) ← split_first 32 value
  ssrc ← parse_uint32 number
  some (ssrc_attribute ssrc rest)

-- The loop over the numbers of a group.
unfoldable pub parse_ssrcs : List Text → Option (List ℕ)
parse_ssrcs [] = some []
parse_ssrcs (p ∷ parts) = do ssrc ← parse_uint32 p; ssrcs ← parse_ssrcs parts; some (ssrc ∷ ssrcs)

unfoldable pub parse_ssrc_group : Text → Option SdpSsrcGroup
parse_ssrc_group value = do
  (semantics, rest) ← split_first 32 value
  ssrcs ← parse_ssrcs (split_whitespace rest)
  some (record { semantics = semantics; ssrcs = ssrcs })

unfoldable pub parse_fingerprint : Text → Option SdpFingerprint
parse_fingerprint value = do
  (algorithm, rest) ← split_first 32 value
  some (record { algorithm = algorithm; value = trim rest })

unfoldable pub parse_msid : Text → Option SdpMsid
parse_msid value = elim (split_first 32 value) [
  | none ↦ some (record { stream_id = value; track_id = [] })
  | some (stream, track) ↦ some (record { stream_id = stream; track_id = trim track })
]

-- `std::none_of` over the messages behind the first.
unfoldable pub same_track : Text → List SdpMsid → Bool
same_track id [] = true
same_track id (m ∷ msids) = if equal m.track_id id then same_track id msids else false

unfoldable pub check_msids : List SdpMsid → Bool
check_msids [] = true
check_msids (m ∷ msids) = same_track m.track_id msids

abbrev pub check_msid : SdpMedia → Bool
check_msid m = check_msids m.msids

-- The code takes the front of the parts; that of no parts, which C++ leaves open, is a failure here.
unfoldable pub semantic_of : List Text → Option SdpMsidSemantic
semantic_of [] = none
semantic_of (semantic ∷ ids) = some (record { semantic = semantic; stream_ids = ids })

unfoldable pub parse_msid_semantic : Text → Option SdpMsidSemantic
parse_msid_semantic value = semantic_of (split_whitespace value)

unfoldable pub parse_group : Text → Option SdpGroup
parse_group value = do
  (semantic, rest) ← split_first 32 value
  some (record { semantic = semantic; items = split_whitespace (trim rest) })

-- `if (uri.empty()) return {};`
abbrev pub non_empty : Text → Option Text
non_empty [] = none
non_empty (c ∷ s) = some (c ∷ s)

module _ (nceq : Nceq) where
  -- The number, with a direction behind a slash; a bad number without a slash leaves 0.
  unfoldable pub parse_extmap_id : Text → Option (ℕ × Option SdpDirection)
  parse_extmap_id id_sv = elim (split_first 47 id_sv) [
    | none ↦ elim (parse_uint16 id_sv) [ none ↦ some (0, none) | some id ↦ some (id, none) ]
    | some (number, direction) ↦ do
      id ← parse_uint16 number
      d ← parse_sdp_direction nceq direction
      some (id, some d)
  ]

  -- `!uri.empty()` was tested; the attributes stand behind a space.
  unfoldable pub extmap_uri : ℕ → Option SdpDirection → Text → SdpExtmap
  extmap_uri id direction uri = elim (split_first 32 uri) [
    | none ↦ record { id = id; direction = direction; uri = uri; attributes = [] }
    | some (plain, ext) ↦ record {
      id = id;
      direction = direction;
      uri = plain;
      attributes = trim ext;
    }
  ]

  unfoldable pub parse_extmap : Text → Option SdpExtmap
  parse_extmap value = do
    (id_sv, uri) ← split_first 32 value
    uri' ← non_empty uri
    (id, direction) ← parse_extmap_id id_sv
    some (extmap_uri id direction uri')

  unfoldable pub parse_bandwidth : Text → Option SdpBandwidth
  parse_bandwidth value = do
    (type_str, bw_str) ← split_first 58 value
    kind ← parse_bandwidth_type nceq type_str
    bandwidth ← parse_uint32 bw_str
    some (record { kind = kind; bandwidth = bandwidth })

-- `^(\d+)\s+(\S+)\s+(\S+)(?:\s+(.*))?$` of `parse_crypto`, `^(\d+)(?:\s+(\S+)\s+(\S+)\s+(\S+))?$` of
-- `parse_rtcp`; a group without a match is empty.
pub record Patterns : Type 0 where
  pub match_crypto : Text → Option (Text × Text × Text × Text)
  pub match_rtcp : Text → Option (Text × Option (Text × Text × Text))

module _ (patterns : Patterns) where
  unfoldable pub parse_crypto : Text → Option SdpCrypto
  parse_crypto value = do
    (tag_text, suite, key, session) ← patterns.match_crypto value
    tag ← parse_uint32 tag_text
    some (record { tag = tag; suite = suite; key_params = key; session_params = session })

  abbrev rtcp_address : ℕ → Option (Text × Text × Text) → SdpRtcp
  rtcp_address port none = record { nettype = []; addrtype = []; addr = []; port = port }
  rtcp_address port (some (net, kind, addr)) = record {
    nettype = net;
    addrtype = kind;
    addr = addr;
    port = port;
  }

  unfoldable pub parse_rtcp : Text → Option SdpRtcp
  parse_rtcp value = do
    (port_text, address) ← patterns.match_rtcp value
    port ← parse_uint16 port_text
    some (rtcp_address port address)
