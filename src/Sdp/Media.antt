-- ===== src/Sdp/Media.antt =====
-- src/sdp.cpp and src/sdp.hpp: a media section: its codecs, feedback messages and formats, the m line
-- and the attributes behind it. A function that fails gives `none`: the parser then gives up.
pub mod Valid
pub mod Attr
pub mod Print
pub mod Kept
pub mod Printed
pub mod Appended
use asio_rtc.Common.{
  ℕ, Bool, true, false, not, ◌&&◌, ◌||◌, ◌==◌, if◌then◌else◌, Option, none, some, ◌>>=◌, List, [],
  ◌∷◌, ◌++◌, length,
}
use asio_rtc.Sdp.{
  Text, SdpMedia, SdpMediaType, audio, video, application, text, message, SdpProto, rtp_avp,
  sendrecv, SdpRtpmap, SdpRtcpFb, Formats, monostate, numbers, names,
}
use asio_rtc.Sdp.Text.{is_empty, equal, split_first, words}
use asio_rtc.Sdp.Number.{parse_uint16}
use asio_rtc.Sdp.Names.{Nceq, parse_sdp_media_type, parse_sdp_proto}

-- The members' initial values, with a type, a port and a protocol.
abbrev pub new_media : SdpMediaType → ℕ → SdpProto → SdpMedia
new_media media_type port proto = record {
  media_type = media_type;
  port = port;
  proto = proto;
  mid = [];
  direction = sendrecv;
  extmaps = [];
  ssrcs = [];
  ssrc_groups = [];
  candidates = [];
  fingerprints = [];
  setup = none;
  ice_ufrag = [];
  ice_pwd = [];
  ice_options = [];
  rtcp_mux = false;
  rtcp_mux_only = false;
  rtcp_rsize = false;
  rtcp = none;
  msids = [];
  cryptos = [];
  sctp_port = none;
  max_message_size = none;
  simulcast = record { send_layers = []; recv_layers = [] };
  rids = [];
  end_of_candidates = false;
  extmap_allow_mixed = false;
  conn_nettype = [];
  conn_addrtype = [];
  conn_addr = [];
  attributes = [];
  formats = monostate;
  rtpmaps = [];
  rtcp_fbs = [];
}

unfoldable pub payload_types : Formats → List ℕ
payload_types monostate = []
payload_types (numbers pts) = pts
payload_types (names fmts) = []

unfoldable pub format_names : Formats → List Text
format_names monostate = []
format_names (numbers pts) = []
format_names (names fmts) = fmts

-- `add_format` of one format
unfoldable pub add_format : Text → Formats → Formats
add_format f fmts = names (format_names fmts ++ f ∷ [])

unfoldable pub add_formats : List Text → Formats → Formats
add_formats [] fmts = fmts
add_formats (f ∷ fs) fmts = add_formats fs (add_format f fmts)

unfoldable pub find_rtpmap : ℕ → List SdpRtpmap → Option SdpRtpmap
find_rtpmap pt [] = none
find_rtpmap pt (r ∷ rtpmaps) = if r.payload_type == pt then some r else find_rtpmap pt rtpmaps

-- A payload type that is there keeps its codec.
unfoldable pub add_rtpmap : SdpRtpmap → SdpMedia → SdpMedia
add_rtpmap r m = elim (find_rtpmap r.payload_type m.rtpmaps) [
  | some old ↦ m
  | none ↦ record m {
    rtpmaps = m.rtpmaps ++ r ∷ [];
    formats = numbers (payload_types m.formats ++ r.payload_type ∷ []);
  }
]

-- `set_params_string` of the codec that `find_rtpmap` finds
unfoldable pub set_params : ℕ → Text → List SdpRtpmap → List SdpRtpmap
set_params pt params [] = []
set_params pt params (r ∷ rtpmaps) =
    if r.payload_type == pt
    then record r { params = params } ∷ rtpmaps
    else r ∷ set_params pt params rtpmaps

-- `eq` of `add_feedback`
unfoldable pub same_fb : SdpRtcpFb → SdpRtcpFb → Bool
same_fb a b = equal a.kind b.kind && equal a.subtype b.subtype

abbrev pub covers_type : Option ℕ → ℕ → Bool
covers_type none pt = true
covers_type (some p) pt = p == pt

-- The search of `add_feedback`: is there the same feedback for the payload type, or for all?
unfoldable pub has_fb : ℕ → SdpRtcpFb → List SdpRtcpFb → Bool
has_fb pt fb [] = false
has_fb pt fb (f ∷ fbs) =
    if same_fb f fb && covers_type f.payload_type pt then true else has_fb pt fb fbs

-- `std::erase_if`
unfoldable pub erase_fb : SdpRtcpFb → List SdpRtcpFb → List SdpRtcpFb
erase_fb fb [] = []
erase_fb fb (f ∷ fbs) = if same_fb f fb then erase_fb fb fbs else f ∷ erase_fb fb fbs

unfoldable pub insert_fb : SdpRtcpFb → Option ℕ → List SdpRtcpFb → List SdpRtcpFb
insert_fb fb none fbs = erase_fb fb fbs ++ fb ∷ []
insert_fb fb (some pt) fbs = if has_fb pt fb fbs then fbs else fbs ++ fb ∷ []

unfoldable pub add_feedback : SdpRtcpFb → List SdpRtcpFb → List SdpRtcpFb
add_feedback fb fbs = if is_empty fb.kind then fbs else insert_fb fb fb.payload_type fbs

-- The port may have a count behind a slash; a bad number before the slash keeps the default of 9.
unfoldable pub parse_port : Text → Option ℕ
parse_port port_str = elim (split_first 47 port_str) [
  | none ↦ parse_uint16 port_str
  | some (number, count) ↦ elim (parse_uint16 number) [ none ↦ some 9 | some p ↦ some p ]
]

abbrev is_application : SdpMediaType → Bool
is_application application = true
is_application audio = false
is_application video = false
is_application text = false
is_application message = false

-- The formats are kept for an application only.
unfoldable pub keep_formats : List Text → SdpMedia → SdpMedia
keep_formats fmts m =
    if is_application m.media_type then record m { formats = add_formats fmts m.formats } else m

module _ (nceq : Nceq) where
  -- An unknown protocol keeps the default.
  unfoldable pub proto_or_default : Text → SdpProto
  proto_or_default s = elim (parse_sdp_proto nceq s) [ none ↦ rtp_avp | some p ↦ p ]

  unfoldable pub media_of : Text → Text → Text → List Text → Option SdpMedia
  media_of type_str port_str proto_str fmts = do
    media_type ← parse_sdp_media_type nceq type_str
    port ← parse_port port_str
    some (keep_formats fmts (new_media media_type port (proto_or_default proto_str)))

  unfoldable pub media_from_words : List Text → Option SdpMedia
  media_from_words (type_str ∷ port_str ∷ proto_str ∷ fmts) =
      media_of type_str port_str proto_str fmts
  media_from_words [] = none
  media_from_words (a ∷ []) = none
  media_from_words (a ∷ b ∷ []) = none

  unfoldable pub parse_media_line : Text → Option SdpMedia
  parse_media_line value = media_from_words (words (length value) value)
