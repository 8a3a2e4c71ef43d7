-- ===== src/Tests/Connection.antt =====
-- src/rtp_transceiver.cpp and src/connection_impl.cpp at concrete inputs.
use asio_rtc.Common.{
  ℕ, ◌≤◌, ◌≡◌, refl, ◌⊎◌, true, false, none, some, IfSome, List, [], ◌∷◌, length, replicate, arith,
}
use asio_rtc.Tests.Text.{caseless, caseless-IsCaseless}
use asio_rtc.Sdp.{SdpDirection, inactive, recvonly, sendrecv, SdpRtpmap}
use asio_rtc.Sdp.Text.{codes, equal}
use asio_rtc.Sdp.Codec.{is_match}
use asio_rtc.Sdp.Direction.{reverse_direction}
use asio_rtc.Sdp.Session.{new_session}
use asio_rtc.Stats.{ssrc_context}
use asio_rtc.Vpx.{vpx_pack}
use asio_rtc.Transceiver.{
  RtpStream, RtpTransceiver, to_offer_sdp_media, to_answer_sdp_media, from_remote_offer,
  from_remote_answer, find_ssrc, create_ssrc_context, SsrcSet,
}
use asio_rtc.Transceiver.Agree.{negotiation_agrees}
use asio_rtc.Transceiver.Sources.{find_ssrc-create_ssrc_context}
use asio_rtc.Connection.Send.{mid_element, update_send_stats}
use asio_rtc.Connection.Route.{Router}
use asio_rtc.Connection.Stripped.{depayload_all, depayload_all-vpx_pack}
use asio_rtc.Connection.Signalling.{Connection, stable}
use asio_rtc.Connection.States.{IsConsistent}
use asio_rtc.Connection.Accepted.{Call, local, remote, calls, calls-IsConsistent, calls_few}

abbrev h264_codec : ℕ → SdpRtpmap
h264_codec pt = record {
  payload_type = pt;
  name = codes "H264";
  clock_rate = 90000;
  channels = none;
  params = [];
}

abbrev video_line : ℕ → SdpDirection → RtpTransceiver
video_line pt direction = record {
  mid = [];
  direction = direction;
  mline_index = none;
  sender = record { track = none; stopped = false; encodings = []; msids = []; streams = [] };
  receiver = record {
    track = none;
    stopped = false;
    header_extensions = [];
    rtcp_ssrc = 0;
    ssrcs = [];
  };
  codec = h264_codec pt;
  stopped = false;
}

negotiation_agrees_example :
    let m = to_offer_sdp_media caseless (codes "0") (video_line 102 sendrecv) in
    let b = from_remote_offer caseless m (video_line 96 recvonly) in
    let a =
      from_remote_answer caseless (to_answer_sdp_media caseless m b) (video_line 102 sendrecv) in
    ((a.direction ≡ inactive) × (b.direction ≡ inactive))
    ⊎ ((a.direction ≡ reverse_direction b.direction)
        × (b.codec.payload_type ≡ a.codec.payload_type)
        × (is_match caseless a.codec b.codec ≡ true))
unfolding equal
negotiation_agrees_example =
    negotiation_agrees caseless caseless-IsCaseless (codes "0") (video_line 102 sendrecv)
      (video_line 96 recvonly) refl refl refl

abbrev two_sources : SsrcSet
two_sources = (0, ssrc_context 5) ∷ (1, ssrc_context 9) ∷ []

find_ssrc-create_ssrc_context_run :
    (find_ssrc 7 (create_ssrc_context 1 7 ((video_line 96 recvonly).receiver, two_sources)).1
      ≡ some (1, ssrc_context 7))
    × (find_ssrc 9 (create_ssrc_context 1 7 ((video_line 96 recvonly).receiver, two_sources)).1
        ≡ some (1, ssrc_context 9))
unfolding find_ssrc ssrc_context
find_ssrc-create_ssrc_context_run =
    find_ssrc-create_ssrc_context 1 7 (video_line 96 recvonly).receiver two_sources 9 refl

depayload_all-vpx_pack_example :
    depayload_all caseless (codes "vp8") (vpx_pack 300 (1 ∷ 2 ∷ 3 ∷ []) 0).0.0 ≡ 1 ∷ 2 ∷ 3 ∷ []
unfolding equal
depayload_all-vpx_pack_example =
    depayload_all-vpx_pack caseless (codes "vp8") refl 300 (1 ∷ 2 ∷ 3 ∷ []) 0 (omega arith)

abbrev a_stream : RtpStream
a_stream = record {
  ssrc = 11;
  rtx_ssrc = 12;
  rtx_pt = 97;
  seq = 65535;
  rtx_seq = 3;
  rid = [];
  packet_count = 0;
  octet_count = 0;
  ntp_timestamp = 0;
  rtp_timestamp = 0;
  history = replicate 128 none;
}

abbrev a_router : Router
a_router = record {
  transceivers = [];
  ssrc_set = [];
  mid_ext_id = none;
  rtx_pt_to_pt = (97, 96) ∷ [];
  rtx_ssrc_to_ssrc = (12, 11) ∷ [];
}

abbrev new_connection : Connection
new_connection = record {
  signaling_state = stable;
  local_desc = none;
  remote_desc = none;
  ice_controlling = false;
  router = a_router;
}

abbrev offer_then_answer : List Call
offer_then_answer = local (new_session (codes "offer")) ∷ remote (new_session (codes "answer")) ∷ []

calls-IsConsistent_example : IfSome IsConsistent (calls caseless offer_then_answer new_connection)
calls-IsConsistent_example =
    calls-IsConsistent caseless offer_then_answer new_connection
      (record { described = (refl, refl) })

calls_few_example :
    IfSome
      (λ (c : Connection). length {A = Call} offer_then_answer ≤ 2)
      (calls caseless offer_then_answer new_connection)
calls_few_example = calls_few caseless offer_then_answer new_connection

-- Only the first character of an identifier is sent.
mid_truncated : mid_element 4 (codes "12") ≡ mid_element 4 (codes "1")
unfolding mid_element
mid_truncated = refl

-- The product wraps around: 1.7 billion seconds.
ntp_wrapped :
    (update_send_stats 0 1700000000000000 [] 0 0 0 (
      record { transport_wide_seq = 1; tx_packets = 0; tx_bytes = 0; twcc_sent = [] },
      a_stream,
    )).1.ntp_timestamp
    ≡ 730735557742
unfolding update_send_stats
ntp_wrapped = refl
