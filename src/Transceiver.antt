-- ===== src/Transceiver.antt =====
-- src/rtp_transceiver.cpp and .hpp, src/rtp_stream.hpp, include/asiortc/rtp_parameters.hpp: what a
-- transceiver puts into an offer or an answer, and what it takes from the other side's. A pointer
-- to a track is the track's identifier, to a received track its codec. The pointers between the
-- objects, the coroutines and the callbacks are left out.
pub mod Match
pub mod Offered
pub mod Agree
pub mod Sources
use asio_rtc.Common.{
  ℕ, ◌+◌, ◌^◌, ◌%◌, u8, Bool, true, false, not, ◌&&◌, ◌||◌, ltb, ◌==◌, if◌then◌else◌, Option, none,
  some, List, [], ◌∷◌, ◌++◌, map, length,
}
use asio_rtc.Sdp.{
  Text, SdpMediaType, audio, video, SdpDirection, inactive, sendonly, recvonly, sendrecv,
  udp_tls_rtp_savpf, SdpExtmap, SdpRtcpFb, SdpMsid, SdpRtpmap, SdpSsrc, SdpRid, send, SdpMedia,
}
use asio_rtc.Sdp.Text.{codes, is_empty}
use asio_rtc.Sdp.Number.{number_text}
use asio_rtc.Sdp.Names.{Nceq}
use asio_rtc.Sdp.Params.{add_param}
use asio_rtc.Sdp.Media.{new_media, add_rtpmap, add_feedback}
use asio_rtc.Sdp.Codec.{is_match}
use asio_rtc.Sdp.Direction.{negotiate_direction}
use asio_rtc.Stats.{SsrcContext, ssrc_context, reset_stats}

pub record HistoryEntry : Type 0 where
  pub payload : List ℕ
  pub seq : ℕ
  pub timestamp : ℕ

pub record RtpStream : Type 0 where
  pub ssrc : ℕ
  pub rtx_ssrc : ℕ
  pub rtx_pt : ℕ
  pub seq : ℕ
  pub rtx_seq : ℕ
  pub rid : Text
  pub packet_count : ℕ
  pub octet_count : ℕ
  pub ntp_timestamp : ℕ
  pub rtp_timestamp : ℕ
  pub history : List (Option HistoryEntry)

-- `encodings` are the names (`rid`) of the sender's parameters.
pub record RtpSender : Type 0 where
  pub track : Option Text
  pub stopped : Bool
  pub encodings : List Text
  pub msids : List Text
  pub streams : List RtpStream

-- `ssrcs` are the contexts as the receiver made them; the counts of those in use stand in `SsrcSet`.
pub record RtpReceiver : Type 0 where
  pub track : Option SdpRtpmap
  pub stopped : Bool
  pub header_extensions : List SdpExtmap
  pub rtcp_ssrc : ℕ
  pub ssrcs : List SsrcContext

pub record RtpTransceiver : Type 0 where
  pub mid : Text
  pub direction : SdpDirection
  pub mline_index : Option ℕ
  pub sender : RtpSender
  pub receiver : RtpReceiver
  pub codec : SdpRtpmap
  pub stopped : Bool

-- `rtp_transceiver::stop`
unfoldable pub stop : RtpTransceiver → RtpTransceiver
stop t = if t.stopped then t else record t {
  stopped = true;
  sender = record t.sender { stopped = true };
  receiver = record t.receiver { stopped = true };
}

abbrev pub uri_mid : Text
uri_mid = codes "urn:ietf:params:rtp-hdrext:sdes:mid"

abbrev pub uri_rid : Text
uri_rid = codes "urn:ietf:params:rtp-hdrext:sdes:rtp-stream-id"

abbrev pub uri_abs_send_time : Text
uri_abs_send_time = codes "http://www.webrtc.org/experiments/rtp-hdrext/abs-send-time"

abbrev pub uri_transport_cc : Text
uri_transport_cc = codes "http://www.ietf.org/id/draft-holmer-rmcat-transport-wide-cc-extensions-01"

abbrev extmap_of : ℕ → Text → SdpExtmap
extmap_of id uri = record { id = id; direction = none; uri = uri; attributes = [] }

abbrev feedback_of : ℕ → Text → Text → SdpRtcpFb
feedback_of pt kind subtype = record { payload_type = some pt; kind = kind; subtype = subtype }

-- The codec for packets that are sent again.
unfoldable pub rtx_rtpmap : SdpRtpmap → SdpRtpmap
rtx_rtpmap codec = record {
  payload_type = u8 (codec.payload_type + 1);
  name = codes "rtx";
  clock_rate = codec.clock_rate;
  channels = none;
  params = add_param (codes "apt") (number_text codec.payload_type) [];
}

-- What an offer says of a video and of an audio codec.
unfoldable pub offer_video : SdpRtpmap → SdpMedia → SdpMedia
offer_video codec m =
    let m' = add_rtpmap (rtx_rtpmap codec) m in
    record m' {
      extmaps =
          extmap_of 1 uri_mid
          ∷ extmap_of 2 uri_rid
          ∷ extmap_of 3 uri_abs_send_time
          ∷ extmap_of 4 uri_transport_cc
          ∷ [];
      rtcp_fbs = add_feedback (feedback_of codec.payload_type (codes "goog-remb") []) (
          add_feedback (feedback_of codec.payload_type (codes "nack") (codes "pli"))
            (add_feedback (feedback_of codec.payload_type (codes "nack") []) m'.rtcp_fbs));
    }

unfoldable pub offer_audio : SdpMedia → SdpMedia
offer_audio m = record m { extmaps = extmap_of 1 uri_mid ∷ extmap_of 4 uri_transport_cc ∷ [] }

-- The identifiers of the track's streams, if there is a track.
unfoldable pub offer_msids : RtpSender → List SdpMsid
offer_msids sender = elim sender.track [
  | none ↦ []
  | some id ↦ map (λ (ms : Text). record { stream_id = ms; track_id = id }) sender.msids
]

unfoldable pub offer_rids : List Text → List SdpRid
offer_rids [] = []
offer_rids (rid ∷ encodings) =
    if is_empty rid
    then offer_rids encodings
    else record { id = rid; direction = send; payload_types = []; params = [] }
      ∷ offer_rids encodings

unfoldable pub is_sending : SdpDirection → Bool
is_sending inactive = false
is_sending sendonly = true
is_sending recvonly = false
is_sending sendrecv = true

unfoldable pub is_receiving : SdpDirection → Bool
is_receiving inactive = false
is_receiving sendonly = false
is_receiving recvonly = true
is_receiving sendrecv = true

-- `direction == sdp_direction::inactive`
unfoldable pub is_inactive : SdpDirection → Bool
is_inactive inactive = true
is_inactive sendonly = false
is_inactive recvonly = false
is_inactive sendrecv = false

-- The sources of an answer: the name and the streams of the first source.
unfoldable pub source_lines : ℕ → Text → List Text → List SdpSsrc
source_lines ssrc tid [] = []
source_lines ssrc tid (ms ∷ msids) =
    record { ssrc = ssrc; attribute = codes "msid"; value = ms ++ (32 ∷ tid) }
    ∷ source_lines ssrc tid msids

unfoldable pub answer_sources : RtpTransceiver → List SdpSsrc
answer_sources t = elim t.sender.streams [
  | [] ↦ []
  | s ∷ streams ↦
      record { ssrc = s.ssrc; attribute = codes "cname"; value = codes "asiortc" }
      ∷ source_lines s.ssrc (elim t.sender.track [ none ↦ t.mid | some id ↦ id ]) t.sender.msids
]

unfoldable pub set_base : Text → ℕ → SdpDirection → SdpMedia → SdpMedia
set_base mid port direction m = record m {
  mid = mid;
  port = port;
  direction = direction;
  conn_nettype = codes "IN";
  conn_addrtype = codes "IP4";
  conn_addr = codes "0.0.0.0";
}

module _ (nceq : Nceq) where
  -- `kind`, and the section's type for it
  unfoldable pub is_audio : RtpTransceiver → Bool
  is_audio t = nceq t.codec.name (codes "opus")

  unfoldable pub get_media_type : RtpTransceiver → SdpMediaType
  get_media_type t = if is_audio t then audio else video

  -- The part in front of the test of `stopped`.
  unfoldable pub offer_base : Text → RtpTransceiver → SdpMedia
  offer_base mid t =
      add_rtpmap t.codec
        (record (set_base mid 9 sendrecv (new_media (get_media_type t) 9 udp_tls_rtp_savpf)) {
          rtcp_mux = true;
        })

  unfoldable pub offer_codec : RtpTransceiver → SdpMedia → SdpMedia
  offer_codec t m = if is_audio t then offer_audio m else offer_video t.codec m

  unfoldable pub offer_sending : RtpTransceiver → SdpMedia → SdpMedia
  offer_sending t m =
      if is_sending t.direction then record m { rids = offer_rids t.sender.encodings } else m

  unfoldable pub to_offer_sdp_media : Text → RtpTransceiver → SdpMedia
  to_offer_sdp_media mid t =
      if t.stopped
      then record (offer_base mid t) { port = 0; direction = inactive }
      else offer_sending t (
          offer_codec t
            (record (offer_base mid t) { direction = t.direction; msids = offer_msids t.sender }))

  -- `std::ranges::find_if` of the codec that is of the same kind
  unfoldable pub match_offer_rtpmaps : SdpRtpmap → List SdpRtpmap → Option SdpRtpmap
  match_offer_rtpmaps codec [] = none
  match_offer_rtpmaps codec (c ∷ rtpmaps) =
      if is_match nceq codec c then some c else match_offer_rtpmaps codec rtpmaps

  -- The search in the descriptions of the other side has the arguments the other way round.
  unfoldable pub find_codec : SdpRtpmap → List SdpRtpmap → Option SdpRtpmap
  find_codec codec [] = none
  find_codec codec (c ∷ rtpmaps) =
      if is_match nceq c codec then some c else find_codec codec rtpmaps

  -- Without a match the remote side's first codec is answered.
  unfoldable pub answer_codec : SdpRtpmap → List SdpRtpmap → SdpMedia → SdpMedia
  answer_codec codec rtpmaps m = elim (match_offer_rtpmaps codec rtpmaps) [
    | some c ↦ add_rtpmap c m
    | none ↦ elim rtpmaps [ [] ↦ m | c ∷ rest ↦ add_rtpmap c m ]
  ]

  -- The part in front of the test of `_stopped` and of the direction.
  unfoldable pub answer_base : SdpMedia → SdpDirection → RtpTransceiver → SdpMedia
  answer_base remote direction t =
      answer_codec t.codec remote.rtpmaps
        (record (set_base t.mid 9 direction (new_media remote.media_type 9 remote.proto)) {
          rtcp_mux = remote.rtcp_mux;
          msids = remote.msids;
        })

  unfoldable pub to_answer_sdp_media : SdpMedia → RtpTransceiver → SdpMedia
  to_answer_sdp_media remote t =
      let direction = negotiate_direction t.direction remote.direction in
      if t.stopped || is_inactive direction
      then record (answer_base remote direction t) { port = 0; direction = inactive }
      else record (answer_base remote direction t) {
        ssrcs = answer_sources t;
        port = 9;
        extmaps = remote.extmaps;
        msids = remote.msids;
      }

  unfoldable pub from_remote_offer : SdpMedia → RtpTransceiver → RtpTransceiver
  from_remote_offer remote t =
      let direction = negotiate_direction t.direction remote.direction in
      if is_inactive direction
      then record t { direction = direction }
      else elim (find_codec t.codec remote.rtpmaps) [
        | none ↦ record t { direction = inactive }
        | some c ↦ record t {
          direction = direction;
          codec = record t.codec { payload_type = c.payload_type };
          receiver =
              if is_receiving direction
              then record t.receiver { track = some c; header_extensions = remote.extmaps }
              else t.receiver;
        }
      ]

  unfoldable pub from_remote_answer : SdpMedia → RtpTransceiver → RtpTransceiver
  from_remote_answer remote t =
      let direction = negotiate_direction t.direction remote.direction in
      if is_inactive direction
      then record t { direction = direction }
      else elim (find_codec t.codec remote.rtpmaps) [
        | none ↦ record t { direction = inactive }
        | some c ↦ record t {
          direction = direction;
          receiver =
              if is_receiving direction
              then record t.receiver {
                track = elim t.receiver.track [ none ↦ some t.codec | some old ↦ some old ];
              }
              else t.receiver;
        }
      ]

-- The sources of the connection by rising number, each with the index of its receiver's transceiver.
abbrev pub SsrcSet : Type 0
SsrcSet = List (ℕ × SsrcContext)

unfoldable pub find_ssrc : ℕ → SsrcSet → Option (ℕ × SsrcContext)
find_ssrc ssrc [] = none
find_ssrc ssrc ((owner, c) ∷ set) = if c.ssrc == ssrc then some (owner, c) else find_ssrc ssrc set

unfoldable pub insert_ssrc : ℕ → SsrcContext → SsrcSet → SsrcSet
insert_ssrc owner c [] = (owner, c) ∷ []
insert_ssrc owner c ((o, x) ∷ set) =
    if ltb x.ssrc c.ssrc then (o, x) ∷ insert_ssrc owner c set else (owner, c) ∷ (o, x) ∷ set

unfoldable pub find_context : ℕ → List SsrcContext → Option SsrcContext
find_context ssrc [] = none
find_context ssrc (c ∷ ssrcs) = if c.ssrc == ssrc then some c else find_context ssrc ssrcs

-- `create_ssrc_context` of the receiver of transceiver `owner`: a context that the receiver has, and
-- that is not in the set, is put there with its counts reset.
unfoldable pub create_ssrc_context : ℕ → ℕ → RtpReceiver × SsrcSet → RtpReceiver × SsrcSet
create_ssrc_context owner ssrc (r, set) = elim (find_ssrc ssrc set) [
  | some found ↦ (r, set)
  | none ↦ elim (find_context ssrc r.ssrcs) [
    | some ctx ↦ (r, insert_ssrc owner (reset_stats ctx) set)
    | none ↦ (
      record r { ssrcs = r.ssrcs ++ ssrc_context ssrc ∷ [] },
      insert_ssrc owner (ssrc_context ssrc) set,
    )
  ]
]
