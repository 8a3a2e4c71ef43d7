-- ===== src/Sdp/Names.antt =====
-- src/sdp.cpp: the names of the enumerations, and what they are read from. `asioice::utils::nceq`,
-- which compares two texts without regard to case, stands in a submodule and is an argument.
pub mod RoundTrip
use asio_rtc.Common.{ℕ, ◌+◌, Bool, ◌&&◌, leb, if◌then◌else◌, Option, none, some, List, map, ◌≡◌}
use asio_rtc.Sdp.{
  Text, SdpMediaType, audio, video, application, text, message, SdpProto, udp, rtp_avp, rtp_savp,
  rtp_savpf, udp_tls_rtp_savpf, dtls_sctp, udp_dtls_sctp, tcp_dtls_sctp, SdpSetupRole, active,
  passive, actpass, holdconn, SdpRidDirection, send, recv, SdpDirection, inactive, sendonly,
  recvonly, sendrecv, SdpBandwidthType, ct, as_specific, tias, rs, rr,
}
use asio_rtc.Sdp.Text.{codes, equal}

abbrev pub Nceq : Type 0
Nceq = Text → Text → Bool

abbrev pub to_lower : ℕ → ℕ
to_lower c = if leb 65 c && leb c 90 then c + 32 else c

-- Two texts are equal if they are the same in lower case.
pub record IsCaseless (nceq : Nceq) : Type 0 where
  pub nceq_lem : (s t : Text) → nceq s t ≡ equal (map to_lower s) (map to_lower t)

unfoldable pub media_type_name : SdpMediaType → Text
media_type_name audio = codes "audio"
media_type_name video = codes "video"
media_type_name application = codes "application"
media_type_name text = codes "text"
media_type_name message = codes "message"

unfoldable pub proto_name : SdpProto → Text
proto_name udp = codes "UDP"
proto_name rtp_avp = codes "RTP/AVP"
proto_name rtp_savp = codes "RTP/SAVP"
proto_name rtp_savpf = codes "RTP/SAVPF"
proto_name udp_tls_rtp_savpf = codes "UDP/TLS/RTP/SAVPF"
proto_name dtls_sctp = codes "DTLS/SCTP"
proto_name udp_dtls_sctp = codes "UDP/DTLS/SCTP"
proto_name tcp_dtls_sctp = codes "TCP/DTLS/SCTP"

unfoldable pub direction_name : SdpDirection → Text
direction_name inactive = codes "inactive"
direction_name sendonly = codes "sendonly"
direction_name recvonly = codes "recvonly"
direction_name sendrecv = codes "sendrecv"

unfoldable pub setup_role_name : SdpSetupRole → Text
setup_role_name active = codes "active"
setup_role_name passive = codes "passive"
setup_role_name actpass = codes "actpass"
setup_role_name holdconn = codes "holdconn"

unfoldable pub rid_direction_name : SdpRidDirection → Text
rid_direction_name send = codes "send"
rid_direction_name recv = codes "recv"

unfoldable pub bandwidth_type_name : SdpBandwidthType → Text
bandwidth_type_name ct = codes "CT"
bandwidth_type_name as_specific = codes "AS"
bandwidth_type_name tias = codes "TIAS"
bandwidth_type_name rs = codes "RS"
bandwidth_type_name rr = codes "RR"

module _ (nceq : Nceq) where
  unfoldable pub parse_sdp_media_type : Text → Option SdpMediaType
  parse_sdp_media_type s =
      if nceq s (codes "audio")
      then some audio
      else if nceq s (codes "video")
      then some video
      else if nceq s (codes "application")
      then some application
      else if nceq s (codes "text")
      then some text
      else if nceq s (codes "message")
      then some message
      else none

  unfoldable pub parse_sdp_proto : Text → Option SdpProto
  parse_sdp_proto s =
      if nceq s (codes "UDP")
      then some udp
      else if nceq s (codes "RTP/AVP")
      then some rtp_avp
      else if nceq s (codes "RTP/SAVP")
      then some rtp_savp
      else if nceq s (codes "RTP/SAVPF")
      then some rtp_savpf
      else if nceq s (codes "UDP/TLS/RTP/SAVPF")
      then some udp_tls_rtp_savpf
      else if nceq s (codes "DTLS/SCTP")
      then some dtls_sctp
      else if nceq s (codes "UDP/DTLS/SCTP")
      then some udp_dtls_sctp
      else if nceq s (codes "TCP/DTLS/SCTP")
      then some tcp_dtls_sctp
      else none

  unfoldable pub parse_sdp_direction : Text → Option SdpDirection
  parse_sdp_direction s =
      if nceq s (codes "inactive")
      then some inactive
      else if nceq s (codes "sendonly")
      then some sendonly
      else if nceq s (codes "recvonly")
      then some recvonly
      else if nceq s (codes "sendrecv")
      then some sendrecv
      else none

  unfoldable pub parse_setup_role : Text → Option SdpSetupRole
  parse_setup_role s =
      if nceq s (codes "active")
      then some active
      else if nceq s (codes "passive")
      then some passive
      else if nceq s (codes "actpass")
      then some actpass
      else if nceq s (codes "holdconn")
      then some holdconn
      else none

  unfoldable pub parse_bandwidth_type : Text → Option SdpBandwidthType
  parse_bandwidth_type s =
      if nceq s (codes "CT")
      then some ct
      else if nceq s (codes "AS")
      then some as_specific
      else if nceq s (codes "TIAS")
      then some tias
      else if nceq s (codes "RS")
      then some rs
      else if nceq s (codes "RR")
      then some rr
      else none

  unfoldable pub parse_sdp_rid_direction : Text → Option SdpRidDirection
  parse_sdp_rid_direction s =
      if nceq s (codes "send") then some send else if nceq s (codes "recv") then some recv else none
