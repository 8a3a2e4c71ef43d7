-- ===== src/Sdp/Names/RoundTrip.antt =====
-- Every name is read back as its value.
use asio_rtc.Common.{◌≡◌, some}
use asio_rtc.Sdp.{
  SdpMediaType, audio, video, application, text, message, SdpProto, udp, rtp_avp, rtp_savp,
  rtp_savpf, udp_tls_rtp_savpf, dtls_sctp, udp_dtls_sctp, tcp_dtls_sctp, SdpSetupRole, active,
  passive, actpass, holdconn, SdpDirection, inactive, sendonly, recvonly, sendrecv,
  SdpBandwidthType, ct, as_specific, tias, rs, rr,
}
use asio_rtc.Sdp.Text.{equal}
use asio_rtc.Sdp.Names.{
  Nceq, IsCaseless, media_type_name, proto_name, direction_name, setup_role_name,
  bandwidth_type_name, parse_sdp_media_type, parse_sdp_proto, parse_sdp_direction, parse_setup_role,
  parse_bandwidth_type,
}

module _ {nceq : Nceq} (ci : IsCaseless nceq) where
  pub parse_sdp_direction-direction_name :
      (d : SdpDirection) → parse_sdp_direction nceq (direction_name d) ≡ some d
  unfolding parse_sdp_direction direction_name equal
  parse_sdp_direction-direction_name inactive = simp ci.nceq_lem
  parse_sdp_direction-direction_name sendonly = simp ci.nceq_lem
  parse_sdp_direction-direction_name recvonly = simp ci.nceq_lem
  parse_sdp_direction-direction_name sendrecv = simp ci.nceq_lem

  pub parse_sdp_media_type-media_type_name :
      (t : SdpMediaType) → parse_sdp_media_type nceq (media_type_name t) ≡ some t
  unfolding parse_sdp_media_type media_type_name equal
  parse_sdp_media_type-media_type_name audio = simp ci.nceq_lem
  parse_sdp_media_type-media_type_name video = simp ci.nceq_lem
  parse_sdp_media_type-media_type_name application = simp ci.nceq_lem
  parse_sdp_media_type-media_type_name text = simp ci.nceq_lem
  parse_sdp_media_type-media_type_name message = simp ci.nceq_lem

  pub parse_setup_role-setup_role_name :
      (r : SdpSetupRole) → parse_setup_role nceq (setup_role_name r) ≡ some r
  unfolding parse_setup_role setup_role_name equal
  parse_setup_role-setup_role_name active = simp ci.nceq_lem
  parse_setup_role-setup_role_name passive = simp ci.nceq_lem
  parse_setup_role-setup_role_name actpass = simp ci.nceq_lem
  parse_setup_role-setup_role_name holdconn = simp ci.nceq_lem

  pub parse_bandwidth_type-bandwidth_type_name :
      (b : SdpBandwidthType) → parse_bandwidth_type nceq (bandwidth_type_name b) ≡ some b
  unfolding parse_bandwidth_type bandwidth_type_name equal
  parse_bandwidth_type-bandwidth_type_name ct = simp ci.nceq_lem
  parse_bandwidth_type-bandwidth_type_name as_specific = simp ci.nceq_lem
  parse_bandwidth_type-bandwidth_type_name tias = simp ci.nceq_lem
  parse_bandwidth_type-bandwidth_type_name rs = simp ci.nceq_lem
  parse_bandwidth_type-bandwidth_type_name rr = simp ci.nceq_lem

  pub parse_sdp_proto-proto_name : (p : SdpProto) → parse_sdp_proto nceq (proto_name p) ≡ some p
  unfolding parse_sdp_proto proto_name equal
  parse_sdp_proto-proto_name udp = simp ci.nceq_lem
  parse_sdp_proto-proto_name rtp_avp = simp ci.nceq_lem
  parse_sdp_proto-proto_name rtp_savp = simp ci.nceq_lem
  parse_sdp_proto-proto_name rtp_savpf = simp ci.nceq_lem
  parse_sdp_proto-proto_name udp_tls_rtp_savpf = simp ci.nceq_lem
  parse_sdp_proto-proto_name dtls_sctp = simp ci.nceq_lem
  parse_sdp_proto-proto_name udp_dtls_sctp = simp ci.nceq_lem
  parse_sdp_proto-proto_name tcp_dtls_sctp = simp ci.nceq_lem
