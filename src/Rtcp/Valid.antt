-- ===== src/Rtcp/Valid.antt =====
-- The packets that `write_to` can express and `parse` gives back.
use asio_rtc.Common.{◌%◌, ◌^◌, ◌<◌, ◌≤◌, ◌≡◌, ◌⊎◌, [], length, All}
use asio_rtc.Rtcp.{RtcpPacket, sr, rr, sdes, bye, app, serialized_size}
use asio_rtc.Rtcp.Blocks.{IsBlock}

-- A field that the packet's type does not have on the wire is at its default.
pub record IsSender (p : RtcpPacket) : Type 0 where
  pub is_sr : p.packet_type ≡ sr
  pub counted : p.report_count ≡ length p.blocks
  pub ssrc_fits : p.ssrc < 2 ^ 32
  pub ntp_fits : p.ntp_timestamp < 2 ^ 64
  pub rtp_fits : p.rtp_timestamp < 2 ^ 32
  pub packets_fit : p.sender_packet_count < 2 ^ 32
  pub octets_fit : p.sender_octet_count < 2 ^ 32

pub record NoSenderInfo (p : RtcpPacket) : Type 0 where
  pub no_ntp : p.ntp_timestamp ≡ 0
  pub no_rtp : p.rtp_timestamp ≡ 0
  pub no_packets : p.sender_packet_count ≡ 0
  pub no_octets : p.sender_octet_count ≡ 0

pub record IsReceiver (p : RtcpPacket) : Type 0 where
  pub is_rr : p.packet_type ≡ rr
  pub counted : p.report_count ≡ length p.blocks
  pub ssrc_fits : p.ssrc < 2 ^ 32
  pub no_info : NoSenderInfo p

-- A packet of which the parser keeps the payload only.
pub record IsOpaque (p : RtcpPacket) : Type 0 where
  pub is_opaque : (p.packet_type ≡ bye) ⊎ (p.packet_type ≡ sdes) ⊎ (p.packet_type ≡ app)
  pub no_blocks : p.blocks ≡ []
  pub no_ssrc : p.ssrc ≡ 0
  pub no_info : NoSenderInfo p

pub record IsValid (p : RtcpPacket) : Type 0 where
  pub version_fits : p.version < 4
  pub padding_flag : p.padding < 2
  pub count_fits : p.report_count < 32
  pub no_media : p.media_ssrc ≡ 0
  pub blocks_fit : All IsBlock p.blocks
  pub whole_words : (p.padding ≡ 1) ⊎ (length p.payload % 4 ≡ 0)
  pub size_fits : serialized_size p ≤ 2 ^ 18
  pub kind : IsSender p ⊎ IsReceiver p ⊎ IsOpaque p
