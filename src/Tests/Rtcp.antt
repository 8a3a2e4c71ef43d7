-- ===== src/Tests/Rtcp.antt =====
-- RTCP packets and feedback messages at concrete inputs.
use asio_rtc.Common.{
  ℕ, ◌≡◌, refl, inl, inr, some, none, true, List, [], ◌∷◌, ◌++◌, length, replicate, arith,
}
use asio_rtc.Rtp.{write_padding}
use asio_rtc.Rtcp.{
  RtcpPacket, ReportBlock, serialized_size, is_rtcp_packet, get_packet_type, parse, parse_body,
  parse_header, parse_feedback, stated_size, write_header, write_sender, write_blocks,
  write_report_block, write_body, write_to, parse_compound,
}
use asio_rtc.Rtcp.Blocks.{IsBlock}
use asio_rtc.Rtcp.Valid.{IsValid}
use asio_rtc.Rtcp.RoundTrip.{rtcp_parse-write_to}
use asio_rtc.Rtcp.Compound.{AreWritten, parse_compound-write_to}
use asio_rtc.Feedback.{RtcpRtpfb, blp_loop, rtpfb_bytes, psfb_bytes, nack_loop, parse_nack}
use asio_rtc.Feedback.RoundTrip.{parse-rtpfb_bytes}
use asio_rtc.Tests.Fixture.{network, network-IsBigEndian}

abbrev block : ReportBlock
block = record {
  ssrc = 7;
  fraction_lost = 64;
  cumulative_lost = 513;
  ext_highest_seq = 65537;
  jitter = 3;
  lsr = 4;
  dlsr = 5;
}

abbrev sender_report : RtcpPacket
sender_report = record {
  version = 2;
  padding = 0;
  report_count = 1;
  packet_type = 200;
  ssrc = 9;
  media_ssrc = 0;
  ntp_timestamp = 0x0000000200000003;
  rtp_timestamp = 90000;
  sender_packet_count = 10;
  sender_octet_count = 1000;
  blocks = block ∷ [];
  payload = [];
}

abbrev goodbye : RtcpPacket
goodbye = record {
  version = 2;
  padding = 1;
  report_count = 1;
  packet_type = 203;
  ssrc = 0;
  media_ssrc = 0;
  ntp_timestamp = 0;
  rtp_timestamp = 0;
  sender_packet_count = 0;
  sender_octet_count = 0;
  blocks = [];
  payload = 0 ∷ 0 ∷ 0 ∷ 9 ∷ 1 ∷ 88 ∷ [];
}

abbrev report_bytes : List ℕ
report_bytes =
    0x81 ∷ 200 ∷ 0 ∷ 12 ∷ 0 ∷ 0 ∷ 0 ∷ 9 ∷ 0 ∷ 0 ∷ 0 ∷ 2 ∷ 0 ∷ 0 ∷ 0 ∷ 3 ∷ 0 ∷ 1 ∷ 95 ∷ 144 ∷ 0 ∷ 0
    ∷ 0 ∷ 10 ∷ 0 ∷ 0 ∷ 3 ∷ 232 ∷ 0 ∷ 0 ∷ 0 ∷ 7 ∷ 64 ∷ 0 ∷ 2 ∷ 1 ∷ 0 ∷ 1 ∷ 0 ∷ 1 ∷ 0 ∷ 0 ∷ 0 ∷ 3 ∷ 0
    ∷ 0 ∷ 0 ∷ 4 ∷ 0 ∷ 0 ∷ 0 ∷ 5 ∷ []

abbrev goodbye_bytes : List ℕ
goodbye_bytes = 0xa1 ∷ 203 ∷ 0 ∷ 2 ∷ 0 ∷ 0 ∷ 0 ∷ 9 ∷ 1 ∷ 88 ∷ 0 ∷ 2 ∷ []

report_written : write_to network sender_report (replicate 52 0) ≡ some (52, report_bytes)
unfolding write_to write_header write_body write_sender write_blocks write_report_block
    write_padding serialized_size
report_written = refl

goodbye_written : write_to network goodbye (replicate 12 0) ≡ some (12, goodbye_bytes)
unfolding write_to write_header write_body write_sender write_blocks write_report_block
    write_padding serialized_size
goodbye_written = refl

-- A feedback packet is written without the numbers of its sources, and cannot be read again.
feedback_unreadable :
    write_to network
      (record goodbye { padding = 0; packet_type = 205; media_ssrc = 7; payload = [] })
      (replicate 4 1)
    ≡ some (4, 0x81 ∷ 205 ∷ 0 ∷ 0 ∷ [])
unfolding write_to write_header write_body write_blocks write_padding serialized_size
feedback_unreadable = refl

feedback_refused : parse network (0x81 ∷ 205 ∷ 0 ∷ 0 ∷ []) ≡ none
unfolding parse stated_size parse_header parse_body parse_feedback
feedback_refused = refl

is_packet : is_rtcp_packet goodbye_bytes ≡ true
unfolding is_rtcp_packet
is_packet = refl

type_of_packet : get_packet_type goodbye_bytes ≡ 203
unfolding get_packet_type
type_of_packet = refl

-- The mask asks for the first and the last of the sixteen that follow, across a wrap.
mask_read : parse_nack network (0xff ∷ 0xff ∷ 0x80 ∷ 1 ∷ []) ≡ 65535 ∷ 0 ∷ 15 ∷ []
unfolding parse_nack nack_loop blp_loop
mask_read = refl

pli_written :
    psfb_bytes network (record { fmt = 1; sender_ssrc = 1; media_ssrc = 2; fci = [] })
    ≡ 0x81 ∷ 206 ∷ 0 ∷ 2 ∷ 0 ∷ 0 ∷ 0 ∷ 1 ∷ 0 ∷ 0 ∷ 0 ∷ 2 ∷ []
unfolding psfb_bytes
pli_written = refl

block-IsBlock : IsBlock block
block-IsBlock = record {
  ssrc_fits = omega arith;
  fraction_fits = omega arith;
  cumulative_fits = omega arith;
  highest_fits = omega arith;
  jitter_fits = omega arith;
  lsr_fits = omega arith;
  dlsr_fits = omega arith;
}

sender_report-IsValid : IsValid sender_report
unfolding serialized_size
sender_report-IsValid = record {
  version_fits = omega arith;
  padding_flag = omega arith;
  count_fits = omega arith;
  no_media = refl;
  blocks_fit = (block-IsBlock, tt);
  whole_words = inr refl;
  size_fits = omega arith;
  kind = inl (record {
    is_sr = refl;
    counted = refl;
    ssrc_fits = omega arith;
    ntp_fits = omega arith;
    rtp_fits = omega arith;
    packets_fit = omega arith;
    octets_fit = omega arith;
  });
}

goodbye-IsValid : IsValid goodbye
unfolding serialized_size
goodbye-IsValid = record {
  version_fits = omega arith;
  padding_flag = omega arith;
  count_fits = omega arith;
  no_media = refl;
  blocks_fit = tt;
  whole_words = inl refl;
  size_fits = omega arith;
  kind = inr (
      inr (record {
        is_opaque = inl refl;
        no_blocks = refl;
        no_ssrc = refl;
        no_info = record { no_ntp = refl; no_rtp = refl; no_packets = refl; no_octets = refl };
      }));
}

rtcp_parse-write_to_example :
    (out : List ℕ) × (write_to network sender_report (replicate 60 1) ≡ some (52, out))
    × (length out ≡ 60)
    × (parse network out ≡ some sender_report)
unfolding serialized_size
rtcp_parse-write_to_example =
    rtcp_parse-write_to network-IsBigEndian {p = sender_report} (replicate 60 1)
      sender_report-IsValid (omega arith)

both-AreWritten : AreWritten network (sender_report ∷ goodbye ∷ []) (report_bytes ++ goodbye_bytes)
unfolding serialized_size AreWritten
both-AreWritten = (
  replicate 52 0,
  report_bytes,
  goodbye_bytes,
  refl,
  report_written,
  refl,
  (replicate 12 0, goodbye_bytes, [], refl, goodbye_written, refl, refl),
)

parse_compound-write_to_example :
    parse_compound network (report_bytes ++ goodbye_bytes) ≡ sender_report ∷ goodbye ∷ []
parse_compound-write_to_example =
    parse_compound-write_to network-IsBigEndian (sender_report ∷ goodbye ∷ [])
      (report_bytes ++ goodbye_bytes) (sender_report-IsValid, (goodbye-IsValid, tt)) both-AreWritten

abbrev nack : RtcpRtpfb
nack = record { sender_ssrc = 1; media_ssrc = 2; lost = 65535 ∷ 3 ∷ [] }

parse-rtpfb_bytes_example :
    (p : RtcpPacket) × (parse network (rtpfb_bytes network nack) ≡ some p)
    × (p.media_ssrc ≡ 2)
    × (parse_nack network p.payload ≡ 65535 ∷ 3 ∷ [])
parse-rtpfb_bytes_example =
    parse-rtpfb_bytes network-IsBigEndian nack (omega arith) (omega arith) (omega arith)
