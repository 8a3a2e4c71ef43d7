-- ===== src/Tests/Twcc.antt =====
-- SDES, transport-wide feedback and its reports at concrete inputs.
use asio_rtc.Common.{◌≡◌, refl, false, some, List, [], ◌∷◌, All, arith}
use asio_rtc.Tests.Fixture.{network, network-IsBigEndian}
use asio_rtc.Tcc.{
  SdesChunk, TransportCcFeedback, TccPacketInfo, small_delta, large_delta, not_received, filling,
  sdes_body, sdes_bytes, fci_bytes, counted_padding, build_transport_cc, symbol, delta_bytes,
  chunk_loop, chunks_loop, all_deltas, tcc_build_packet_status,
}
use asio_rtc.Tcc.Read.{read_status, IsSendable, read_status-tcc_build_packet_status}
use asio_rtc.Twcc.Elements.{element_bytes, elements_bytes, IsElement, ext_elements-elements_bytes}
use asio_rtc.Tcc.Words.{IsWhole, sdes_bytes-IsWhole, build_transport_cc-IsWhole}
use asio_rtc.Twcc.{
  RtpExtElement, ext_elements, TccEntry, TransportCc, delta_of, fits_delta, status_of, delta_bits,
  report_loop, report_start, report_packets,
}
use asio_rtc.Twcc.Report.{report_loop_ends}

abbrev named : SdesChunk
named = record { ssrc = 7; cname = 97 ∷ 98 ∷ 99 ∷ [] }

sdes_bytes-IsWhole_run : IsWhole network (sdes_bytes network named)
unfolding sdes_body filling
sdes_bytes-IsWhole_run = sdes_bytes-IsWhole network-IsBigEndian named (omega arith)

abbrev sample : TransportCcFeedback
sample = record {
  sender_ssrc = 1;
  media_ssrc = 2;
  base_seq = 10;
  status_count = 1;
  reference_time = 0;
  feedback_packet_count = 1;
  packet_chunks = 208 ∷ 0 ∷ 4 ∷ [];
}

build_transport_cc-IsWhole_run : IsWhole network (build_transport_cc network sample)
build_transport_cc-IsWhole_run = build_transport_cc-IsWhole network-IsBigEndian sample (omega arith)

sample_bytes :
    build_transport_cc network sample
    ≡ 175 ∷ 205 ∷ 0 ∷ 5 ∷ 0 ∷ 0 ∷ 0 ∷ 1 ∷ 0 ∷ 0 ∷ 0 ∷ 2 ∷ 0 ∷ 10 ∷ 0 ∷ 1 ∷ 0 ∷ 0 ∷ 0 ∷ 1 ∷ 208 ∷ 0
      ∷ 4 ∷ 1 ∷ []
unfolding build_transport_cc fci_bytes counted_padding
sample_bytes = refl

-- One packet is missing between the two that came.
abbrev first_entry : TccEntry
first_entry = record { seq = 10; ts = 64_000_000 }

abbrev two_packets : TransportCc
two_packets = record {
  recv = first_entry ∷ (record { seq = 12; ts = 65_000_000 }) ∷ [];
  next_report_seq = 0;
  sender_ssrc = 1;
  media_ssrc = 2;
  fb_count = 0;
}

two_packets_reported : report_packets two_packets first_entry ≡ (
  (record { status = small_delta; delta = 0 })
      ∷ (record { status = not_received; delta = 0 })
      ∷ (record { status = small_delta; delta = 4 })
      ∷ [],
  13,
  [],
)
unfolding report_packets report_loop report_start delta_of fits_delta status_of delta_bits
two_packets_reported = refl

report_loop_ends_run :
    report_loop 102 100 false 10 0 two_packets.recv
    ≡ report_loop 500 100 false 10 0 two_packets.recv
report_loop_ends_run =
    report_loop_ends 102 500 100 false 10 0 two_packets.recv (omega arith) (omega arith)

-- The statuses of the three packets in one chunk, and the deltas behind it.
status_bytes :
    tcc_build_packet_status network (
      (record { status = small_delta; delta = 0 })
      ∷ (record { status = not_received; delta = 0 })
      ∷ (record { status = small_delta; delta = 4 })
      ∷ [])
    ≡ 209 ∷ 0 ∷ 0 ∷ 4 ∷ []
unfolding tcc_build_packet_status chunks_loop chunk_loop symbol all_deltas delta_bytes
status_bytes = refl

abbrev mixed : List TccPacketInfo
mixed =
    (record { status = small_delta; delta = 0 })
    ∷ (record { status = not_received; delta = 0 })
    ∷ (record { status = large_delta; delta = 300 })
    ∷ []

mixed-IsSendable : All IsSendable mixed
mixed-IsSendable = (omega arith, (refl, (omega arith, tt)))

read_status-tcc_build_packet_status_example :
    read_status network 3 (tcc_build_packet_status network mixed) ≡ some mixed
read_status-tcc_build_packet_status_example =
    read_status-tcc_build_packet_status network-IsBigEndian mixed mixed-IsSendable

abbrev two_elements : List RtpExtElement
two_elements =
    (record { id = 4; length = 2; content = 1 ∷ 2 ∷ [] })
    ∷ (record { id = 1; length = 1; content = 9 ∷ [] })
    ∷ []

two_elements-IsElement : All IsElement two_elements
two_elements-IsElement = (
  record { id_short = omega arith; not_nothing = omega arith; at_most = omega arith; size = refl },
  (
    record {
      id_short = omega arith;
      not_nothing = omega arith;
      at_most = omega arith;
      size = refl;
    },
    tt,
  ),
)

ext_elements-elements_bytes_example : ext_elements 5 (elements_bytes two_elements) ≡ two_elements
unfolding elements_bytes element_bytes
ext_elements-elements_bytes_example =
    ext_elements-elements_bytes 5 two_elements two_elements-IsElement (omega arith)
