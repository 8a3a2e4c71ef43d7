-- ===== src/Tests/Rtp.antt =====
-- The RTP packet at concrete inputs.
use asio_rtc.Common.{
  ℕ, ◌≡◌, refl, inl, some, none, List, [], ◌∷◌, ◌++◌, length, take, replicate, arith,
}
use asio_rtc.Rtp.{
  RtpPacket, is_rtp_packet, parse_header, read_csrcs, parse_csrcs, parse_extension, strip_padding,
  parse_payload, parse, serialized_size, write_header, write_csrcs, write_extension, write_body,
  write_padding, write_to,
}
use asio_rtc.Rtp.Valid.{IsValid}
use asio_rtc.Rtp.RoundTrip.{parse-write_to}
use asio_rtc.Tests.Fixture.{network, network-IsBigEndian}

-- A packet with a source, an extension of one word and padding.
abbrev packet : RtpPacket
packet = record {
  version = 2;
  padding = 1;
  extension = 1;
  csrc_count = 1;
  marker = 1;
  payload_type = 96;
  sequence_number = 4660;
  timestamp = 0x01020304;
  ssrc = 0x0a0b0c0d;
  csrcs = 7 ∷ [];
  extension_profile = 0xbede;
  extension_data = 0x40 ∷ 1 ∷ 2 ∷ 0 ∷ [];
  payload = 9 ∷ 8 ∷ 7 ∷ [];
}

abbrev wire : List ℕ
wire =
    0xb1 ∷ 0xe0 ∷ 0x12 ∷ 0x34 ∷ 1 ∷ 2 ∷ 3 ∷ 4 ∷ 0x0a ∷ 0x0b ∷ 0x0c ∷ 0x0d ∷ 0 ∷ 0 ∷ 0 ∷ 7 ∷ 0xbe
    ∷ 0xde ∷ 0 ∷ 1 ∷ 0x40 ∷ 1 ∷ 2 ∷ 0 ∷ 9 ∷ 8 ∷ 7 ∷ 1 ∷ []

written : write_to network packet (replicate 28 0) ≡ some (28, wire)
unfolding write_to write_body write_header write_csrcs write_extension write_padding serialized_size
written = refl

parsed : parse network wire ≡ some packet
unfolding parse is_rtp_packet parse_header parse_csrcs read_csrcs parse_extension parse_payload
    strip_padding
parsed = refl

-- Padding longer than what follows the header is refused.
bad_padding : parse network (0xa0 ∷ 0 ∷ replicate 10 0 ++ (5 ∷ 9 ∷ [])) ≡ none
unfolding parse is_rtp_packet parse_header parse_csrcs read_csrcs parse_extension parse_payload
    strip_padding
bad_padding = refl

packet-IsValid : IsValid packet
packet-IsValid = record {
  version_two = refl;
  padding_flag = omega arith;
  extension_flag = omega arith;
  sources = refl;
  few_sources = omega arith;
  marker_flag = omega arith;
  seven_bits = omega arith;
  sequence_fits = omega arith;
  timestamp_fits = omega arith;
  ssrc_fits = omega arith;
  csrcs_fit = omega arith;
  profile_fits = omega arith;
  whole_words = refl;
  words_fit = omega arith;
  no_extension = inl refl;
}

parse-write_to_example :
    (out : List ℕ) × (write_to network packet (replicate 30 1) ≡ some (28, out))
    × (length out ≡ 30)
    × (parse network (take 28 out) ≡ some packet)
unfolding serialized_size
parse-write_to_example =
    parse-write_to network-IsBigEndian (replicate 30 1) packet-IsValid (omega arith)
