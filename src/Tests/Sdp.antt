-- ===== src/Tests/Sdp.antt =====
-- The session description at concrete inputs.
use asio_rtc.Common.{
  ◌≡◌, refl, inr, ◌&&◌, none, some, List, [], ◌∷◌, map, All, ltb, ◌^◌, if◌then◌else◌, arith,
}
use asio_rtc.Tests.Text.{caseless, caseless-IsCaseless, no_patterns, no_rid_patterns}
use asio_rtc.Sdp.{
  Text, SdpRtpmap, SdpRtcpFb, SdpMedia, sendonly, sendrecv, audio, udp_tls_rtp_savpf,
}
use asio_rtc.Sdp.Text.{
  codes, split_first, starts_with, split_text, trim_begin, trim_end, split_lines,
}
use asio_rtc.Sdp.Text.Split.{with_ends, split_lines-with_ends}
use asio_rtc.Sdp.Text.Reference.{cut_lines, split_lines-cut_lines}
use asio_rtc.Sdp.Simulcast.{simulcast_loop}
use asio_rtc.Sdp.Simulcast.Ends.{simulcast_loop_ends}
use asio_rtc.Sdp.Number.{parse_uint, number_text}
use asio_rtc.Sdp.Number.RoundTrip.{parse_uint_digits}
use asio_rtc.Sdp.Direction.{reverse_direction, negotiate_direction}
use asio_rtc.Sdp.Direction.Agree.{sends, receives, negotiate_direction_agrees}
use asio_rtc.Sdp.Params.{value_before, behind_equals, find_param, add_param}
use asio_rtc.Sdp.Params.Update.{find_param-add_param}
use asio_rtc.Sdp.Media.{new_media}
use asio_rtc.Sdp.Media.Printed.{Attr, codec, feedback, stream, sctp, attr_text, IsPrintable}
use asio_rtc.Sdp.Session.{new_session, parse_lines}
use asio_rtc.Sdp.Session.Lines.{inside, append_attrs, AreNew, parse_lines-attr_text}

negotiate_direction_agrees_example :
    (sends (negotiate_direction sendonly sendrecv) ≡ (sends sendonly && receives sendrecv))
    × (receives (negotiate_direction sendonly sendrecv) ≡ (receives sendonly && sends sendrecv))
    × (negotiate_direction sendrecv sendonly
        ≡ reverse_direction (negotiate_direction sendonly sendrecv))
negotiate_direction_agrees_example = negotiate_direction_agrees sendonly sendrecv

abbrev profile : Text
profile = codes "profile-level-id"

abbrev given_params : Text
given_params = codes "packetization-mode=1;profile-level-id=42001f;x=1"

given_profile : find_param profile given_params ≡ some (codes "42001f")
unfolding find_param split_text starts_with behind_equals value_before split_first
given_profile = refl

find_param-add_param_example :
    find_param profile (add_param profile (codes "42e01f") given_params) ≡ some (codes "42e01f")
find_param-add_param_example =
    find_param-add_param profile (codes "42e01f") given_params (search) (search)
      (inr (codes "42001f", given_profile))

split_lines-with_ends_run :
    split_lines (with_ends (codes "v=0" ∷ [] ∷ codes "s=-" ∷ []))
    ≡ codes "v=0" ∷ [] ∷ codes "s=-" ∷ []
split_lines-with_ends_run = split_lines-with_ends (codes "v=0" ∷ [] ∷ codes "s=-" ∷ []) (search)

split_lines-cut_lines_example :
    split_lines (codes "v=0\r\ns=-\n") ≡ cut_lines (codes "v=0\r\ns=-\n")
split_lines-cut_lines_example = split_lines-cut_lines (codes "v=0\r\ns=-\n")

simulcast_loop_ends_run :
    simulcast_loop 15 (codes "send a;b recv c") (record { send_layers = []; recv_layers = [] })
    ≡ simulcast_loop 100 (codes "send a;b recv c") (record { send_layers = []; recv_layers = [] })
simulcast_loop_ends_run = simulcast_loop_ends 15 100 _ _ (omega arith) (omega arith)

parse_uint_digits_run :
    parse_uint 8 (number_text 300) ≡ (if ltb 300 (2 ^ 8) then some 300 else none)
parse_uint_digits_run = parse_uint_digits 8 300

abbrev opus : SdpRtpmap
opus = record {
  payload_type = 111;
  name = codes "opus";
  clock_rate = 48000;
  channels = some 2;
  params = [];
}

abbrev nack : SdpRtcpFb
nack = record { payload_type = some 111; kind = codes "nack"; subtype = codes "pli" }

abbrev some_attrs : List Attr
some_attrs =
    codec opus
    ∷ feedback nack
    ∷ stream (record { stream_id = codes "s"; track_id = [] })
    ∷ sctp 5000
    ∷ []

some_attrs-IsPrintable : All IsPrintable some_attrs
unfolding trim_begin trim_end
some_attrs-IsPrintable = (
  record {
    type_fits = omega arith;
    named = record { name_lem = refl; word = search };
    no_slash = search;
    rate_fits = omega arith;
    channels_fit = omega arith;
    no_params = refl;
  },
  (
    record {
      type_fits = omega arith;
      named = record { name_lem = refl; word = search };
      tidy = record { begin_lem = refl; end_lem = refl };
    },
    (
      record {
        named = record { name_lem = refl; word = search };
        tidy = record { begin_lem = refl; end_lem = refl };
      },
      (omega arith, tt),
    ),
  ),
)

abbrev audio_section : SdpMedia
audio_section = new_media audio 9 udp_tls_rtp_savpf

some_attrs-AreNew : AreNew some_attrs audio_section
unfolding AreNew
some_attrs-AreNew = (tt, (tt, (tt, (tt, tt))))

parse_lines-attr_text_example :
    parse_lines caseless no_patterns no_rid_patterns
      (inside (new_session (codes "offer")) [] audio_section)
      (map attr_text some_attrs)
    ≡ some (inside (new_session (codes "offer")) [] (append_attrs some_attrs audio_section))
parse_lines-attr_text_example =
    parse_lines-attr_text no_patterns no_rid_patterns caseless-IsCaseless some_attrs
      (new_session (codes "offer")) [] audio_section some_attrs-IsPrintable some_attrs-AreNew
