-- ===== src/Tests/Session.antt =====
-- A whole description, parsed.
use asio_rtc.Common.{ℕ, ◌≡◌, refl, ap, arith, byte_at, none, some, [], ◌∷◌, ◌++◌, All}
use asio_rtc.Tests.Text.{caseless, no_patterns, no_rid_patterns}
use asio_rtc.Sdp.{Text, SessionDescription, audio, video, rtp_avp, udp_tls_rtp_savpf, numbers}
use asio_rtc.Sdp.Text.{
  codes, equal, split_first, trim_begin, trim_end, trim, parse_line_type_value, remove_cr,
  lines_loop, split_lines, split_attr, take_word, words,
}
use asio_rtc.Sdp.Text.Split.{with_ends}
use asio_rtc.Sdp.Number.{read_digits, parse_uint}
use asio_rtc.Sdp.Names.{parse_sdp_media_type, parse_sdp_proto, parse_sdp_direction}
use asio_rtc.Sdp.Attribute.{
  parse_clock, parse_rtpmap, fb_kind, parse_fb_target, parse_rtcpfb, parse_msid, same_track,
  check_msids,
}
use asio_rtc.Sdp.Media.{
  new_media, payload_types, find_rtpmap, add_rtpmap, same_fb, has_fb, insert_fb, add_feedback,
  parse_port, proto_or_default, keep_formats, media_of, media_from_words, parse_media_line,
}
use asio_rtc.Sdp.Media.Attr.{apply_media_attr, apply_transport_attr, apply_other_attr}
use asio_rtc.Sdp.Media.Valid.{IsConsistent}
use asio_rtc.Sdp.Session.{
  new_session, set_version, change_last, last_checked, media_attr_line, media_step, session_step,
  open_media, parse_step, parse_line, parse_lines, from_lines, do_parse,
}
use asio_rtc.Sdp.Session.Refused.{HasForm, do_parse_refuses}
use asio_rtc.Sdp.Session.Valid.{
  AreOnOneTrackBeforeLast, do_parse-IsConsistent, do_parse-AreOnOneTrackBeforeLast,
}

abbrev offer_text : Text
offer_text = with_ends (
    codes "v=0"
    ∷ codes "m=audio 9 UDP/TLS/RTP/SAVPF 111"
    ∷ codes "a=rtpmap:111 opus/48000/2"
    ∷ codes "a=rtpmap:111 pcmu/8000"
    ∷ codes "a=rtcp-fb:111 nack"
    ∷ codes "a=rtcp-fb:111 nack"
    ∷ codes "a=msid:stream track"
    ∷ codes "a=msid:other track"
    ∷ codes "m=video 9/2 RTP/AVP 96"
    ∷ [])

abbrev offer : SessionDescription
offer = record (new_session (codes "offer")) {
  medias =
      record (new_media audio 9 udp_tls_rtp_savpf) {
        formats = numbers (111 ∷ []);
        rtpmaps =
            (record {
              payload_type = 111;
              name = codes "opus";
              clock_rate = 48000;
              channels = some 2;
              params = [];
            })
            ∷ [];
        rtcp_fbs = (record { payload_type = some 111; kind = codes "nack"; subtype = [] }) ∷ [];
        msids =
            (record { stream_id = codes "stream"; track_id = codes "track" })
            ∷ (record { stream_id = codes "other"; track_id = codes "track" })
            ∷ [];
      }
      ∷ new_media video 9 rtp_avp
      ∷ [];
}

offer_parsed : do_parse caseless no_patterns no_rid_patterns offer_text (codes "offer") ≡ some offer
unfolding do_parse from_lines parse_lines parse_line parse_step open_media session_step media_step
    media_attr_line last_checked change_last set_version apply_media_attr apply_transport_attr
    apply_other_attr parse_media_line media_from_words media_of keep_formats proto_or_default
    parse_port add_feedback insert_fb has_fb same_fb add_rtpmap find_rtpmap payload_types
    parse_rtcpfb parse_fb_target fb_kind parse_rtpmap parse_clock parse_msid check_msids same_track
    parse_sdp_media_type parse_sdp_proto parse_sdp_direction parse_uint read_digits with_ends words
    take_word split_attr split_lines lines_loop remove_cr parse_line_type_value trim trim_end
    trim_begin split_first equal
offer_parsed = refl

do_parse-IsConsistent_example : All IsConsistent offer.medias
do_parse-IsConsistent_example =
    do_parse-IsConsistent caseless no_patterns no_rid_patterns offer_text (codes "offer") offer
      offer_parsed

do_parse-AreOnOneTrackBeforeLast_example : AreOnOneTrackBeforeLast offer.medias
do_parse-AreOnOneTrackBeforeLast_example =
    do_parse-AreOnOneTrackBeforeLast caseless no_patterns no_rid_patterns offer_text (codes "offer")
      offer offer_parsed

abbrev bad_text : Text
bad_text = with_ends (codes "v=0" ∷ codes "media 9" ∷ codes "s=-" ∷ [])

bad_lines_of : split_lines bad_text ≡ (codes "v=0" ∷ []) ++ codes "media 9" ∷ codes "s=-" ∷ []
unfolding split_lines lines_loop with_ends remove_cr split_first
bad_lines_of = refl

bad_trimmed : trim (codes "media 9") ≡ codes "media 9"
unfolding trim trim_end trim_begin
bad_trimmed = refl

bad_form : ¬ HasForm (codes "media 9")
bad_form (c, val, e) =
    let second : ◌≡◌ {A = ℕ} 101 61 = ap (λ (l : Text). byte_at l 1) e in
    absurd (omega (arith, second))

do_parse_refuses_example :
    do_parse caseless no_patterns no_rid_patterns bad_text (codes "offer") ≡ none
do_parse_refuses_example =
    do_parse_refuses caseless no_patterns no_rid_patterns bad_text (codes "offer")
      (codes "v=0" ∷ []) (codes "media 9") (codes "s=-" ∷ []) 109 (codes "edia 9") bad_lines_of
      bad_trimmed bad_form
