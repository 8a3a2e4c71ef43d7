-- ===== src/Tests/Codec.antt =====
-- Codecs at concrete inputs.
use asio_rtc.Common.{◌≡◌, refl, true, false, none, some, ◌>>=◌}
use asio_rtc.Tests.Text.{caseless}
use asio_rtc.Sdp.{SdpRtpmap}
use asio_rtc.Sdp.Text.{equal, split_first, starts_with, split_text, codes}
use asio_rtc.Sdp.Params.{
  value_before, value_behind, behind_equals, find_param, replace_value, add_param,
}
use asio_rtc.Sdp.Codec.{
  h264, unknown, make_default, from_media_description, same_number, same_text, is_match,
}

abbrev h264_entry : SdpRtpmap
h264_entry = record {
  payload_type = 102;
  name = codes "h264";
  clock_rate = 90000;
  channels = none;
  params = codes "profile-level-id=42001f";
}

default_h264 : (make_default h264 >>= from_media_description) ≡ some h264_entry
unfolding make_default from_media_description add_param replace_value split_text starts_with
    behind_equals value_behind split_first
default_h264 = refl

no_format : (make_default unknown >>= from_media_description) ≡ none
unfolding make_default
no_format = refl

-- Another payload type and another spelling, but the same codec; with another profile it is not.
same_codec :
    is_match caseless h264_entry (record h264_entry { payload_type = 120; name = codes "H264" })
    ≡ true
unfolding is_match same_number same_text find_param split_text starts_with behind_equals
    value_before split_first equal
same_codec = refl

other_profile :
    is_match caseless h264_entry (record h264_entry { params = codes "profile-level-id=42e01f" })
    ≡ false
unfolding is_match same_number same_text find_param split_text starts_with behind_equals
    value_before split_first equal
other_profile = refl
