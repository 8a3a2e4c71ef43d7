-- ===== src/Sdp/Codec.antt =====
-- src/sdp.cpp, include/asiortc/media_track.hpp, include/asiortc/media_frame.hpp: a codec's entry made
-- from a media description, and when two entries are of the same codec. An exception is `none`.
use asio_rtc.Common.{
  ℕ, Bool, true, false, not, ◌&&◌, ◌||◌, ◌==◌, if◌then◌else◌, Option, none, some, [],
}
use asio_rtc.Sdp.{Text, SdpRtpmap}
use asio_rtc.Sdp.Text.{equal, codes}
use asio_rtc.Sdp.Names.{Nceq}
use asio_rtc.Sdp.Params.{find_param, add_param}

pub data MediaFormat : Type 0 where
  unknown opus vp8 h264 vp9 : MediaFormat

pub record MediaDescription : Type 0 where
  pub format : MediaFormat
  pub clock_rate : ℕ
  pub encoding_params : Text
  pub channels : Option ℕ

unfoldable pub make_default : MediaFormat → Option MediaDescription
make_default unknown = none
make_default opus =
    some (record { format = opus; clock_rate = 48000; encoding_params = []; channels = some 2 })
make_default h264 = some (record {
  format = h264;
  clock_rate = 90000;
  encoding_params = codes "profile-level-id=42001f";
  channels = none;
})
make_default vp8 =
    some (record { format = vp8; clock_rate = 90000; encoding_params = []; channels = none })
make_default vp9 =
    some (record { format = vp9; clock_rate = 90000; encoding_params = []; channels = none })

-- The entry with the description's clock rate, channels and parameters.
abbrev entry_of : MediaDescription → Text → ℕ → SdpRtpmap
entry_of desc name pt = record {
  payload_type = pt;
  name = name;
  clock_rate = desc.clock_rate;
  channels = desc.channels;
  params = desc.encoding_params;
}

abbrev with_profile : SdpRtpmap → SdpRtpmap
with_profile r = record r {
  params = add_param (codes "profile-level-id") (codes "42001f") r.params;
}

unfoldable pub from_media_description : MediaDescription → Option SdpRtpmap
from_media_description desc = elim desc.format [
  | opus ↦ some (entry_of desc (codes "opus") 111)
  | vp8 ↦ some (entry_of desc (codes "vp8") 96)
  | h264 ↦ some (with_profile (entry_of desc (codes "h264") 102))
  | vp9 ↦ some (entry_of desc (codes "vp9") 98)
  | unknown ↦ none
]

-- `==` of two optional numbers, and of two optional texts.
unfoldable pub same_number : Option ℕ → Option ℕ → Bool
same_number none none = true
same_number none (some b) = false
same_number (some a) none = false
same_number (some a) (some b) = a == b

unfoldable pub same_text : Option Text → Option Text → Bool
same_text none none = true
same_text none (some b) = false
same_text (some a) none = false
same_text (some a) (some b) = equal a b

module _ (nceq : Nceq) where
  unfoldable pub is_match : SdpRtpmap → SdpRtpmap → Bool
  is_match a b =
      if not (nceq a.name b.name)
        || (not (a.clock_rate == b.clock_rate) || not (same_number a.channels b.channels))
      then false
      else if nceq a.name (codes "H264")
          && not (
              same_text (find_param (codes "profile-level-id") a.params)
                (find_param (codes "profile-level-id") b.params))
      then false
      else true
