-- ===== src/Rtp/Valid.antt =====
-- The packets that the wire format can carry.
use asio_rtc.Common.{◌/◌, ◌%◌, ◌^◌, ◌<◌, ◌≡◌, ◌⊎◌, [], length, All}
use asio_rtc.Rtp.{RtpPacket}

-- Every field fits its bits, `csrc_count` counts the sources, and the extension is a whole number
-- of words, absent if the flag is.
pub record IsValid (p : RtpPacket) : Type 0 where
  pub version_two : p.version ≡ 2
  pub padding_flag : p.padding < 2
  pub extension_flag : p.extension < 2
  pub sources : p.csrc_count ≡ length p.csrcs
  pub few_sources : p.csrc_count < 16
  pub marker_flag : p.marker < 2
  pub seven_bits : p.payload_type < 128
  pub sequence_fits : p.sequence_number < 2 ^ 16
  pub timestamp_fits : p.timestamp < 2 ^ 32
  pub ssrc_fits : p.ssrc < 2 ^ 32
  pub csrcs_fit : All (λ c. c < 2 ^ 32) p.csrcs
  pub profile_fits : p.extension_profile < 2 ^ 16
  pub whole_words : length p.extension_data % 4 ≡ 0
  pub words_fit : length p.extension_data / 4 < 2 ^ 16
  pub no_extension : (p.extension ≡ 1) ⊎ ((p.extension_profile ≡ 0) × (p.extension_data ≡ []))
