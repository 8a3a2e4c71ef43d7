-- ===== src/Tests/MediaTrack.antt =====
-- H.264 packets at concrete inputs.
use asio_rtc.Common.{ℕ, ◌≡◌, refl, sym, ap, List, [], ◌∷◌, replicate, true, All, arith}
use asio_rtc.Rtp.{RtpPacket}
use asio_rtc.H264.{
  start_code, find_start_code, fu_header, fragments, pack_unit, pack_nal, pack_loop, pack,
}
use asio_rtc.H264.StartCode.{IsClean, annex_b}
use asio_rtc.H264.Bounds.{Fits, pack-Fits}
use asio_rtc.MediaTrack.{
  stap_units, fu_start, fu_end, fu_unit, depacketize, depacketize_all, h264_packets_to_annex_b,
}
use asio_rtc.MediaTrack.RoundTrip.{IsNal, h264_packets_to_annex_b-pack}

abbrev sps : List ℕ
sps = 0x67 ∷ 0x42 ∷ 0 ∷ 0x1e ∷ []

abbrev slice : List ℕ
slice = 0x65 ∷ 0x88 ∷ 0 ∷ 0 ∷ 3 ∷ 1 ∷ []

abbrev carried : List ℕ → RtpPacket
carried payload = record {
  version = 2;
  padding = 0;
  extension = 0;
  csrc_count = 0;
  marker = 0;
  payload_type = 96;
  sequence_number = 1;
  timestamp = 9000;
  ssrc = 7;
  csrcs = [];
  extension_profile = 0;
  extension_data = [];
  payload = payload;
}

packed : pack (annex_b (sps ∷ slice ∷ [])) 9000 ≡ (sps ∷ slice ∷ [], 9000)
unfolding pack pack_loop find_start_code start_code annex_b pack_nal pack_unit
packed = refl

-- A start code of four bytes, and bytes before the first one.
packed_long_code : pack (7 ∷ 0 ∷ 0 ∷ 0 ∷ 1 ∷ sps) 5 ≡ (sps ∷ [], 5)
unfolding pack pack_loop find_start_code start_code pack_nal pack_unit
packed_long_code = refl

two_fragments :
    fragments 1300 true 0x7c 5 (replicate 1200 9)
    ≡ (0x7c ∷ 0x85 ∷ replicate 1198 9) ∷ (0x7c ∷ 0x45 ∷ 9 ∷ 9 ∷ []) ∷ []
unfolding fragments fu_header
two_fragments = refl

-- An aggregation packet with two units, the second one cut short.
aggregated :
    h264_packets_to_annex_b (carried (0x18 ∷ 0 ∷ 2 ∷ 0x67 ∷ 1 ∷ 0 ∷ 9 ∷ 0x68 ∷ []) ∷ [])
    ≡ 0 ∷ 0 ∷ 1 ∷ 0x67 ∷ 1 ∷ []
unfolding h264_packets_to_annex_b depacketize_all depacketize stap_units
aggregated = refl

-- A fragment without its start is dropped.
lost_start :
    h264_packets_to_annex_b (carried (0x7c ∷ 0x05 ∷ 1 ∷ 2 ∷ []) ∷ carried sps ∷ [])
    ≡ 0 ∷ 0 ∷ 1 ∷ sps
unfolding h264_packets_to_annex_b depacketize_all depacketize fu_unit fu_start fu_end
lost_start = refl

sps-IsNal : IsNal sps
unfolding IsClean
sps-IsNal = record {
  hdr = 0x67;
  body = 0x42 ∷ 0 ∷ 0x1e ∷ [];
  nal_eq = refl;
  clean = ground arith;
  forbidden_zero = omega arith;
  type_low = omega arith;
  type_high = omega arith;
}

slice-IsNal : IsNal slice
unfolding IsClean
slice-IsNal = record {
  hdr = 0x65;
  body = 0x88 ∷ 0 ∷ 0 ∷ 3 ∷ 1 ∷ [];
  nal_eq = refl;
  clean = ground arith;
  forbidden_zero = omega arith;
  type_low = omega arith;
  type_high = omega arith;
}

h264_packets_to_annex_b-pack_example :
    h264_packets_to_annex_b (carried sps ∷ carried slice ∷ []) ≡ annex_b (sps ∷ slice ∷ [])
h264_packets_to_annex_b-pack_example =
    h264_packets_to_annex_b-pack (sps ∷ slice ∷ []) 9000 (carried sps ∷ carried slice ∷ [])
      (sps-IsNal, (slice-IsNal, tt)) (ap (λ t. t.0) (sym packed))

pack-Fits_run : All Fits (pack (0 ∷ 0 ∷ 1 ∷ 0x65 ∷ replicate 2000 9) 3).0
pack-Fits_run = pack-Fits (0 ∷ 0 ∷ 1 ∷ 0x65 ∷ replicate 2000 9) 3
