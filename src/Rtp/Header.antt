-- ===== src/Rtp/Header.antt =====
-- The fixed header, read back.
use asio_rtc.Common.{
  ℕ, ◌+◌, ◌*◌, ◌/◌, ◌%◌, ◌<◌, bit_and, bit_or, u8, ◌<<<◌, ◌≡◌, true, List, [], ◌++◌, length, drop,
  arith,
}
use asio_rtc.Common.Bits.{bit_or-eq-add, bit_and-mask}
use asio_rtc.Binary.{Binary, IsBigEndian}
use asio_rtc.Rtp.{RtpPacket, is_rtp_packet, parse_header, write_header}
use asio_rtc.Rtp.Valid.{IsValid}

-- The first byte in plain arithmetic.
flags_as_sum :
    (v p x c : ℕ)
    → v < 4
    → p < 2
    → x < 2
    → c < 16
    → u8 (bit_or (v <<< 6) (bit_or (p <<< 5) (bit_or (x <<< 4) (bit_and c 0x0f))))
      ≡ v * 64 + p * 32 + x * 16 + c
flags_as_sum v p x c hv hp hx hc =
    rw
      (
        bit_and-mask 4 c,
        bit_or-eq-add 4 x (c % 16) (omega arith),
        bit_or-eq-add 5 p (x * 16 + c % 16) (omega arith),
        bit_or-eq-add 6 v (p * 32 + (x * 16 + c % 16)) (omega arith),
      )
      (omega arith)

pub marker_as_sum :
    (m t : ℕ) → m < 2 → t < 128 → u8 (bit_or (m <<< 7) (bit_and t 0x7f)) ≡ m * 128 + t
marker_as_sum m t hm ht =
    rw (bit_and-mask 7 t, bit_or-eq-add 7 m (t % 128) (omega arith)) (omega arith)

module _ {bin : Binary} (be : IsBigEndian bin) where
  pub drop-write_header :
      (p : RtpPacket) (rest : List ℕ) → drop 12 (write_header bin p ++ rest) ≡ rest
  unfolding write_header
  drop-write_header p rest = simp (be.write16_lem, be.write32_lem)

  pub length-write_header : (p : RtpPacket) → length (write_header bin p) ≡ 12
  unfolding write_header
  length-write_header p = simp (be.write16_lem, be.write32_lem)

  -- Parsing a written header gives its fields, and the defaults in the others.
  pub parse_header-write_header :
      {p : RtpPacket} (rest : List ℕ)
      → IsValid p
      → parse_header bin (write_header bin p ++ rest)
        ≡ record p { csrcs = []; extension_profile = 0; extension_data = []; payload = [] }
  unfolding parse_header write_header
  parse_header-write_header {p} rest v =
      rw
        (
          flags_as_sum p.version p.padding p.extension p.csrc_count (omega arith) v.padding_flag
              v.extension_flag v.few_sources,
          marker_as_sum p.marker p.payload_type v.marker_flag v.seven_bits,
        )
        (simp (be.write16_lem, be.write32_lem, be.read16_lem, be.read32_lem)
          (ground (
            arith,
            bit_and-mask 2 (first / 64),
            bit_and-mask 1 (first / 32),
            bit_and-mask 1 (first / 16),
            bit_and-mask 4 first,
            bit_and-mask 1 (second / 128),
            bit_and-mask 7 second,
          )))
    where
      first : ℕ
      first = p.version * 64 + p.padding * 32 + p.extension * 16 + p.csrc_count

      second : ℕ
      second = p.marker * 128 + p.payload_type

  -- A written header passes the version test.
  pub is_rtp_packet-write_header :
      (p : RtpPacket) (rest : List ℕ)
      → IsValid p
      → is_rtp_packet (write_header bin p ++ rest) ≡ true
  unfolding is_rtp_packet write_header
  is_rtp_packet-write_header p rest v =
      rw
        (flags_as_sum p.version p.padding p.extension p.csrc_count (omega arith) v.padding_flag
          v.extension_flag v.few_sources)
        (simp (be.write16_lem, be.write32_lem) (ground (arith, v.version_two)))
