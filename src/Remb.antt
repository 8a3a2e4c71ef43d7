-- ===== src/Remb.antt =====
-- src/rtcp.cpp: the bitrate estimate of a REMB message. The loops over the sources are those over
-- the contributing sources in Rtp.antt.
pub mod RoundTrip
use asio_rtc.Common.{
  ℕ, zero, suc, ◌+◌, ◌-◌, ◌*◌, ◌/◌, ◌%◌, ◌^◌, min, bit_and, bit_or, u8, u32, ◌<<<◌, ◌>>>◌, Bool,
  not, ◌&&◌, ltb, ◌==◌, if◌then◌else◌, List, [], ◌∷◌, ◌++◌, length, drop, byte_at,
}
use asio_rtc.Binary.{Binary}
use asio_rtc.Rtp.{read_csrcs, write_csrcs}

-- `while (bitrate > 0x3FFFF)`; 32 halvings bring any `uint32_t` to zero.
unfoldable pub scale : ℕ → ℕ → ℕ → ℕ × ℕ
scale zero bitrate exp = (bitrate, exp)
scale (suc fuel) bitrate exp =
    let later = scale fuel (bitrate / 2) (u8 (exp + 1)) in
    if ltb 0x3ffff bitrate then later else (bitrate, exp)

module _ (bin : Binary) where
  unfoldable pub pack_remb : ℕ → List ℕ → List ℕ
  pack_remb bitrate ssrcs =
      let (scaled, exp) = scale 32 bitrate 0 in
      let mantissa = bit_and scaled 0x3ffff in
      82
      ∷ 69
      ∷ 77
      ∷ 66
      ∷ u8 (length ssrcs)
      ∷ bit_or (u8 (exp <<< 2)) (u8 (bit_and (mantissa >>> 16) 0x03))
      ∷ u8 (bit_and (mantissa >>> 8) 0xff)
      ∷ u8 (bit_and mantissa 0xff)
      ∷ write_csrcs bin ssrcs

  -- The loop ends with the count or where no whole number is left. A shift by 32 or more, which C++
  -- leaves open, is 0 here.
  unfoldable pub parse_remb : List ℕ → ℕ × List ℕ
  parse_remb bytes =
      let exp = bit_and (byte_at bytes 5 >>> 2) 0x3f in
      let mantissa =
        bit_or (bit_or (bit_and (byte_at bytes 5) 0x03 <<< 16) (byte_at bytes 6 <<< 8))
          (byte_at bytes 7) in
      let rest = drop 8 bytes in
      if ltb (length bytes) 8
      then (0, [])
      else if not (
          byte_at bytes 0 == 82
          && (byte_at bytes 1 == 69 && (byte_at bytes 2 == 77 && byte_at bytes 3 == 66)))
      then (0, [])
      else (u32 (mantissa <<< exp), read_csrcs bin (min (byte_at bytes 4) (length rest / 4)) rest)
