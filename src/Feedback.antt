-- ===== src/Feedback.antt =====
-- src/rtcp.cpp and src/rtcp.hpp, second part: the feedback messages that are built as bytes of
-- their own, NACK and PSFB, and the reader of the NACK entries.
pub mod RoundTrip
use asio_rtc.Common.{
  ℕ, zero, suc, ◌+◌, ◌-◌, ◌*◌, ◌/◌, bit_and, bit_or, u8, u16, ◌<<<◌, not, ltb, ◌==◌, if◌then◌else◌,
  List, [], ◌∷◌, ◌++◌, length, drop,
}
use asio_rtc.Binary.{Binary, peek16}
use asio_rtc.Rtcp.{rtpfb, psfb}

pub record RtcpRtpfb : Type 0 where
  pub sender_ssrc : ℕ
  pub media_ssrc : ℕ
  pub lost : List ℕ

pub record RtcpPsfb : Type 0 where
  pub fmt : ℕ
  pub sender_ssrc : ℕ
  pub media_ssrc : ℕ
  pub fci : List ℕ

-- The bits of a mask from `i` on, with `n` rounds left.
unfoldable pub blp_loop : ℕ → ℕ → ℕ → ℕ → List ℕ
blp_loop zero i pid blp = []
blp_loop (suc n) i pid blp =
    let later = blp_loop n (i + 1) pid blp in
    if not (bit_and blp (1 <<< i) == 0) then u16 (pid + i + 1) ∷ later else later

module _ (bin : Binary) where
  -- The loop over the lost numbers; the buffer was zero before.
  unfoldable pub write_lost : List ℕ → List ℕ
  write_lost [] = []
  write_lost (seq ∷ seqs) = bin.write16 seq ++ (0 ∷ 0 ∷ write_lost seqs)

  -- `rtcp_rtpfb::bytes`
  unfoldable pub rtpfb_bytes : RtcpRtpfb → List ℕ
  rtpfb_bytes fb =
      let total = 12 + length fb.lost * 4 in
      bit_or (2 <<< 6) 1 ∷ rtpfb ∷ bin.write16 (u16 (total / 4 - 1))
      ++ (bin.write32 fb.sender_ssrc ++ (bin.write32 fb.media_ssrc ++ write_lost fb.lost))

  -- `rtcp_psfb::bytes`
  unfoldable pub psfb_bytes : RtcpPsfb → List ℕ
  psfb_bytes fb =
      let total = 12 + length fb.fci in
      u8 (bit_or (2 <<< 6) fb.fmt) ∷ psfb ∷ bin.write16 (u16 (total / 4 - 1))
      ++ (bin.write32 fb.sender_ssrc ++ (bin.write32 fb.media_ssrc ++ fb.fci))

  -- The loop of `parse_nack` over the bytes that are left.
  unfoldable pub nack_loop : ℕ → List ℕ → List ℕ
  nack_loop zero rest = []
  nack_loop (suc fuel) rest =
      let pid = peek16 bin rest in
      let blp = peek16 bin (drop 2 rest) in
      let later = nack_loop fuel (drop 4 rest) in
      if ltb (length rest) 4 then [] else pid ∷ blp_loop 16 0 pid blp ++ later

  -- A round takes four bytes, so the length is enough fuel.
  unfoldable pub parse_nack : List ℕ → List ℕ
  parse_nack bytes = nack_loop (length bytes) bytes
