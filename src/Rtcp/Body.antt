-- ===== src/Rtcp/Body.antt =====
-- What stands behind the common header, read back.
use asio_rtc.Common.{
  ℕ, true, false, ◌+◌, ◌*◌, ◌/◌, ◌%◌, ◌^◌, ◌<◌, ◌≡◌, refl, ◌∙◌, bit_and, bit_or, u32, ◌<<<◌, ◌>>>◌,
  some, List, [], ◌++◌, length, All, arith, if◌then◌else◌, inl, inr, ◌==◌, ◌||◌,
}
use asio_rtc.Common.Bits.{bit_and-mask, bit_or-eq-add}
use asio_rtc.Binary.{Binary, IsBigEndian}
use asio_rtc.Rtp.{strip_padding}
use asio_rtc.Rtcp.{
  sr, rr, rtpfb, psfb, bye, sdes, app, ReportBlock, RtcpPacket, parse_tail, parse_blocks,
  parse_reports, parse_sr, parse_rr, parse_body, write_sender, write_blocks,
}
use asio_rtc.Rtcp.Blocks.{IsBlock, parse_blocks-write_blocks}
use asio_rtc.Rtcp.Valid.{IsSender, IsReceiver, IsOpaque, IsValid}

parse_tail_lem :
    (q : RtcpPacket) (tail payload : List ℕ)
    → strip_padding q.padding tail ≡ some payload
    → parse_tail q tail ≡ some (record q { payload = payload })
unfolding parse_tail
parse_tail_lem q tail payload e = rw e

ntp_halves : (t : ℕ) → t < 2 ^ 64 → bit_or (u32 (t >>> 32) <<< 32) (u32 (bit_and t 0xffffffff)) ≡ t
ntp_halves t h = rw (bit_and-mask 32 t) (
    let low : u32 (t % 2 ^ 32) ≡ t % 2 ^ 32 = omega arith in
    let high : u32 (t >>> 32) ≡ t / 2 ^ 32 = omega arith in
    rw (low, high, bit_or-eq-add 32 (t / 2 ^ 32) (t % 2 ^ 32) (omega arith)) (omega arith))

-- The bytes of a word put together.
word :
    (v : ℕ)
    → v < 2 ^ 32
    → (((v >>> 24) % 256 * 256 + (v >>> 16) % 256) * 256 + (v >>> 8) % 256) * 256 + v % 256 ≡ v
word v h = omega arith

-- What the parser has read before the type's own part.
abbrev pub bare : RtcpPacket → RtcpPacket
bare p = record p {
  ssrc = 0;
  media_ssrc = 0;
  ntp_timestamp = 0;
  rtp_timestamp = 0;
  sender_packet_count = 0;
  sender_octet_count = 0;
  blocks = [];
  payload = [];
}

-- The body with any tail for the payload.
abbrev pub front : Binary → RtcpPacket → List ℕ → List ℕ
front bin p tail =
    (if p.packet_type == sr || p.packet_type == rr then bin.write32 p.ssrc else [])
    ++ ((if p.packet_type == sr then write_sender bin p else [])
        ++ (write_blocks bin p.blocks ++ tail))

module _ {bin : Binary} (be : IsBigEndian bin) where
  parse_reports-write_blocks :
      (q : RtcpPacket) (bs : List ReportBlock) (tail payload : List ℕ)
      → q.report_count ≡ length bs
      → All IsBlock bs
      → strip_padding q.padding tail ≡ some payload
      → parse_reports bin q (write_blocks bin bs ++ tail)
        ≡ some (record q { blocks = bs; payload = payload })
  unfolding parse_reports
  parse_reports-write_blocks q bs tail payload e v h =
      let found : parse_blocks bin q.report_count (write_blocks bin bs ++ tail) ≡ some (bs, tail) =
        rw e (parse_blocks-write_blocks be bs tail v) in
      simp (found, parse_tail_lem (record q { blocks = bs }) tail payload h)

  -- The sender's part in front of the blocks.
  parse_sr-write_sender :
      (p q : RtcpPacket) (rest : List ℕ)
      → IsSender p
      → parse_sr bin q (bin.write32 p.ssrc ++ (write_sender bin p ++ rest))
        ≡ parse_reports bin
            (record q {
              ssrc = p.ssrc;
              ntp_timestamp = p.ntp_timestamp;
              rtp_timestamp = p.rtp_timestamp;
              sender_packet_count = p.sender_packet_count;
              sender_octet_count = p.sender_octet_count;
            })
            rest
  unfolding parse_sr write_sender
  parse_sr-write_sender p q rest v =
      simp (be.write32_lem, be.read32_lem)
        (simp
          (
            word p.ssrc v.ssrc_fits,
            word p.rtp_timestamp v.rtp_fits,
            word p.sender_packet_count v.packets_fit,
            word p.sender_octet_count v.octets_fit,
            word (u32 (p.ntp_timestamp >>> 32)) (omega arith),
            word (u32 (bit_and p.ntp_timestamp 0xffffffff)) (omega arith),
            ntp_halves p.ntp_timestamp v.ntp_fits,
          )
          (ground arith))

  parse_rr-write_ssrc :
      (q : RtcpPacket) (ssrc : ℕ) (rest : List ℕ)
      → ssrc < 2 ^ 32
      → parse_rr bin q (bin.write32 ssrc ++ rest)
        ≡ parse_reports bin (record q { ssrc = ssrc }) rest
  unfolding parse_rr
  parse_rr-write_ssrc q ssrc rest h =
      simp (be.write32_lem, be.read32_lem) (simp (word ssrc h) (ground arith))

  sender_body :
      (p : RtcpPacket) (tail : List ℕ)
      → IsSender p
      → All IsBlock p.blocks
      → p.media_ssrc ≡ 0
      → strip_padding p.padding tail ≡ some p.payload
      → parse_body bin (bare p) (front bin p tail) ≡ some p
  unfolding parse_body
  sender_body p tail k v m h =
      let is_sr : (p.packet_type == sr) ≡ true = ground (arith, k.is_sr) in
      simp is_sr (
        parse_sr-write_sender p (bare p) (write_blocks bin p.blocks ++ tail) k
        ∙ (parse_reports-write_blocks _ p.blocks tail p.payload k.counted v h ∙ ground (arith, m)))

  receiver_body :
      (p : RtcpPacket) (tail : List ℕ)
      → IsReceiver p
      → All IsBlock p.blocks
      → p.media_ssrc ≡ 0
      → strip_padding p.padding tail ≡ some p.payload
      → parse_body bin (bare p) (front bin p tail) ≡ some p
  unfolding parse_body
  receiver_body p tail k v m h =
      let not_sr : (p.packet_type == sr) ≡ false = ground (arith, k.is_rr) in
      let is_rr : (p.packet_type == rr) ≡ true = ground (arith, k.is_rr) in
      simp (not_sr, is_rr)
        (parse_rr-write_ssrc (bare p) p.ssrc (write_blocks bin p.blocks ++ tail) k.ssrc_fits
          ∙ (parse_reports-write_blocks _ p.blocks tail p.payload k.counted v h
              ∙ ground (
                arith, m, k.no_info.no_ntp, k.no_info.no_rtp, k.no_info.no_packets,
                k.no_info.no_octets,
              )))

  no_write_blocks : write_blocks bin [] ≡ []
  unfolding write_blocks
  no_write_blocks = refl

  opaque_body :
      (p : RtcpPacket) (tail : List ℕ)
      → IsOpaque p
      → p.media_ssrc ≡ 0
      → strip_padding p.padding tail ≡ some p.payload
      → parse_body bin (bare p) (front bin p tail) ≡ some p
  unfolding parse_body
  opaque_body p tail k m h =
      let not_sr : (p.packet_type == sr) ≡ false = ground (arith, k.is_opaque) in
      let not_rr : (p.packet_type == rr) ≡ false = ground (arith, k.is_opaque) in
      let not_rtpfb : (p.packet_type == rtpfb) ≡ false = ground (arith, k.is_opaque) in
      let not_psfb : (p.packet_type == psfb) ≡ false = ground (arith, k.is_opaque) in
      let is_opaque : (p.packet_type == bye || (p.packet_type == sdes || p.packet_type == app))
          ≡ true =
        ground (arith, k.is_opaque) in
      let nothing : write_blocks bin p.blocks ≡ [] = rw (k.no_blocks) (no_write_blocks) in
      simp (not_sr, not_rr, not_rtpfb, not_psfb, is_opaque, nothing)
        (parse_tail_lem (bare p) tail p.payload h
          ∙ ground (
            arith, m, k.no_ssrc, k.no_blocks, k.no_info.no_ntp, k.no_info.no_rtp,
            k.no_info.no_packets, k.no_info.no_octets,
          ))

  -- The type's own part of a valid packet, in front of a tail that strips to its payload.
  pub parse_body-front :
      (p : RtcpPacket) (tail : List ℕ)
      → IsValid p
      → strip_padding p.padding tail ≡ some p.payload
      → parse_body bin (bare p) (front bin p tail) ≡ some p
  parse_body-front p tail v h = elim v.kind [
    | inl k ↦ sender_body p tail k v.blocks_fit v.no_media h
    | inr (inl k) ↦ receiver_body p tail k v.blocks_fit v.no_media h
    | inr (inr k) ↦ opaque_body p tail k v.no_media h
  ]
