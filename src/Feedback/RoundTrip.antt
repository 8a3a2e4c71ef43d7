-- ===== src/Feedback/RoundTrip.antt =====
-- A NACK that was built is parsed to the numbers it asks for.
use asio_rtc.Common.{
  ℕ, zero, suc, ◌+◌, ◌-◌, ◌*◌, ◌/◌, ◌%◌, ◌^◌, ◌<◌, ◌≤◌, ◌≡◌, refl, some, List, [], ◌∷◌, ◌++◌,
  length, take-all, All, arith, u16, ◌<<<◌,
}
use asio_rtc.Common.Bits.{zero-bit_and}
use asio_rtc.Binary.{Binary, IsBigEndian}
use asio_rtc.Binary.Laws.{length-write32-append}
use asio_rtc.Rtp.Padding.{strip_padding-absent}
use asio_rtc.Rtcp.{
  RtcpPacket, parse, parse_header, parse_body, parse_feedback, parse_tail, stated_size,
}
use asio_rtc.Feedback.{RtcpRtpfb, blp_loop, write_lost, rtpfb_bytes, nack_loop, parse_nack}

no_mask : (n i pid : ℕ) → blp_loop n i pid 0 ≡ []
unfolding blp_loop
no_mask zero i pid = refl
no_mask (suc n) i pid = simp (zero-bit_and (1 <<< i), no_mask n (i + 1) pid)

module _ {bin : Binary} (be : IsBigEndian bin) where
  length-write_lost : (seqs : List ℕ) → length (write_lost bin seqs) ≡ length seqs * 4
  unfolding write_lost
  length-write_lost [] = refl
  length-write_lost (seq ∷ seqs) = simp be.write16_lem (omega (arith, length-write_lost seqs))

  nack_loop-write_lost :
      (fuel : ℕ) (seqs : List ℕ)
      → length seqs ≤ fuel
      → All (λ seq. seq < 2 ^ 16) seqs
      → nack_loop bin fuel (write_lost bin seqs) ≡ seqs
  unfolding nack_loop write_lost
  nack_loop-write_lost zero [] h v = refl
  nack_loop-write_lost (suc fuel) [] h v = refl
  nack_loop-write_lost zero (seq ∷ seqs) h v = absurd (omega arith)
  nack_loop-write_lost (suc fuel) (seq ∷ seqs) h v =
      let back : seq / 2 ^ 8 % 256 * 256 + seq % 256 ≡ seq = omega (arith, v.0) in
      simp (be.write16_lem, be.read16_lem)
        (simp (back, no_mask 16 0 seq, nack_loop-write_lost fuel seqs (omega arith) v.1)
          (ground arith))

  -- What `parse` makes of a feedback message of `w + 1` words.
  abbrev feedback_packet : ℕ → List ℕ → RtcpPacket
  feedback_packet media_ssrc fci = record {
    version = 2;
    padding = 0;
    report_count = 1;
    packet_type = 205;
    ssrc = 0;
    media_ssrc = media_ssrc;
    ntp_timestamp = 0;
    rtp_timestamp = 0;
    sender_packet_count = 0;
    sender_octet_count = 0;
    blocks = [];
    payload = fci;
  }

  parse_feedback-write :
      (sender media : ℕ) (fci : List ℕ)
      → media < 2 ^ 32
      → parse_feedback bin (feedback_packet 0 []) (bin.write32 sender ++ (bin.write32 media ++ fci))
        ≡ some (feedback_packet media fci)
  unfolding parse_feedback parse_tail
  parse_feedback-write sender media fci hm =
      let back : (((media / 2 ^ 24 % 256) * 256 + media / 2 ^ 16 % 256) * 256 + media / 2 ^ 8 % 256)
              * 256
            + media % 256
          ≡ media =
        omega arith in
      simp (be.write32_lem, be.read32_lem, strip_padding-absent fci) (simp back (ground arith))

  parse-message :
      (w sender media : ℕ) (fci : List ℕ)
      → w < 2 ^ 16
      → media < 2 ^ 32
      → (w + 1) * 4 ≡ 12 + length fci
      → parse bin (129 ∷ 205 ∷ bin.write16 w ++ (bin.write32 sender ++ (bin.write32 media ++ fci)))
        ≡ some (feedback_packet media fci)
  unfolding parse stated_size parse_header parse_body
  parse-message w sender media fci hw hm e =
      let body : List ℕ = bin.write32 sender ++ (bin.write32 media ++ fci) in
      let size : (w / 2 ^ 8 % 256 * 256 + w % 256 + 1) * 4 ≡ 12 + length fci = omega arith in
      let room : length body ≡ 8 + length fci = omega (
        arith,
        length-write32-append be sender (bin.write32 media ++ fci),
        length-write32-append be media fci,
      ) in
      simp (be.write16_lem, be.read16_lem)
        (simp
          (
            size,
            take-all (12 + length fci - 4) body (omega (arith, room)),
            parse_feedback-write sender media fci hm,
          )
          (ground (arith, room)))

  -- The bytes of a NACK for fewer than 2^16 - 2 numbers are parsed to a packet for the same media
  -- source whose payload `parse_nack` reads as the same numbers in the same order.
  pub parse-rtpfb_bytes :
      (fb : RtcpRtpfb)
      → fb.media_ssrc < 2 ^ 32
      → All (λ seq. seq < 2 ^ 16) fb.lost
      → length fb.lost + 2 < 2 ^ 16
      → (p : RtcpPacket) × (parse bin (rtpfb_bytes bin fb) ≡ some p)
        × (p.media_ssrc ≡ fb.media_ssrc)
        × (parse_nack bin p.payload ≡ fb.lost)
  unfolding rtpfb_bytes parse_nack
  parse-rtpfb_bytes fb hm hl hn =
      let words : u16 ((12 + length fb.lost * 4) / 4 - 1) ≡ length fb.lost + 2 = omega arith in
      (
        feedback_packet fb.media_ssrc (write_lost bin fb.lost),
        rw words (
            parse-message (length fb.lost + 2) fb.sender_ssrc fb.media_ssrc (write_lost bin fb.lost)
              hn hm (omega (arith, length-write_lost fb.lost))),
        refl,
        nack_loop-write_lost (length (write_lost bin fb.lost)) fb.lost
            (omega (arith, length-write_lost fb.lost)) hl,
      )
