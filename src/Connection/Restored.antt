-- ===== src/Connection/Restored.antt =====
-- A payload that is sent again arrives as it was, but for its marker and its extensions.
use asio_rtc.Common.{
  ℕ, ◌+◌, ◌^◌, ◌<◌, ◌≡◌, refl, ap, ◌∙◌, inr, bit_and, bit_or, u8, u16, ◌<<<◌, Bool, true, false,
  not, ◌&&◌, leb, ◌==◌, ==_iff, some, List, [], ◌++◌, append_assoc, append-nil, length, arith,
}
use asio_rtc.Binary.{Binary, IsBigEndian}
use asio_rtc.Binary.Laws.{peek16-write16, drop-write16, length-write16-append}
use asio_rtc.Rtp.{RtpPacket, parse, write_header, write_csrcs, write_extension, write_padding}
use asio_rtc.Rtp.Valid.{IsValid}
use asio_rtc.Rtp.Header.{marker_as_sum}
use asio_rtc.Rtp.RoundTrip.{image, image_parts, parse-image}
use asio_rtc.Sdp.Names.{Nceq}
use asio_rtc.Transceiver.{HistoryEntry, RtpStream, RtpTransceiver}
use asio_rtc.Connection.Sent.{parse-make_rtp}
use asio_rtc.Connection.Send.{
  extensions, packet_of, make_rtp, keep_payload, rtx_bytes, resend_entry, resend_stream,
}
use asio_rtc.Connection.Route.{Router, find_key, restore_packet, rewrite_rtx_packet}
use asio_rtc.Connection.Resend.{IsStream, keep_all, keep_all_same, history-keep_all}

-- A packet without sources, extensions and padding.
abbrev plain : ℕ → ℕ → ℕ → ℕ → List ℕ → RtpPacket
plain pt seq timestamp ssrc payload = record {
  version = 2;
  padding = 0;
  extension = 0;
  csrc_count = 0;
  marker = 0;
  payload_type = pt;
  sequence_number = seq;
  timestamp = timestamp;
  ssrc = ssrc;
  csrcs = [];
  extension_profile = 0;
  extension_data = [];
  payload = payload;
}

plain-IsValid :
    (pt seq timestamp ssrc : ℕ) (payload : List ℕ)
    → pt < 128
    → seq < 2 ^ 16
    → timestamp < 2 ^ 32
    → ssrc < 2 ^ 32
    → IsValid (plain pt seq timestamp ssrc payload)
plain-IsValid pt seq timestamp ssrc payload hp hs ht hr = record {
  version_two = refl;
  padding_flag = omega arith;
  extension_flag = omega arith;
  sources = refl;
  few_sources = omega arith;
  marker_flag = omega arith;
  seven_bits = hp;
  sequence_fits = hs;
  timestamp_fits = ht;
  ssrc_fits = hr;
  csrcs_fit = tt;
  profile_fits = omega arith;
  whole_words = refl;
  words_fit = omega arith;
  no_extension = inr (refl, refl);
}

and_false : (b : Bool) → b && false ≡ false
and_false true = refl
and_false false = refl

module _ {bin : Binary} (be : IsBigEndian bin) where
  -- The packet that the bytes of an entry are.
  rtx_bytes-image :
      (s : RtpStream) (seq : ℕ) (e : HistoryEntry)
      → s.rtx_pt < 128
      → rtx_bytes bin s seq e
        ≡ image be (
            plain s.rtx_pt
              (u16 (s.rtx_seq + 1))
              e.timestamp
              s.rtx_ssrc
              (bin.write16 seq ++ e.payload))
  unfolding rtx_bytes write_header write_csrcs write_extension write_padding
  rtx_bytes-image s seq e h =
      let second : u8 (bit_or (0 <<< 7) (bit_and s.rtx_pt 0x7f)) ≡ s.rtx_pt =
        marker_as_sum 0 s.rtx_pt (omega arith) h ∙ omega arith in
      rw
        (image_parts be (
          plain s.rtx_pt (u16 (s.rtx_seq + 1)) e.timestamp s.rtx_ssrc
            (bin.write16 seq ++ e.payload)))
        (rw second (simp (append_assoc, append-nil)))

  parse-rtx_bytes :
      (s : RtpStream) (seq : ℕ) (e : HistoryEntry)
      → s.rtx_pt < 128
      → s.rtx_ssrc < 2 ^ 32
      → e.timestamp < 2 ^ 32
      → parse bin (rtx_bytes bin s seq e)
        ≡ some (
            plain s.rtx_pt
              (u16 (s.rtx_seq + 1))
              e.timestamp
              s.rtx_ssrc
              (bin.write16 seq ++ e.payload))
  parse-rtx_bytes s seq e h hr ht =
      ap (λ (l : List ℕ). parse bin l) (rtx_bytes-image s seq e h)
      ∙ parse-image be _ (
          plain-IsValid s.rtx_pt (u16 (s.rtx_seq + 1)) e.timestamp s.rtx_ssrc _ h (omega arith) ht
            hr)

  rewrite-plain :
      (r : Router) (pt seq rtx_seq timestamp ssrc rtx_pt rtx_ssrc : ℕ) (payload : List ℕ)
      → 0 < length payload
      → seq < 2 ^ 16
      → find_key rtx_pt r.rtx_pt_to_pt ≡ some pt
      → find_key rtx_ssrc r.rtx_ssrc_to_ssrc ≡ some ssrc
      → rewrite_rtx_packet bin r
          (plain rtx_pt rtx_seq timestamp rtx_ssrc (bin.write16 seq ++ payload))
        ≡ plain pt seq timestamp ssrc payload
  unfolding rewrite_rtx_packet restore_packet
  rewrite-plain r pt seq rtx_seq timestamp ssrc rtx_pt rtx_ssrc payload some_byte hs kp ks =
      let long : leb (length (bin.write16 seq ++ payload)) 2 ≡ false =
        ground (arith, length-write16-append be seq payload) in
      rw (long, kp, ks, peek16-write16 be seq payload hs, drop-write16 be seq payload) refl

  -- A payload of the history, asked for by its number, comes back as a plain packet.
  resend_plain :
      (s : RtpStream) (payload : List ℕ) (timestamp : ℕ) (later : List (List ℕ × ℕ)) (r : Router)
      (pt ssrc : ℕ)
      → IsStream s
      → length later < 128
      → 0 < length payload
      → timestamp < 2 ^ 32
      → s.rtx_pt < 128
      → s.rtx_ssrc < 2 ^ 32
      → find_key s.rtx_pt r.rtx_pt_to_pt ≡ some pt
      → find_key s.rtx_ssrc r.rtx_ssrc_to_ssrc ≡ some ssrc
      → let seq = u16 (s.seq + 1) in
        (s' : RtpStream) × (bytes : List ℕ) × (pkt : RtpPacket) × (resend_stream bin s.ssrc seq
            (keep_all later (keep_payload payload timestamp s))
          ≡ some (s', bytes))
        × (parse bin bytes ≡ some pkt)
        × (rewrite_rtx_packet bin r pkt ≡ plain pt seq timestamp ssrc payload)
  unfolding resend_stream resend_entry
  resend_plain s payload timestamp later r pt ssrc v few some_byte ht hp hr kp ks =
      let seq = u16 (s.seq + 1) in
      let after = keep_all later (keep_payload payload timestamp s) in
      let same = keep_all_same later (keep_payload payload timestamp s) in
      let e : HistoryEntry = record { payload = payload; seq = seq; timestamp = timestamp } in
      let same_ssrc : after.ssrc ≡ s.ssrc = same.0 ∙ (unfold keep_payload in refl) in
      let same_rtx : after.rtx_ssrc ≡ s.rtx_ssrc = same.1 ∙ (unfold keep_payload in refl) in
      let same_pt : after.rtx_pt ≡ s.rtx_pt = same.2 ∙ (unfold keep_payload in refl) in
      let asked : (after.ssrc == s.ssrc) ≡ true = (==_iff after.ssrc s.ssrc).1 same_ssrc in
      let kept = history-keep_all payload timestamp later s v few in
      let found : e.seq == seq ≡ true = (==_iff seq seq).1 refl in
      let sent : resend_stream bin s.ssrc seq after
          ≡ some (record after { rtx_seq = u16 (after.rtx_seq + 1) }, rtx_bytes bin after seq e) =
        rw (asked, and_false (not (s.ssrc == 0)), kept, found) refl in
      (
        record after { rtx_seq = u16 (after.rtx_seq + 1) },
        rtx_bytes bin after seq e,
        plain after.rtx_pt (u16 (after.rtx_seq + 1)) timestamp after.rtx_ssrc
            (bin.write16 seq ++ payload),
        sent,
        parse-rtx_bytes after seq e (omega arith) (omega arith) ht,
        rewrite-plain r pt seq (u16 (after.rtx_seq + 1)) timestamp ssrc after.rtx_pt after.rtx_ssrc
            payload some_byte (omega arith) (ap (λ n. find_key n r.rtx_pt_to_pt) same_pt ∙ kp)
            (ap (λ n. find_key n r.rtx_ssrc_to_ssrc) same_rtx ∙ ks),
      )

module _ {bin : Binary} (be : IsBigEndian bin) (nceq : Nceq) where
  -- A transceiver's packet for a payload, of which the stream keeps the payload, and fewer than 128
  -- others behind it: asked for by its number, the payload is sent again in a packet that parses,
  -- and that the receiving side turns into the packet that was sent, less its marker and its header
  -- extensions. The receiving side's tables lead from the stream's payload type and source for
  -- packets sent again to those of its packets. The payload has a byte, and all fields fit.
  pub resend_restored :
      (transport_seq : ℕ) (t : RtpTransceiver) (s : RtpStream) (payload : List ℕ) (timestamp : ℕ)
      (marker : Bool) (later : List (List ℕ × ℕ)) (r : Router)
      → IsStream s
      → length later < 128
      → 0 < length payload
      → length s.rid < 2 ^ 16
      → t.codec.payload_type < 128
      → s.ssrc < 2 ^ 32
      → timestamp < 2 ^ 32
      → s.rtx_pt < 128
      → s.rtx_ssrc < 2 ^ 32
      → find_key s.rtx_pt r.rtx_pt_to_pt ≡ some t.codec.payload_type
      → find_key s.rtx_ssrc r.rtx_ssrc_to_ssrc ≡ some s.ssrc
      → let seq = u16 (s.seq + 1) in
        (sent : RtpPacket) × (s' : RtpStream) × (bytes : List ℕ) × (pkt : RtpPacket) × (parse bin
            (make_rtp bin nceq transport_seq t s payload timestamp seq marker).0
          ≡ some sent)
        × (resend_stream bin s.ssrc seq (keep_all later (keep_payload payload timestamp s))
            ≡ some (s', bytes))
        × (parse bin bytes ≡ some pkt)
        × (rewrite_rtx_packet bin r pkt
            ≡ record sent { marker = 0; extension = 0; extension_profile = 0; extension_data = [] })
  unfolding packet_of
  resend_restored transport_seq t s payload timestamp marker later r v few some_byte hl hpt hs ht hp
        hr kp ks =
      let seq = u16 (s.seq + 1) in
      let ext = (extensions bin nceq transport_seq t s).0 in
      let (s', bytes, pkt, again, parsed, restored) =
        resend_plain be s payload timestamp later r t.codec.payload_type s.ssrc v few some_byte ht
          hp hr kp ks in
      (
        packet_of bin nceq ext t.codec.payload_type s.ssrc payload timestamp seq marker,
        s',
        bytes,
        pkt,
        parse-make_rtp be nceq transport_seq t s payload timestamp seq marker hl hpt hs ht
            (omega arith),
        again,
        parsed,
        restored,
      )
