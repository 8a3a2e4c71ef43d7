-- ===== src/Connection/Sent.antt =====
-- The packets that a sender makes of a frame's payloads, as they parse.
use asio_rtc.Common.{
  ℕ, suc, ◌+◌, ◌-◌, ◌%◌, ◌^◌, ◌<◌, ◌≤◌, ◌≡◌, refl, sym, ap, ◌∙◌, ◌⊎◌, inl, inr, u16, Bool, true,
  ◌==◌, if◌then◌else◌, some, List, [], ◌∷◌, ◌++◌, map, length, get_or, none, length-append,
  length-replicate, replicate, take-all, arith,
}
use asio_rtc.Binary.{Binary, IsBigEndian}
use asio_rtc.Rtp.{RtpPacket, parse, serialized_size}
use asio_rtc.Rtp.Valid.{IsValid}
use asio_rtc.Rtp.RoundTrip.{parse-write_to}
use asio_rtc.Sdp.{Text}
use asio_rtc.Sdp.Names.{Nceq}
use asio_rtc.Transceiver.{
  RtpStream, RtpTransceiver, uri_mid, uri_rid, uri_abs_send_time, uri_transport_cc, is_audio,
}
use asio_rtc.Connection.Resend.{IsStream, keep_payload-IsStream, keep_all, history-keep_all}
use asio_rtc.Connection.Send.{
  SendState, ext_id, one_byte_id, first_ntp, mid_element, rid_element, abs_time_element,
  twcc_element, fill_words, extensions, packet_of, serialize, make_rtp, keep_payload,
  update_send_stats, send_payloads,
}

length-mid_element : (id : ℕ) (mid : Text) → length (mid_element id mid) ≤ 2
unfolding mid_element
length-mid_element id mid = ground arith

length-rid_element : (id : ℕ) (rid : Text) → length (rid_element id rid) ≤ 1 + length rid
unfolding rid_element
length-rid_element id rid = ground arith

length-abs_time_element : (id ntp : ℕ) → length (abs_time_element id ntp) ≤ 4
unfolding abs_time_element
length-abs_time_element id ntp = ground arith

length-twcc_element : (id seq : ℕ) → length (twcc_element id seq) ≤ 3
unfolding twcc_element
length-twcc_element id seq = ground arith

length-fill_words :
    (ext : List ℕ) → (length (fill_words ext) % 4 ≡ 0) × (length (fill_words ext) ≤ length ext + 3)
unfolding fill_words
length-fill_words ext =
    let pad = (4 - length ext % 4) % 4 in
    let l : length (ext ++ replicate pad 0) ≡ length ext + pad =
      length-append ext (replicate pad 0) ∙ ap (λ n. length ext + n) (length-replicate pad 0) in
    (omega (arith, l), omega (arith, l))

extension_or_none :
    (ext : List ℕ)
    → (◌≡◌ {A = ℕ} (if length ext == 0 then 0 else 1) 1)
      ⊎ ((◌≡◌ {A = ℕ} (if length ext == 0 then 0 else 0xbede) 0) × (ext ≡ []))
extension_or_none [] = inr (refl, refl)
extension_or_none (x ∷ ext) = inl (ground arith)

length-four :
    (a b c d : List ℕ)
    → length (a ++ (b ++ (c ++ d))) ≡ length a + (length b + (length c + length d))
length-four a b c d =
    omega (arith, length-append a (b ++ (c ++ d)), length-append b (c ++ d), length-append c d)

module _ (bin : Binary) (nceq : Nceq) where
  packet_of-IsValid :
      (ext : List ℕ) (pt ssrc : ℕ) (payload : List ℕ) (timestamp seq : ℕ) (marker : Bool)
      → length ext % 4 ≡ 0
      → length ext < 2 ^ 18
      → pt < 128
      → ssrc < 2 ^ 32
      → timestamp < 2 ^ 32
      → seq < 2 ^ 16
      → IsValid (packet_of bin nceq ext pt ssrc payload timestamp seq marker)
  unfolding packet_of
  packet_of-IsValid ext pt ssrc payload timestamp seq marker hw he hp hr ht hs = record {
    version_two = refl;
    padding_flag = omega arith;
    extension_flag = ground arith;
    sources = refl;
    few_sources = omega arith;
    marker_flag = ground arith;
    seven_bits = hp;
    sequence_fits = hs;
    timestamp_fits = ht;
    ssrc_fits = hr;
    csrcs_fit = tt;
    profile_fits = ground arith;
    whole_words = hw;
    words_fit = omega arith;
    no_extension = extension_or_none ext;
  }

  length-extensions :
      (transport_seq : ℕ) (t : RtpTransceiver) (s : RtpStream)
      → (length (extensions bin nceq transport_seq t s).0 % 4 ≡ 0)
        × (length (extensions bin nceq transport_seq t s).0 ≤ length s.rid + 13)
  unfolding extensions
  length-extensions transport_seq t s =
      let extmaps = t.receiver.header_extensions in
      let tcc_id = ext_id uri_transport_cc extmaps in
      let next = if one_byte_id tcc_id then u16 (transport_seq + 1) else 0 in
      let a = mid_element (ext_id uri_mid extmaps) t.mid in
      let b = rid_element (ext_id uri_rid extmaps) s.rid in
      let time = abs_time_element (ext_id uri_abs_send_time extmaps) (first_ntp t.sender.streams) in
      let c = if is_audio nceq t then [] else time in
      let d = twcc_element tcc_id next in
      let few : length c ≤ 4 = ground (
        arith,
        length-abs_time_element (ext_id uri_abs_send_time extmaps) (first_ntp t.sender.streams),
      ) in
      let (whole, bounded) = length-fill_words (a ++ (b ++ (c ++ d))) in
      (
        whole,
        omega (
          arith,
          bounded,
          length-four a b c d,
          length-mid_element (ext_id uri_mid extmaps) t.mid,
          length-rid_element (ext_id uri_rid extmaps) s.rid,
          few,
          length-twcc_element tcc_id next,
        ),
      )

module _ {bin : Binary} (be : IsBigEndian bin) (nceq : Nceq) where
  -- A buffer that `write_to` fills as a whole parses to the packet.
  parse-serialize : (p : RtpPacket) → IsValid p → parse bin (serialize bin nceq p) ≡ some p
  unfolding serialize
  parse-serialize p v =
      let buf = replicate (serialized_size p) 0 in
      let l : length buf ≡ serialized_size p = length-replicate (serialized_size p) 0 in
      let (out, stored, size, parsed) = parse-write_to be {p = p} buf v (omega (arith, l)) in
      rw (serialize, stored)
        (ap (λ b. parse bin b) (sym (take-all (serialized_size p) out (omega (arith, size, l))))
          ∙ parsed)

  -- A made packet parses to its parts, whatever extensions were negotiated.
  pub parse-make_rtp :
      (transport_seq : ℕ) (t : RtpTransceiver) (s : RtpStream) (payload : List ℕ)
      (timestamp seq : ℕ) (marker : Bool)
      → length s.rid < 2 ^ 16
      → t.codec.payload_type < 128
      → s.ssrc < 2 ^ 32
      → timestamp < 2 ^ 32
      → seq < 2 ^ 16
      → parse bin (make_rtp bin nceq transport_seq t s payload timestamp seq marker).0
        ≡ some (
            packet_of bin nceq
              (extensions bin nceq transport_seq t s).0
              t.codec.payload_type
              s.ssrc
              payload
              timestamp
              seq
              marker)
  unfolding make_rtp
  parse-make_rtp transport_seq t s payload timestamp seq marker hl hp hr ht hs =
      let ext = (extensions bin nceq transport_seq t s).0 in
      let (whole, few) = length-extensions bin nceq transport_seq t s in
      parse-serialize
        (packet_of bin nceq ext t.codec.payload_type s.ssrc payload timestamp seq marker)
        (packet_of-IsValid bin nceq ext t.codec.payload_type s.ssrc payload timestamp seq marker
          whole (omega (arith, few)) hp hr ht hs)

-- A packet for every payload, in their order and with the next numbers; all have the same source,
-- type and time stamp, and the last of them, and no other, has the marker.
unfoldable pub AreSent : Binary → RtpStream → ℕ → ℕ → ℕ → List (List ℕ) → List (List ℕ) → Type 0
AreSent bin s pt timestamp seq [] [] = Unit
AreSent bin s pt timestamp seq [] (b ∷ packets) = ⊥
AreSent bin s pt timestamp seq (p ∷ payloads) [] = ⊥
AreSent bin s pt timestamp seq (p ∷ payloads) (b ∷ packets) =
    ((pkt : RtpPacket) × (parse bin b ≡ some pkt)
      × (pkt.payload ≡ p)
      × (pkt.sequence_number ≡ u16 (seq + 1))
      × (pkt.timestamp ≡ timestamp)
      × (pkt.ssrc ≡ s.ssrc)
      × (pkt.payload_type ≡ pt)
      × (pkt.marker ≡ (if length payloads == 0 then 1 else 0)))
    × AreSent bin s pt timestamp (u16 (seq + 1)) payloads packets

module _ {bin : Binary} (be : IsBigEndian bin) (nceq : Nceq) (now us : ℕ → ℕ) where
  sent_from :
      (t : RtpTransceiver) (timestamp : ℕ) (s₀ : RtpStream) (payloads : List (List ℕ))
      (st : SendState) (s : RtpStream)
      → length s₀.rid < 2 ^ 16
      → t.codec.payload_type < 128
      → s₀.ssrc < 2 ^ 32
      → timestamp < 2 ^ 32
      → s.ssrc ≡ s₀.ssrc
      → s.rid ≡ s₀.rid
      → AreSent bin s₀ t.codec.payload_type timestamp s.seq payloads
          (send_payloads bin nceq now us (λ bytes. true) t timestamp payloads (st, s)).0
  unfolding AreSent send_payloads keep_payload update_send_stats packet_of
  sent_from t timestamp s₀ [] st s hl hp hr ht er ei = tt
  sent_from t timestamp s₀ (p ∷ payloads) st s hl hp hr ht er ei =
      let seq = u16 (s.seq + 1) in
      let marker = length payloads == 0 in
      let pkt =
        packet_of bin nceq (extensions bin nceq st.transport_wide_seq t s).0 t.codec.payload_type
          s.ssrc p timestamp seq marker in
      let parsed : parse bin (make_rtp bin nceq st.transport_wide_seq t s p timestamp seq marker).0
          ≡ some pkt =
        parse-make_rtp be nceq st.transport_wide_seq t s p timestamp seq marker (rw ei hl) hp
          (rw er hr) ht (omega arith) in
      (
        (pkt, parsed, refl, refl, refl, er, refl, refl),
        sent_from t timestamp s₀ payloads _ _ hl hp hr ht er ei,
      )

  -- What is kept does not depend on the counts, which sending changes in between.
  keep_all_alike :
      (ps : List (List ℕ × ℕ)) (s s' : RtpStream)
      → s.seq ≡ s'.seq
      → s.history ≡ s'.history
      → (keep_all ps s).history ≡ (keep_all ps s').history
  unfolding keep_all keep_payload
  keep_all_alike [] s s' e h = h
  keep_all_alike ((p, timestamp) ∷ ps) s s' e h =
      keep_all_alike ps (keep_payload p timestamp s) (keep_payload p timestamp s') (rw e refl)
        (rw (e, h) refl)

  kept_from :
      (t : RtpTransceiver) (timestamp : ℕ) (payloads : List (List ℕ)) (st : SendState)
      (s : RtpStream)
      → (send_payloads bin nceq now us (λ bytes. true) t timestamp payloads (st, s)).2.history
        ≡ (keep_all (map (λ p. (p, timestamp)) payloads) s).history
  unfolding send_payloads update_send_stats keep_payload keep_all
  kept_from t timestamp [] st s = refl
  kept_from t timestamp (p ∷ payloads) st s =
      kept_from t timestamp payloads _ _
      ∙ keep_all_alike (map (λ p. (p, timestamp)) payloads) _ (keep_payload p timestamp s) refl refl

  length-timed :
      (timestamp : ℕ) (ps : List (List ℕ))
      → length {A = List ℕ × ℕ} (map (λ p. (p, timestamp)) ps) ≡ length ps
  length-timed timestamp [] = refl
  length-timed timestamp (p ∷ ps) = ap suc (length-timed timestamp ps)

  -- The payload of a frame that has fewer than 128 behind it is kept in the place of its number `n`.
  kept_parts :
      (before : List (List ℕ)) (p : List ℕ) (after : List (List ℕ)) (timestamp n : ℕ)
      (s : RtpStream)
      → IsStream s
      → length after < 128
      → n ≡ u16 (s.seq + length before + 1)
      → get_or (keep_all (map (λ x. (x, timestamp)) (before ++ p ∷ after)) s).history (n % 128) none
        ≡ some (record { payload = p; seq = n; timestamp = timestamp })
  unfolding keep_all
  kept_parts [] p after timestamp n s v few e =
      let first : n ≡ u16 (s.seq + 1) = omega (arith, e) in
      rw first (
        history-keep_all p timestamp (map (λ x. (x, timestamp)) after) s v
          (omega (arith, length-timed timestamp after)))
  kept_parts (b ∷ before) p after timestamp n s v few e =
      let s' = keep_payload b timestamp s in
      let next : s'.seq ≡ u16 (s.seq + 1) = unfold keep_payload in refl in
      kept_parts before p after timestamp n s' (keep_payload-IsStream b timestamp s v) few
        (omega (arith, e, next))

  -- A frame's payloads with fewer than 128 behind the payload `p`. While the transport takes them,
  -- the packets parse to the payloads in their order, with the next numbers and the frame's time
  -- stamp, and a marker on the last one alone, whatever extensions were negotiated; and afterwards
  -- the place of p's number in the history holds p, with this number and the time stamp. The stream's
  -- number, its history, its name and its source, the payload type and the time stamp fit.
  pub send_payloads-AreSent :
      (t : RtpTransceiver) (timestamp : ℕ) (before : List (List ℕ)) (p : List ℕ)
      (after : List (List ℕ)) (st : SendState) (s : RtpStream)
      → IsStream s
      → length after < 128
      → length s.rid < 2 ^ 16
      → t.codec.payload_type < 128
      → s.ssrc < 2 ^ 32
      → timestamp < 2 ^ 32
      → let (packets, st', s') =
          send_payloads bin nceq now us (λ bytes. true) t timestamp (before ++ p ∷ after) (st, s) in
        let seq = u16 (s.seq + length before + 1) in
        AreSent bin s t.codec.payload_type timestamp s.seq (before ++ p ∷ after) packets
        × (get_or s'.history (seq % 128) none
            ≡ some (record { payload = p; seq = seq; timestamp = timestamp }))
  send_payloads-AreSent t timestamp before p after st s v few hl hp hr ht = (
    sent_from t timestamp s (before ++ p ∷ after) st s hl hp hr ht refl refl,
    ap (λ h. get_or h (u16 (s.seq + length before + 1) % 128) none)
          (kept_from t timestamp (before ++ p ∷ after) st s)
        ∙ kept_parts before p after timestamp _ s v few refl,
  )
