-- ===== src/Connection/Routed.antt =====
-- A packet finds its transceiver by the identifier in its extension.
use asio_rtc.Common.{
  ℕ, suc, ◌+◌, ◌-◌, ◌%◌, ◌^◌, ◌<◌, ◌≡◌, refl, sym, ap, ◌∙◌, Bool, true, u16, ◌==◌, ==_iff,
  if◌then◌else◌, some, List, [], ◌∷◌, ◌++◌, append_assoc, length, replicate, arith,
}
use asio_rtc.Binary.{Binary, IsBigEndian}
use asio_rtc.Rtp.{RtpPacket, parse}
use asio_rtc.Twcc.{RtpExtElement, ext_elements}
use asio_rtc.Twcc.Elements.{IsElement, element_bytes, one_element}
use asio_rtc.Sdp.Names.{Nceq}
use asio_rtc.Transceiver.{
  RtpStream, RtpTransceiver, uri_mid, uri_rid, uri_abs_send_time, uri_transport_cc, is_audio,
}
use asio_rtc.Connection.Send.{
  ext_id, one_byte_id, first_ntp, mid_element, rid_element, abs_time_element, twcc_element,
  fill_words, extensions, packet_of, make_rtp,
}
use asio_rtc.Connection.Sent.{parse-make_rtp}
use asio_rtc.Connection.Route.{Router, find_element, find_mid, receiver_by_mid, find_receiver}

abbrev mid_of : ℕ → ℕ → RtpExtElement
mid_of id c = record { id = id; length = 1; content = c ∷ [] }

mid_element_lem :
    (id c : ℕ) → 0 < id → id < 15 → mid_element id (c ∷ []) ≡ element_bytes (mid_of id c)
unfolding mid_element element_bytes
mid_element_lem id c p h = ground arith

-- The element that stands first is found.
find_element-first :
    (id c : ℕ) (ext rest : List ℕ)
    → 0 < id
    → id < 15
    → ext ≡ mid_element id (c ∷ []) ++ rest
    → find_element id (ext_elements (length ext) ext) ≡ c ∷ []
unfolding find_element
find_element-first id c ext rest p h e =
    let valid : IsElement (mid_of id c) = record {
      id_short = omega arith;
      not_nothing = omega arith;
      at_most = omega arith;
      size = refl;
    } in
    let found : id == id ≡ true = (==_iff id id).1 refl in
    let sizes : length (mid_element id (c ∷ []) ++ rest) ≡ suc (suc (length rest)) =
      rw (mid_element_lem id c p h) (unfold element_bytes in refl) in
    ap (λ l. find_element id (ext_elements (length l) l)) e
    ∙ rw
        (
          sizes,
          mid_element_lem id c p h,
          one_element (suc (length rest)) (mid_of id c) rest valid,
          found,
        )
        refl

by_mid :
    (r : Router) (pkt : RtpPacket) (id c index : ℕ)
    → r.mid_ext_id ≡ some id
    → find_element id (ext_elements (length pkt.extension_data) pkt.extension_data) ≡ c ∷ []
    → find_mid (c ∷ []) 0 r.transceivers ≡ some index
    → find_receiver r pkt ≡ some index
unfolding find_receiver receiver_by_mid
by_mid r pkt id c index agreed found known =
    rw (find_receiver, receiver_by_mid, agreed, found, known) refl

fill_words-front :
    (front back : List ℕ) → (rest : List ℕ) × (fill_words (front ++ back) ≡ front ++ rest)
unfolding fill_words
fill_words-front front back =
    let pad = replicate ((4 - length (front ++ back) % 4) % 4) 0 in
    (back ++ pad, append_assoc front back pad)

module _ {bin : Binary} (be : IsBigEndian bin) (nceq : Nceq) where
  -- The media section's identifier comes first.
  extensions-mid :
      (transport_seq : ℕ) (t : RtpTransceiver) (s : RtpStream)
      → (rest : List ℕ) × ((extensions bin nceq transport_seq t s).0
          ≡ mid_element (ext_id uri_mid t.receiver.header_extensions) t.mid ++ rest)
  unfolding extensions
  extensions-mid transport_seq t s =
      let extmaps = t.receiver.header_extensions in
      let tcc_id = ext_id uri_transport_cc extmaps in
      let next = if one_byte_id tcc_id then u16 (transport_seq + 1) else 0 in
      let time = abs_time_element (ext_id uri_abs_send_time extmaps) (first_ntp t.sender.streams) in
      fill_words-front (mid_element (ext_id uri_mid extmaps) t.mid) (
        rid_element (ext_id uri_rid extmaps) s.rid
        ++ ((if is_audio nceq t then [] else time) ++ twcc_element tcc_id next))

  -- A packet that is sent for a media section whose identifier is one character, with an identifier
  -- from 1 to 14 for the extension, reaches the first transceiver of this section on the other
  -- side, if there is one, from whatever source and whatever other extensions it has.
  pub find_receiver-make_rtp :
      (transport_seq : ℕ) (t : RtpTransceiver) (s : RtpStream) (payload : List ℕ)
      (timestamp seq : ℕ) (marker : Bool) (r : Router) (c index : ℕ)
      → length s.rid < 2 ^ 16
      → t.codec.payload_type < 128
      → s.ssrc < 2 ^ 32
      → timestamp < 2 ^ 32
      → seq < 2 ^ 16
      → t.mid ≡ c ∷ []
      → 0 < ext_id uri_mid t.receiver.header_extensions
      → ext_id uri_mid t.receiver.header_extensions < 15
      → r.mid_ext_id ≡ some (ext_id uri_mid t.receiver.header_extensions)
      → find_mid t.mid 0 r.transceivers ≡ some index
      → (pkt : RtpPacket) × (parse bin
            (make_rtp bin nceq transport_seq t s payload timestamp seq marker).0
          ≡ some pkt)
        × (find_receiver r pkt ≡ some index)
  unfolding packet_of
  find_receiver-make_rtp transport_seq t s payload timestamp seq marker r c index hl hp hr ht hs one
        low high agreed known =
      let id = ext_id uri_mid t.receiver.header_extensions in
      let ext = (extensions bin nceq transport_seq t s).0 in
      let (rest, front) = extensions-mid transport_seq t s in
      let first : ext ≡ mid_element id (c ∷ []) ++ rest =
        front ∙ ap (λ m. mid_element id m ++ rest) one in
      let found : find_element id (ext_elements (length ext) ext) ≡ c ∷ [] =
        find_element-first id c ext rest low high first in
      let known' : find_mid (c ∷ []) 0 r.transceivers ≡ some index =
        ap (λ m. find_mid m 0 r.transceivers) (sym one) ∙ known in
      (
        packet_of bin nceq ext t.codec.payload_type s.ssrc payload timestamp seq marker,
        parse-make_rtp be nceq transport_seq t s payload timestamp seq marker hl hp hr ht hs,
        by_mid r _ id c index agreed found known',
      )
