-- ===== src/Connection/Send.antt =====
-- src/connection_impl.cpp: `make_rtp`, `update_send_stats` and the loop of `_sender_send_loop` over the
-- payloads of a frame; the answer to a NACK in `do_on_rtp_rtcp_packet`. The clocks are arguments. What
-- is given to the SRTP transport is the result.
use asio_rtc.Common.{
  ℕ, ◌+◌, ◌-◌, ◌*◌, ◌/◌, ◌%◌, ◌^◌, bit_and, bit_or, u8, u16, u32, ◌<<<◌, ◌>>>◌, Bool, true, false,
  not, ◌&&◌, ltb, ◌==◌, if◌then◌else◌, Option, none, some, List, [], ◌∷◌, ◌++◌, length, replicate,
  byte_at, get_or, set,
}
use asio_rtc.Binary.{Binary}
use asio_rtc.Rtp.{RtpPacket, serialized_size, write_to}
use asio_rtc.Sdp.{Text, SdpExtmap}
use asio_rtc.Sdp.Text.{is_empty, equal}
use asio_rtc.Sdp.Names.{Nceq}
use asio_rtc.Transceiver.{
  HistoryEntry, RtpStream, RtpTransceiver, uri_mid, uri_rid, uri_abs_send_time, uri_transport_cc,
  is_audio,
}

-- The identifier that the other side gave to an extension, or 0.
unfoldable pub ext_id : Text → List SdpExtmap → ℕ
ext_id uri [] = 0
ext_id uri (e ∷ extmaps) = if equal e.uri uri then e.id else ext_id uri extmaps

abbrev pub one_byte_id : ℕ → Bool
one_byte_id id = ltb 0 id && ltb id 15

-- The first character of the identifier stands for all of it.
unfoldable pub mid_element : ℕ → Text → List ℕ
mid_element id mid =
    if one_byte_id id then u8 (id <<< 4) ∷ (if is_empty mid then 48 else byte_at mid 0) ∷ [] else []

unfoldable pub rid_element : ℕ → Text → List ℕ
rid_element id rid =
    if one_byte_id id && not (is_empty rid)
    then u8 (bit_or (id <<< 4) (length rid - 1)) ∷ rid
    else []

unfoldable pub abs_time_element : ℕ → ℕ → List ℕ
abs_time_element id ntp =
    let abs = if ntp == 0 then 0 else bit_and (ntp >>> 14) 0xffffff in
    if one_byte_id id
    then u8 (bit_or (id <<< 4) 2)
      ∷ bit_and (abs >>> 16) 0xff
      ∷ bit_and (abs >>> 8) 0xff
      ∷ bit_and abs 0xff
      ∷ []
    else []

unfoldable pub twcc_element : ℕ → ℕ → List ℕ
twcc_element id twcc_seq =
    if one_byte_id id
    then u8 (bit_or (id <<< 4) 1) ∷ bit_and (twcc_seq >>> 8) 0xff ∷ bit_and twcc_seq 0xff ∷ []
    else []

-- `while (ext_data.size() % 4)`
unfoldable pub fill_words : List ℕ → List ℕ
fill_words ext = ext ++ replicate ((4 - length ext % 4) % 4) 0

-- `sender._streams[0]->ntp_timestamp`; a sender that sends has a stream.
unfoldable pub first_ntp : List RtpStream → ℕ
first_ntp [] = 0
first_ntp (s ∷ streams) = s.ntp_timestamp

module _ (bin : Binary) (nceq : Nceq) where
  -- The header extensions, the transport-wide number or 0, and the member that counts these.
  unfoldable pub extensions : ℕ → RtpTransceiver → RtpStream → List ℕ × ℕ × ℕ
  extensions transport_seq t stream =
      let extmaps = t.receiver.header_extensions in
      let tcc_id = ext_id uri_transport_cc extmaps in
      let next = if one_byte_id tcc_id then u16 (transport_seq + 1) else 0 in
      (
        fill_words (
            mid_element (ext_id uri_mid extmaps) t.mid
            ++ (rid_element (ext_id uri_rid extmaps) stream.rid
                ++ ((if is_audio nceq t
                      then []
                      else abs_time_element (ext_id uri_abs_send_time extmaps)
                          (first_ntp t.sender.streams))
                    ++ twcc_element tcc_id next))),
        next,
        (if one_byte_id tcc_id then u16 (transport_seq + 1) else transport_seq),
      )

  unfoldable pub packet_of : List ℕ → ℕ → ℕ → List ℕ → ℕ → ℕ → Bool → RtpPacket
  packet_of ext pt ssrc payload timestamp seq marker = record {
    version = 2;
    padding = 0;
    extension = if length ext == 0 then 0 else 1;
    csrc_count = 0;
    marker = if marker then 1 else 0;
    payload_type = pt;
    sequence_number = seq;
    timestamp = timestamp;
    ssrc = ssrc;
    csrcs = [];
    extension_profile = if length ext == 0 then 0 else 0xbede;
    extension_data = ext;
    payload = payload;
  }

  -- `write_to` on a buffer of `serialized_size` zeros, which is long enough.
  unfoldable pub serialize : RtpPacket → List ℕ
  serialize p = elim (write_to bin p (replicate (serialized_size p) 0)) [
    | none ↦ replicate (serialized_size p) 0
    | some (size, buf) ↦ buf
  ]

  -- The packet's bytes, the transport-wide number or 0, and its counter.
  unfoldable pub make_rtp : ℕ → RtpTransceiver → RtpStream → List ℕ → ℕ → ℕ → Bool → List ℕ × ℕ × ℕ
  make_rtp transport_seq t stream payload timestamp seq marker =
      let (ext, twcc_seq, next) = extensions transport_seq t stream in
      (
        serialize (packet_of ext t.codec.payload_type stream.ssrc payload timestamp seq marker),
        twcc_seq,
        next,
      )

-- What a stream keeps of a packet: its number is used up, and the payload stands in the history.
unfoldable pub keep_payload : List ℕ → ℕ → RtpStream → RtpStream
keep_payload payload timestamp s =
    let seq = u16 (s.seq + 1) in
    record s {
      seq = seq;
      history =
          set s.history (seq % 128)
            (some (record { payload = payload; seq = seq; timestamp = timestamp }));
    }

pub record TwccSentEntry : Type 0 where
  pub transport_seq : ℕ
  pub ssrc : ℕ
  pub size : ℕ
  pub send_time : ℕ

-- The members of the connection that sending changes.
pub record SendState : Type 0 where
  pub transport_wide_seq : ℕ
  pub tx_packets : ℕ
  pub tx_bytes : ℕ
  pub twcc_sent : List (Option TwccSentEntry)

unfoldable pub note_twcc : ℕ → ℕ → ℕ → ℕ → List (Option TwccSentEntry) → List (Option TwccSentEntry)
note_twcc now twcc_seq ssrc size sent =
    if twcc_seq == 0
    then sent
    else set sent (twcc_seq % 256)
        (some (record { transport_seq = twcc_seq; ssrc = ssrc; size = size; send_time = now }))

-- `now` is the steady clock, `us` the microseconds of the other clock.
unfoldable pub update_send_stats :
    ℕ → ℕ → List ℕ → ℕ → ℕ → ℕ → SendState × RtpStream → SendState × RtpStream
update_send_stats now us payload size twcc_seq timestamp (st, s) = (
  record st {
    tx_packets = (st.tx_packets + 1) % 2 ^ 64;
    tx_bytes = (st.tx_bytes + size) % 2 ^ 64;
    twcc_sent = note_twcc now twcc_seq s.ssrc size st.twcc_sent;
  },
  record s {
    octet_count = u32 (s.octet_count + u32 (length payload));
    packet_count = u32 (s.packet_count + 1);
    ntp_timestamp = us * 65536 % 2 ^ 64 / 1000000;
    rtp_timestamp = timestamp;
  },
)

module _ (bin : Binary) (nceq : Nceq) (now us : ℕ → ℕ) where
  -- The loop over the payloads of a frame, until the transport fails; `sends` says whether it takes a
  -- packet. The clocks are given by the payloads still to come.
  unfoldable pub send_payloads :
      (List ℕ → Bool)
      → RtpTransceiver
      → ℕ
      → List (List ℕ)
      → SendState × RtpStream
      → List (List ℕ) × SendState × RtpStream
  send_payloads sends t timestamp [] (st, s) = ([], st, s)
  send_payloads sends t timestamp (payload ∷ payloads) (st, s) =
      let left = length payloads in
      let (bytes, twcc_seq, next) =
        make_rtp bin nceq st.transport_wide_seq t s payload timestamp (u16 (s.seq + 1))
          (left == 0) in
      let st' = record st { transport_wide_seq = next } in
      let s' = keep_payload payload timestamp s in
      elim (sends bytes) [
        | false ↦ (bytes ∷ [], st', s')
        | true ↦
            let (later, st'', s'') = send_payloads sends t timestamp payloads (
              update_send_stats (now left) (us left) payload (length bytes) twcc_seq timestamp
                (st', s')) in
            (bytes ∷ later, st'', s'')
      ]

module _ (bin : Binary) where
  -- The RTX packet of an entry: a header without a marker, the old number, and the payload.
  unfoldable pub rtx_bytes : RtpStream → ℕ → HistoryEntry → List ℕ
  rtx_bytes s seq e =
      0x80 ∷ s.rtx_pt ∷ bin.write16 (u16 (s.rtx_seq + 1))
      ++ (bin.write32 e.timestamp ++ (bin.write32 s.rtx_ssrc ++ (bin.write16 seq ++ e.payload)))

  -- `if (e && e->seq == seq)`
  unfoldable pub resend_entry : ℕ → RtpStream → Option HistoryEntry → Option (RtpStream × List ℕ)
  resend_entry seq s none = none
  resend_entry seq s (some e) =
      if e.seq == seq
      then some (record s { rtx_seq = u16 (s.rtx_seq + 1) }, rtx_bytes s seq e)
      else none

  unfoldable pub resend_stream : ℕ → ℕ → RtpStream → Option (RtpStream × List ℕ)
  resend_stream media_ssrc seq s =
      if not (media_ssrc == 0) && not (s.ssrc == media_ssrc)
      then none
      else resend_entry seq s (get_or s.history (seq % 128) none)

  -- The streams of a sender; the first that has the packet ends the loop.
  unfoldable pub resend_streams : ℕ → ℕ → List RtpStream → List RtpStream × List (List ℕ)
  resend_streams media_ssrc seq [] = ([], [])
  resend_streams media_ssrc seq (s ∷ streams) = elim (resend_stream media_ssrc seq s) [
    | some (s', bytes) ↦ (s' ∷ streams, bytes ∷ [])
    | none ↦ let (streams', sent) = resend_streams media_ssrc seq streams in (s ∷ streams', sent)
  ]

  unfoldable pub resend_all : ℕ → ℕ → List RtpTransceiver → List RtpTransceiver × List (List ℕ)
  resend_all media_ssrc seq [] = ([], [])
  resend_all media_ssrc seq (t ∷ transceivers) =
      let (streams, sent) = resend_streams media_ssrc seq t.sender.streams in
      let (later, sent') = resend_all media_ssrc seq transceivers in
      (record t { sender = record t.sender { streams = streams } } ∷ later, sent ++ sent')

  -- The numbers of a NACK, in their order.
  unfoldable pub answer_nack :
      ℕ → List ℕ → List RtpTransceiver → List RtpTransceiver × List (List ℕ)
  answer_nack media_ssrc [] transceivers = (transceivers, [])
  answer_nack media_ssrc (seq ∷ lost) transceivers =
      let (transceivers', sent) = resend_all media_ssrc seq transceivers in
      let (transceivers'', later) = answer_nack media_ssrc lost transceivers' in
      (transceivers'', sent ++ later)
