-- ===== src/Tests/Sending.antt =====
-- src/connection_impl.cpp: a frame that is sent, at concrete inputs.
use asio_rtc.Common.{ℕ, ◌≡◌, refl, true, false, none, some, get_or, List, [], ◌∷◌, replicate, arith}
use asio_rtc.Tests.Fixture.{network, network-IsBigEndian}
use asio_rtc.Tests.Text.{caseless}
use asio_rtc.Rtp.{RtpPacket, parse}
use asio_rtc.Sdp.{sendrecv, SdpExtmap}
use asio_rtc.Sdp.Text.{codes, equal}
use asio_rtc.Transceiver.{RtpStream, RtpTransceiver, uri_mid, uri_transport_cc}
use asio_rtc.Connection.Send.{
  SendState, send_payloads, make_rtp, keep_payload, resend_stream, ext_id,
}
use asio_rtc.Connection.Resend.{IsStream, keep_all}
use asio_rtc.Connection.Restored.{resend_restored}
use asio_rtc.Connection.Sent.{AreSent, send_payloads-AreSent}
use asio_rtc.Connection.Route.{Router, find_key, rewrite_rtx_packet, find_mid, find_receiver}
use asio_rtc.Connection.Routed.{find_receiver-make_rtp}

abbrev extmap : ℕ → List ℕ → SdpExtmap
extmap id uri = record { id = id; direction = none; uri = uri; attributes = [] }

-- A section with one character, which has the extensions 4 and 5.
abbrev line_of : List ℕ → RtpTransceiver
line_of mid = record {
  mid = mid;
  direction = sendrecv;
  mline_index = none;
  sender = record { track = none; stopped = false; encodings = []; msids = []; streams = [] };
  receiver = record {
    track = none;
    stopped = false;
    header_extensions = extmap 5 uri_transport_cc ∷ extmap 4 uri_mid ∷ [];
    rtcp_ssrc = 0;
    ssrcs = [];
  };
  codec = record {
    payload_type = 96;
    name = codes "VP8";
    clock_rate = 90000;
    channels = none;
    params = [];
  };
  stopped = false;
}

-- The next number is 0.
abbrev last_number : RtpStream
last_number = record {
  ssrc = 11;
  rtx_ssrc = 12;
  rtx_pt = 97;
  seq = 65535;
  rtx_seq = 0;
  rid = [];
  packet_count = 0;
  octet_count = 0;
  ntp_timestamp = 0;
  rtp_timestamp = 0;
  history = replicate 128 none;
}

abbrev nothing_sent : SendState
nothing_sent = record { transport_wide_seq = 1; tx_packets = 0; tx_bytes = 0; twcc_sent = [] }

abbrev two_payloads : List (List ℕ)
two_payloads = (1 ∷ []) ∷ (2 ∷ 3 ∷ []) ∷ []

last_number-IsStream : IsStream last_number
last_number-IsStream = record { sixteen_bits = omega arith; places = refl }

send_payloads-AreSent_example :
    let (packets, st, s) =
      send_payloads network caseless
        (λ n. n)
        (λ n. n)
        (λ bytes. true)
        (line_of (codes "0"))
        7
        two_payloads
        (nothing_sent, last_number) in
    AreSent network last_number 96 7 65535 two_payloads packets
    × (get_or s.history 0 none ≡ some (record { payload = 1 ∷ []; seq = 0; timestamp = 7 }))
send_payloads-AreSent_example =
    send_payloads-AreSent network-IsBigEndian caseless (λ n. n) (λ n. n) (line_of (codes "0")) 7 []
      (1 ∷ []) ((2 ∷ 3 ∷ []) ∷ []) nothing_sent last_number last_number-IsStream (omega arith)
      (omega arith) (omega arith) (omega arith) (omega arith)

abbrev two_sections : Router
two_sections = record {
  transceivers = line_of (codes "1") ∷ line_of (codes "0") ∷ [];
  ssrc_set = [];
  mid_ext_id = some 4;
  rtx_pt_to_pt = (97, 96) ∷ [];
  rtx_ssrc_to_ssrc = (12, 11) ∷ [];
}

find_receiver-make_rtp_example :
    (pkt : RtpPacket) × (parse network
        (make_rtp network caseless 1 (line_of (codes "0")) last_number (9 ∷ []) 7 3 true).0
      ≡ some pkt)
    × (find_receiver two_sections pkt ≡ some 1)
unfolding ext_id find_mid equal
find_receiver-make_rtp_example =
    find_receiver-make_rtp network-IsBigEndian caseless 1 (line_of (codes "0")) last_number (9 ∷ [])
      7 3 true two_sections 48 1 (omega arith) (omega arith) (omega arith) (omega arith)
      (omega arith) refl (omega arith) (omega arith) refl refl

-- The packet that was sent has header extensions.
resend_restored_example :
    (sent : RtpPacket) × (s : RtpStream) × (bytes : List ℕ) × (pkt : RtpPacket) × (parse network
        (make_rtp network caseless 1 (line_of (codes "0")) last_number (1 ∷ 2 ∷ []) 7 0 true).0
      ≡ some sent)
    × (resend_stream network 11 0
          (keep_all ((4 ∷ [], 9) ∷ []) (keep_payload (1 ∷ 2 ∷ []) 7 last_number))
        ≡ some (s, bytes))
    × (parse network bytes ≡ some pkt)
    × (rewrite_rtx_packet network two_sections pkt
        ≡ record sent { marker = 0; extension = 0; extension_profile = 0; extension_data = [] })
unfolding find_key
resend_restored_example =
    resend_restored network-IsBigEndian caseless 1 (line_of (codes "0")) last_number (1 ∷ 2 ∷ []) 7
      true ((4 ∷ [], 9) ∷ []) two_sections last_number-IsStream (omega arith) (omega arith)
      (omega arith) (omega arith) (omega arith) (omega arith) (omega arith) (omega arith) refl refl
