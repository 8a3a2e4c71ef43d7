-- ===== src/MediaTrack.antt =====
-- src/media_track_impl.cpp: how a received H.264 frame is put together again.
pub mod Units
pub mod RoundTrip
use asio_rtc.Common.{
  ℕ, zero, suc, ◌+◌, bit_and, bit_or, u16, ◌<<<◌, Bool, true, false, not, ◌&&◌, ◌||◌, ltb, leb,
  ◌==◌, if◌then◌else◌, List, [], ◌∷◌, ◌++◌, length, take, drop, byte_at,
}
use asio_rtc.Rtp.{RtpPacket}

-- `h264_append_start_code`, and the unit behind it
abbrev pub append_unit : List ℕ → List ℕ → List ℕ
append_unit out nal = out ++ (0 ∷ 0 ∷ 1 ∷ nal)

-- The variables of `h264_packets_to_annex_b`.
pub record Depacketizer : Type 0 where
  pub out : List ℕ
  pub partial : List ℕ
  pub in_fu : Bool

-- The loop over the units of an aggregation packet; `rest` are the bytes from `off` on.
unfoldable pub stap_units : ℕ → List ℕ → List ℕ → List ℕ
stap_units zero out rest = out
stap_units (suc fuel) out rest =
    let size = u16 (bit_or (byte_at rest 0 <<< 8) (byte_at rest 1)) in
    let body = drop 2 rest in
    let later = stap_units fuel (append_unit out (take size body)) (drop size body) in
    if ltb (length rest) 2 then out else if size == 0 || ltb (length body) size then out else later

-- A fragment: its start bit, then its end bit.
unfoldable pub fu_start : ℕ → ℕ → List ℕ → Depacketizer → Depacketizer
fu_start fu_indicator fu_header frag s =
    if not (bit_and fu_header 0x80 == 0)
    then record s {
      partial = bit_or (bit_and fu_indicator 0xe0) (bit_and fu_header 0x1f) ∷ frag;
      in_fu = true;
    }
    else if s.in_fu
    then record s { partial = s.partial ++ frag }
    else s

unfoldable pub fu_end : ℕ → Depacketizer → Depacketizer
fu_end fu_header s =
    if not (bit_and fu_header 0x40 == 0)
    then record { out = append_unit s.out s.partial; partial = []; in_fu = false }
    else s

unfoldable pub fu_unit : List ℕ → Depacketizer → Depacketizer
fu_unit [] s = s
fu_unit (fu_indicator ∷ []) s = s
fu_unit (fu_indicator ∷ fu_header ∷ frag) s =
    fu_end fu_header (fu_start fu_indicator fu_header frag s)

-- One round of the loop over the packets.
unfoldable pub depacketize : Depacketizer → List ℕ → Depacketizer
depacketize s [] = s
depacketize s (nal_hdr ∷ rest) =
    let nal_type = bit_and nal_hdr 0x1f in
    if nal_type == 24
    then record s { out = stap_units (length rest) s.out rest }
    else if nal_type == 28
    then fu_unit (nal_hdr ∷ rest) s
    else if leb 1 nal_type && leb nal_type 23
    then record s { out = append_unit s.out (nal_hdr ∷ rest) }
    else s

unfoldable pub depacketize_all : Depacketizer → List RtpPacket → Depacketizer
depacketize_all s [] = s
depacketize_all s (pkt ∷ packets) = depacketize_all (depacketize s pkt.payload) packets

unfoldable pub h264_packets_to_annex_b : List RtpPacket → List ℕ
h264_packets_to_annex_b packets =
    (depacketize_all (record { out = []; partial = []; in_fu = false }) packets).out
