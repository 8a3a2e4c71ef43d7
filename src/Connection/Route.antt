-- ===== src/Connection/Route.antt =====
-- src/connection_impl.cpp: `build_ssrc_map`, `rewrite_rtx_packet`, `depayload` and `dispatch_rtp`. The
-- hash maps are association lists. The RTCP messages that are to be sent, and the packet that goes to
-- the track, are the result; the callback for packets is an argument.
use asio_rtc.Common.{
  ℕ, zero, suc, ◌+◌, ◌-◌, ◌*◌, ◌^◌, bit_and, ◌>>>◌, Bool, true, false, not, ◌&&◌, ◌||◌, ltb, leb,
  ◌==◌, if◌then◌else◌, Option, none, some, ◌>>=◌, List, [], ◌∷◌, ◌++◌, length, drop, byte_at,
}
use asio_rtc.Binary.{Binary, peek16}
use asio_rtc.Rtp.{RtpPacket}
use asio_rtc.Sdp.{Text, SdpRtpmap, SdpSsrc, SdpSsrcGroup, SdpMedia}
use asio_rtc.Sdp.Text.{codes, equal}
use asio_rtc.Sdp.Number.{is_digit}
use asio_rtc.Sdp.Names.{Nceq}
use asio_rtc.Sdp.Params.{find_param}
use asio_rtc.Stats.{
  SsrcContext, track_packet, check_gap, inc_consecutive_lost, reset_consecutive_lost,
}
use asio_rtc.Nack.{receive_packet}
use asio_rtc.Twcc.{RtpExtElement, ext_elements}
use asio_rtc.Feedback.{psfb_bytes}
use asio_rtc.Transceiver.{
  RtpReceiver, RtpTransceiver, is_receiving, is_sending, SsrcSet, find_ssrc, create_ssrc_context,
}

-- `std::from_chars` for eight bits: the digits at the front.
unfoldable pub leading_number : ℕ → Text → ℕ
leading_number acc [] = acc
leading_number acc (c ∷ s) = if is_digit c then leading_number (acc * 10 + (c - 48)) s else acc

unfoldable pub from_chars : Text → Option ℕ
from_chars [] = none
from_chars (c ∷ s) =
    if is_digit c
    then (let n = leading_number 0 (c ∷ s) in if ltb n (2 ^ 8) then some n else none)
    else none

-- `map[key] = value`, and the search for a key.
unfoldable pub set_key : ℕ → ℕ → List (ℕ × ℕ) → List (ℕ × ℕ)
set_key key value [] = (key, value) ∷ []
set_key key value ((k, v) ∷ entries) =
    if k == key then (key, value) ∷ entries else (k, v) ∷ set_key key value entries

unfoldable pub find_key : ℕ → List (ℕ × ℕ) → Option ℕ
find_key key [] = none
find_key key ((k, v) ∷ entries) = if k == key then some v else find_key key entries

unfoldable pub contains_ssrc : ℕ → List ℕ → Bool
contains_ssrc ssrc [] = false
contains_ssrc ssrc (s ∷ ssrcs) = s == ssrc || contains_ssrc ssrc ssrcs

-- The two loops over the groups: the pairs of a repaired and a repairing source.
unfoldable pub pair_of : Text → SdpSsrcGroup → Option (ℕ × ℕ)
pair_of semantics g = if equal g.semantics semantics then two g.ssrcs else none
  where
    two : List ℕ → Option (ℕ × ℕ)
    two (a ∷ b ∷ []) = some (a, b)
    two _ = none

unfoldable pub repair_pairs : Text → List SdpSsrcGroup → List (ℕ × ℕ)
repair_pairs semantics [] = []
repair_pairs semantics (g ∷ groups) = elim (pair_of semantics g) [
  | none ↦ repair_pairs semantics groups
  | some pair ↦ pair ∷ repair_pairs semantics groups
]

unfoldable pub map_sources : List (ℕ × ℕ) → List (ℕ × ℕ) → List (ℕ × ℕ)
map_sources [] entries = entries
map_sources ((source, repair) ∷ pairs) entries = map_sources pairs (set_key repair source entries)

unfoldable pub repairs : List (ℕ × ℕ) → List ℕ
repairs [] = []
repairs ((source, repair) ∷ pairs) = repair ∷ repairs pairs

-- A context for every source that does not repair another.
unfoldable pub create_contexts :
    ℕ → List ℕ → List SdpSsrc → RtpReceiver × SsrcSet → RtpReceiver × SsrcSet
create_contexts owner repair_ssrcs [] known = known
create_contexts owner repair_ssrcs (s ∷ ssrcs) known =
    create_contexts owner repair_ssrcs ssrcs
      (if contains_ssrc s.ssrc repair_ssrcs then known else create_ssrc_context owner s.ssrc known)

-- The members of the connection that routing reads and changes.
pub record Router : Type 0 where
  pub transceivers : List RtpTransceiver
  pub ssrc_set : SsrcSet
  pub mid_ext_id : Option ℕ
  pub rtx_pt_to_pt : List (ℕ × ℕ)
  pub rtx_ssrc_to_ssrc : List (ℕ × ℕ)

unfoldable pub update_context : ℕ → (SsrcContext → SsrcContext) → SsrcSet → SsrcSet
update_context ssrc f [] = []
update_context ssrc f ((owner, c) ∷ set) =
    if c.ssrc == ssrc then (owner, f c) ∷ set else (owner, c) ∷ update_context ssrc f set

-- `iter != end` with the identifier; the first that has it ends the loop.
unfoldable pub find_element : ℕ → List RtpExtElement → List ℕ
find_element id [] = []
find_element id (e ∷ elements) = if e.id == id then e.content else find_element id elements

unfoldable pub find_mid : Text → ℕ → List RtpTransceiver → Option ℕ
find_mid mid index [] = none
find_mid mid index (t ∷ transceivers) =
    if equal t.mid mid then some index else find_mid mid (index + 1) transceivers

-- The transceiver that the extension names.
unfoldable pub receiver_by_mid : Router → RtpPacket → Option ℕ
receiver_by_mid r pkt = do
  id ← r.mid_ext_id
  let mid = find_element id (ext_elements (length pkt.extension_data) pkt.extension_data)
  if length mid == 0 then none else find_mid mid 0 r.transceivers

unfoldable pub receiver_by_ssrc : Router → RtpPacket → Option ℕ
receiver_by_ssrc r pkt = do (owner, c) ← find_ssrc pkt.ssrc r.ssrc_set; some owner

unfoldable pub find_receiver : Router → RtpPacket → Option ℕ
find_receiver r pkt = elim (receiver_by_mid r pkt) [
  | some index ↦ some index
  | none ↦ receiver_by_ssrc r pkt
]

unfoldable pub nth_transceiver : ℕ → List RtpTransceiver → Option RtpTransceiver
nth_transceiver n [] = none
nth_transceiver zero (t ∷ transceivers) = some t
nth_transceiver (suc n) (t ∷ transceivers) = nth_transceiver n transceivers

-- The counts, and whether a picture is to be asked for.
unfoldable pub count_received : ℕ → Bool → RtpPacket → SsrcContext → SsrcContext × Bool
count_received now_us has_srtp pkt c =
    let tracked = track_packet now_us pkt.sequence_number pkt.timestamp c in
    let noted =
      λ (x : SsrcContext). record x { nack_gen = receive_packet x.nack_gen pkt.sequence_number } in
    if check_gap c.packets_expected tracked
    then (let lost = noted (inc_consecutive_lost tracked) in
        if leb 3 lost.consecutive_lost && has_srtp
        then (reset_consecutive_lost lost, true)
        else (lost, false))
    else (noted (reset_consecutive_lost tracked), false)

-- Where the payload of a VP8 packet begins behind its descriptor.
unfoldable pub behind_picture_id : ℕ → List ℕ → ℕ → ℕ
behind_picture_id ext d pos =
    if not (bit_and ext 0x80 == 0) && ltb pos (length d)
    then pos + (if not (bit_and (byte_at d pos) 0x80 == 0) then 2 else 1)
    else pos

unfoldable pub behind_flag : ℕ → ℕ → List ℕ → ℕ → ℕ
behind_flag mask ext d pos =
    if not (bit_and ext mask == 0) && ltb pos (length d) then pos + 1 else pos

unfoldable pub bitstream_offset : List ℕ → ℕ
bitstream_offset d =
    if not (bit_and (byte_at d 0 >>> 7) 1 == 0) && ltb 1 (length d)
    then behind_flag 0x30 (byte_at d 1) d
        (behind_flag 0x40 (byte_at d 1) d (behind_picture_id (byte_at d 1) d 2))
    else 1

module _ (nceq : Nceq) where
  unfoldable pub depayload : Text → List ℕ → List ℕ
  depayload codec_name payload =
      if (nceq codec_name (codes "VP8") || nceq codec_name (codes "VP9"))
        && not (length payload == 0)
      then (if leb (bitstream_offset payload) (length payload)
          then drop (bitstream_offset payload) payload
          else payload)
      else payload

  -- The payload types of packets sent again, and what they stand for.
  unfoldable pub map_types : List SdpRtpmap → List (ℕ × ℕ) → List (ℕ × ℕ)
  map_types [] entries = entries
  map_types (r ∷ rtpmaps) entries = map_types rtpmaps (
      if nceq (codes "rtx") r.name
      then (elim (find_param (codes "apt") r.params >>= from_chars) [
        | none ↦ entries
        | some pt ↦ set_key r.payload_type pt entries
      ])
      else entries)

  -- `build_ssrc_map` for the receiver of transceiver `owner`.
  unfoldable pub build_ssrc_map : ℕ → SdpMedia → RtpReceiver → Router → RtpReceiver × Router
  build_ssrc_map owner rm receiver r =
      let pairs = repair_pairs (codes "FID") rm.ssrc_groups in
      let repair_ssrcs = repairs pairs ++ repairs (repair_pairs (codes "FEC") rm.ssrc_groups) in
      let (receiver', set) = create_contexts owner repair_ssrcs rm.ssrcs (receiver, r.ssrc_set) in
      if rm.port == 0 || (is_receiving rm.direction && not (is_sending rm.direction))
      then (receiver, r)
      else (
        receiver',
        record r {
          rtx_pt_to_pt = map_types rm.rtpmaps r.rtx_pt_to_pt;
          rtx_ssrc_to_ssrc = map_sources pairs r.rtx_ssrc_to_ssrc;
          ssrc_set = set;
        },
      )

module _ (bin : Binary) where
  -- A packet sent again, as it was; another packet as it is.
  unfoldable pub restore_packet : Option ℕ → Option ℕ → RtpPacket → RtpPacket
  restore_packet none ssrc pkt = pkt
  restore_packet (some pt) none pkt = pkt
  restore_packet (some pt) (some ssrc) pkt = record pkt {
    payload_type = pt;
    ssrc = ssrc;
    sequence_number = peek16 bin pkt.payload;
    payload = drop 2 pkt.payload;
  }

  unfoldable pub rewrite_rtx_packet : Router → RtpPacket → RtpPacket
  rewrite_rtx_packet r pkt =
      if leb (length pkt.payload) 2
      then pkt
      else restore_packet (find_key pkt.payload_type r.rtx_pt_to_pt)
          (find_key pkt.ssrc r.rtx_ssrc_to_ssrc) pkt

module _ (bin : Binary) (nceq : Nceq) where
  unfoldable pub count_source : ℕ → Bool → RtpPacket → Router → Router × List (List ℕ)
  count_source now_us has_srtp pkt r = elim (find_ssrc pkt.ssrc r.ssrc_set) [
    | none ↦ (r, [])
    | some (owner, c) ↦
        let (c', ask) = count_received now_us has_srtp pkt c in
        (
          record r { ssrc_set = update_context pkt.ssrc (λ x. c') r.ssrc_set },
          if ask
              then psfb_bytes bin
                  (record { fmt = 1; sender_ssrc = 0; media_ssrc = pkt.ssrc; fci = [] })
                ∷ []
              else [],
        )
  ]

  -- The callback gives the packet, changed perhaps, or refuses it.
  unfoldable pub deliver_to :
      (RtpPacket → Option RtpPacket) → Option RtpTransceiver → RtpPacket → Option RtpPacket
  deliver_to on_rtp t pkt = do
    t ← t
    pkt ← on_rtp pkt
    codec ← t.receiver.track
    let payload = depayload nceq codec.name pkt.payload
    if length payload == 0 then none else some (record pkt { payload = payload })

  -- The new state, the RTCP messages to send, and the transceiver and the packet for its track.
  unfoldable pub dispatch_rtp :
      ℕ
      → Bool
      → (ℕ → RtpPacket → Option RtpPacket)
      → RtpPacket
      → Router
      → Router × List (List ℕ) × Option (ℕ × RtpPacket)
  dispatch_rtp now_us has_srtp on_rtp received r =
      let pkt = rewrite_rtx_packet bin r received in
      elim (find_receiver r pkt) [
        | none ↦ (r, [], none)
        | some index ↦
            let (r', feedback) = count_source now_us has_srtp pkt r in
            (
              r',
              feedback,
              (do
                p ← deliver_to (on_rtp index) (nth_transceiver index r.transceivers) pkt
                some (index, p)),
            )
      ]
