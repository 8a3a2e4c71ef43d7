-- ===== src/Rtcp.antt =====
-- src/rtcp.cpp and src/rtcp.hpp: RTCP packets, their parser and their writer. A parser is given the
-- bytes of the packet from its offset on, so `total < offset + n` is `length rest < n`. The tail
-- is cut and padded as in an RTP packet, with the functions of Rtp.antt.
pub mod Blocks
pub mod Valid
pub mod Body
pub mod RoundTrip
pub mod Compound
use asio_rtc.Common.{
  ℕ, zero, suc, ◌+◌, ◌-◌, ◌*◌, ◌/◌, ◌%◌, ◌^◌, bit_and, bit_or, u8, u16, u32, ◌<<<◌, ◌>>>◌, Bool,
  false, not, ◌&&◌, ◌||◌, ltb, leb, ◌==◌, if◌then◌else◌, Option, none, some, ◌>>=◌, List, [], ◌∷◌,
  ◌++◌, length, take, drop, byte_at,
}
use asio_rtc.Binary.{Binary, peek16, peek32}
use asio_rtc.Rtp.{strip_padding, write_padding}

-- `packet_type`
abbrev pub sr : ℕ
sr = 200

abbrev pub rr : ℕ
rr = 201

abbrev pub sdes : ℕ
sdes = 202

abbrev pub bye : ℕ
bye = 203

abbrev pub app : ℕ
app = 204

abbrev pub rtpfb : ℕ
rtpfb = 205

abbrev pub psfb : ℕ
psfb = 206

pub record ReportBlock : Type 0 where
  pub ssrc : ℕ
  pub fraction_lost : ℕ
  pub cumulative_lost : ℕ
  pub ext_highest_seq : ℕ
  pub jitter : ℕ
  pub lsr : ℕ
  pub dlsr : ℕ

pub record RtcpPacket : Type 0 where
  pub version : ℕ
  pub padding : ℕ
  pub report_count : ℕ
  pub packet_type : ℕ
  pub ssrc : ℕ
  pub media_ssrc : ℕ
  pub ntp_timestamp : ℕ
  pub rtp_timestamp : ℕ
  pub sender_packet_count : ℕ
  pub sender_octet_count : ℕ
  pub blocks : List ReportBlock
  pub payload : List ℕ

-- `sizeof(rtcp_header_t)`
abbrev pub header_size : ℕ
header_size = 4

-- `rtcp_packet::serialized_size`
unfoldable pub serialized_size : RtcpPacket → ℕ
serialized_size p = if p.padding == 0 then total else padded
  where
    total : ℕ
    total =
        header_size
        + (if p.packet_type == sr || p.packet_type == rr then 4 else 0)
        + (if p.packet_type == sr then 20 else 0)
        + length p.blocks * 24
        + length p.payload

    padded : ℕ
    padded = if total % 4 == 0 then total + 4 else total + (4 - total % 4)

unfoldable pub is_rtcp_packet : List ℕ → Bool
is_rtcp_packet buf =
    if ltb (length buf) header_size
    then false
    else byte_at buf 0 >>> 6 == 2 && leb 192 (byte_at buf 1)

unfoldable pub get_packet_type : List ℕ → ℕ
get_packet_type buf = if ltb (length buf) header_size then 0 else byte_at buf 1

-- The payload behind the offset, without its padding.
unfoldable pub parse_tail : RtcpPacket → List ℕ → Option RtcpPacket
parse_tail p rest = do body ← strip_padding p.padding rest; some (record p { payload = body })

module _ (bin : Binary) where
  unfoldable pub parse_report_block : List ℕ → ReportBlock
  parse_report_block bytes =
      let flc = peek32 bin (drop 4 bytes) in
      record {
        ssrc = peek32 bin bytes;
        fraction_lost = u8 (bit_and (flc >>> 24) 0xff);
        cumulative_lost = bit_and flc 0x00ffffff;
        ext_highest_seq = peek32 bin (drop 8 bytes);
        jitter = peek32 bin (drop 12 bytes);
        lsr = peek32 bin (drop 16 bytes);
        dlsr = peek32 bin (drop 20 bytes);
      }

  unfoldable pub write_report_block : ReportBlock → List ℕ
  write_report_block b =
      bin.write32 b.ssrc
      ++ (bin.write32 (bit_or (u32 (b.fraction_lost <<< 24)) (bit_and b.cumulative_lost 0x00ffffff))
          ++ (bin.write32 b.ext_highest_seq
              ++ (bin.write32 b.jitter ++ (bin.write32 b.lsr ++ bin.write32 b.dlsr))))

  -- The loop over the report blocks, with `n` rounds left.
  unfoldable pub parse_blocks : ℕ → List ℕ → Option (List ReportBlock × List ℕ)
  parse_blocks zero rest = some ([], rest)
  parse_blocks (suc n) rest =
      let later = parse_blocks n (drop 24 rest) in
      if ltb (length rest) 24
      then none
      else (do (bs, behind) ← later; some (parse_report_block rest ∷ bs, behind))

  unfoldable pub parse_reports : RtcpPacket → List ℕ → Option RtcpPacket
  parse_reports p rest = do
    (bs, behind) ← parse_blocks p.report_count rest
    parse_tail (record p { blocks = bs }) behind

  unfoldable pub parse_sr : RtcpPacket → List ℕ → Option RtcpPacket
  parse_sr p rest =
      if ltb (length rest) 24
      then none
      else parse_reports
          (record p {
            ssrc = peek32 bin rest;
            ntp_timestamp = bit_or (peek32 bin (drop 4 rest) <<< 32) (peek32 bin (drop 8 rest));
            rtp_timestamp = peek32 bin (drop 12 rest);
            sender_packet_count = peek32 bin (drop 16 rest);
            sender_octet_count = peek32 bin (drop 20 rest);
          })
          (drop 24 rest)

  unfoldable pub parse_rr : RtcpPacket → List ℕ → Option RtcpPacket
  parse_rr p rest =
      if ltb (length rest) 4
      then none
      else parse_reports (record p { ssrc = peek32 bin rest }) (drop 4 rest)

  -- The sender's number is skipped.
  unfoldable pub parse_feedback : RtcpPacket → List ℕ → Option RtcpPacket
  parse_feedback p rest =
      if ltb (length rest) 8
      then none
      else parse_tail (record p { media_ssrc = peek32 bin (drop 4 rest) }) (drop 8 rest)

  -- The switch on the type; `rest` ends where the packet ends.
  unfoldable pub parse_body : RtcpPacket → List ℕ → Option RtcpPacket
  parse_body p rest =
      if p.packet_type == sr
      then parse_sr p rest
      else if p.packet_type == rr
      then parse_rr p rest
      else if p.packet_type == rtpfb || p.packet_type == psfb
      then parse_feedback p rest
      else if p.packet_type == bye || (p.packet_type == sdes || p.packet_type == app)
      then parse_tail p rest
      else some p

  -- The common header; the rest as a new packet has it.
  unfoldable pub parse_header : List ℕ → RtcpPacket
  parse_header buf = record {
    version = bit_and (byte_at buf 0 >>> 6) 0x03;
    padding = bit_and (byte_at buf 0 >>> 5) 0x01;
    report_count = bit_and (byte_at buf 0) 0x1f;
    packet_type = byte_at buf 1;
    ssrc = 0;
    media_ssrc = 0;
    ntp_timestamp = 0;
    rtp_timestamp = 0;
    sender_packet_count = 0;
    sender_octet_count = 0;
    blocks = [];
    payload = [];
  }

  -- The size that the header states.
  unfoldable pub stated_size : List ℕ → ℕ
  stated_size buf = (peek16 bin (drop 2 buf) + 1) * 4

  -- `rtcp_packet::parse`
  unfoldable pub parse : List ℕ → Option RtcpPacket
  parse buf =
      if ltb (length buf) header_size
      then none
      else if ltb (length buf) (stated_size buf)
      then none
      else parse_body (parse_header buf) (take (stated_size buf - 4) (drop header_size buf))

  unfoldable pub write_header : RtcpPacket → List ℕ
  write_header p =
      u8 (bit_or (p.version <<< 6) (bit_or (p.padding <<< 5) (bit_and p.report_count 0x1f)))
      ∷ p.packet_type
      ∷ bin.write16 (u16 (serialized_size p / 4 - 1))

  unfoldable pub write_sender : RtcpPacket → List ℕ
  write_sender p =
      bin.write32 (u32 (p.ntp_timestamp >>> 32))
      ++ (bin.write32 (u32 (bit_and p.ntp_timestamp 0xffffffff))
          ++ (bin.write32 p.rtp_timestamp
              ++ (bin.write32 p.sender_packet_count ++ bin.write32 p.sender_octet_count)))

  unfoldable pub write_blocks : List ReportBlock → List ℕ
  write_blocks [] = []
  write_blocks (b ∷ bs) = write_report_block b ++ write_blocks bs

  -- What stands between the header and the padding.
  unfoldable pub write_body : RtcpPacket → List ℕ
  write_body p =
      (if p.packet_type == sr || p.packet_type == rr then bin.write32 p.ssrc else [])
      ++ ((if p.packet_type == sr then write_sender p else [])
          ++ (write_blocks p.blocks ++ p.payload))

  -- `rtcp_packet::write_to` on a buffer of `len` bytes: `none` is -1, else the result and the buffer.
  unfoldable pub write_to : RtcpPacket → List ℕ → Option (ℕ × List ℕ)
  write_to p buf =
      let body = write_header p ++ write_body p in
      let bytes = body ++ write_padding p.padding (serialized_size p) (length body) in
      if ltb (length buf) (serialized_size p)
      then none
      else some (serialized_size p, bytes ++ drop (length bytes) buf)

  -- The loop of `parse_compound` over the bytes from `offset` on.
  unfoldable pub compound_loop : ℕ → List ℕ → List RtcpPacket
  compound_loop zero rest = []
  compound_loop (suc fuel) rest =
      let pkt_len = stated_size rest in
      let later = compound_loop fuel (drop pkt_len rest) in
      if ltb (length rest) header_size || ltb (length rest) pkt_len
      then []
      else elim (parse (take pkt_len rest)) [ none ↦ [] | some pkt ↦ pkt ∷ later ]

  -- A packet has at least four bytes, so the length is enough fuel.
  unfoldable pub parse_compound : List ℕ → List RtcpPacket
  parse_compound bytes = compound_loop (length bytes) bytes
