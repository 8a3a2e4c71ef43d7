-- ===== src/Rtp.antt =====
-- src/rtp.cpp and include/asiortc/rtp.hpp: the RTP packet, its parser and its writer.
-- A parser is given the bytes from its offset on, so `len < offset + n` is `length rest < n`.
pub mod Valid
pub mod Header
pub mod Fields
pub mod Padding
pub mod RoundTrip
use asio_rtc.Common.{
  ℕ, zero, suc, ◌+◌, ◌-◌, ◌*◌, ◌/◌, ◌%◌, ◌^◌, bit_and, bit_or, u8, u16, ◌<<<◌, ◌>>>◌, Bool, false,
  ltb, ◌==◌, if◌then◌else◌, Option, none, some, ◌>>=◌, List, [], ◌∷◌, ◌++◌, length, take, drop,
  replicate, byte_at,
}
use asio_rtc.Binary.{Binary, peek16, peek32}

pub record RtpPacket : Type 0 where
  pub version : ℕ
  pub padding : ℕ
  pub extension : ℕ
  pub csrc_count : ℕ
  pub marker : ℕ
  pub payload_type : ℕ
  pub sequence_number : ℕ
  pub timestamp : ℕ
  pub ssrc : ℕ
  pub csrcs : List ℕ
  pub extension_profile : ℕ
  pub extension_data : List ℕ
  pub payload : List ℕ

-- `sizeof(rtp_header_t)`
abbrev pub header_size : ℕ
header_size = 12

-- `sizeof(rtp_extension_header_t)`
abbrev pub extension_header_size : ℕ
extension_header_size = 4

unfoldable pub is_rtp_packet : List ℕ → Bool
is_rtp_packet buf = if ltb (length buf) header_size then false else byte_at buf 0 >>> 6 == 2

unfoldable pub serialized_size : RtpPacket → ℕ
serialized_size p = if p.padding == 0 then total else padded
  where
    extension_size : ℕ
    extension_size =
        extension_header_size + length p.extension_data + (4 - length p.extension_data % 4) % 4

    total : ℕ
    total =
        header_size
        + p.csrc_count * 4
        + (if p.extension == 0 then 0 else extension_size)
        + length p.payload

    padded : ℕ
    padded = if total % 4 == 0 then total + 4 else total + (4 - total % 4)

unfoldable pub get_payload_type : List ℕ → ℕ
get_payload_type buf = bit_and (byte_at buf 1) 0x7f

-- The padding count in the last byte, and the payload without the padding.
unfoldable pub strip_padding : ℕ → List ℕ → Option (List ℕ)
strip_padding padding [] = some []
strip_padding padding (b ∷ bs) =
    let body = b ∷ bs in
    let pad_len = byte_at body (length body - 1) in
    if padding == 0
    then some body
    else if pad_len == 0
    then none
    else if ltb (length body) pad_len
    then none
    else some (take (length body - pad_len) body)

-- `pad` is a `size_t`, so it wraps if more has been written than `serialized`.
unfoldable pub write_padding : ℕ → ℕ → ℕ → List ℕ
write_padding padding serialized written =
    let pad = (serialized + 2 ^ 64 - written) % 2 ^ 64 in
    if padding == 0 then [] else if pad == 0 then [] else replicate (pad - 1) 0 ++ (u8 pad ∷ [])

module _ (bin : Binary) where
  unfoldable pub get_ssrc : List ℕ → ℕ
  get_ssrc buf = peek32 bin (drop 8 buf)

  unfoldable pub get_sequence_number : List ℕ → ℕ
  get_sequence_number buf = peek16 bin (drop 2 buf)

  -- The fixed header; the rest as a new packet has it.
  unfoldable pub parse_header : List ℕ → RtpPacket
  parse_header buf = record {
    version = bit_and (byte_at buf 0 >>> 6) 0x03;
    padding = bit_and (byte_at buf 0 >>> 5) 0x01;
    extension = bit_and (byte_at buf 0 >>> 4) 0x01;
    csrc_count = bit_and (byte_at buf 0) 0x0f;
    marker = bit_and (byte_at buf 1 >>> 7) 0x01;
    payload_type = bit_and (byte_at buf 1) 0x7f;
    sequence_number = peek16 bin (drop 2 buf);
    timestamp = peek32 bin (drop 4 buf);
    ssrc = peek32 bin (drop 8 buf);
    csrcs = [];
    extension_profile = 0;
    extension_data = [];
    payload = [];
  }

  -- The loop over `csrc_count`, with `n` rounds left.
  unfoldable pub read_csrcs : ℕ → List ℕ → List ℕ
  read_csrcs zero rest = []
  read_csrcs (suc n) rest = peek32 bin rest ∷ read_csrcs n (drop 4 rest)

  unfoldable pub parse_csrcs : RtpPacket → List ℕ → Option (RtpPacket × List ℕ)
  parse_csrcs p rest =
      if ltb (length rest) (p.csrc_count * 4)
      then none
      else some (record p { csrcs = read_csrcs p.csrc_count rest }, drop (p.csrc_count * 4) rest)

  unfoldable pub parse_extension : RtpPacket → List ℕ → Option (RtpPacket × List ℕ)
  parse_extension p rest =
      if p.extension == 0
      then some (p, rest)
      else if ltb (length rest) extension_header_size
      then none
      else if ltb (length (drop 4 rest)) (peek16 bin (drop 2 rest) * 4)
      then none
      else some (
        record p {
          extension_profile = peek16 bin rest;
          extension_data = take (peek16 bin (drop 2 rest) * 4) (drop 4 rest);
        },
        drop (peek16 bin (drop 2 rest) * 4) (drop 4 rest),
      )

  unfoldable pub parse_payload : RtpPacket → List ℕ → Option RtpPacket
  parse_payload p rest = do body ← strip_padding p.padding rest; some (record p { payload = body })

  -- `rtp_packet::parse`
  unfoldable pub parse : List ℕ → Option RtpPacket
  parse buf =
      if is_rtp_packet buf
      then (do
        (p, rest) ← parse_csrcs (parse_header buf) (drop header_size buf)
        (p', rest') ← parse_extension p rest
        parse_payload p' rest')
      else none

  unfoldable pub write_header : RtpPacket → List ℕ
  write_header p =
      u8 (
          bit_or (p.version <<< 6)
            (bit_or (p.padding <<< 5) (bit_or (p.extension <<< 4) (bit_and p.csrc_count 0x0f))))
        ∷ u8 (bit_or (p.marker <<< 7) (bit_and p.payload_type 0x7f))
        ∷ bin.write16 p.sequence_number
      ++ (bin.write32 p.timestamp ++ bin.write32 p.ssrc)

  unfoldable pub write_csrcs : List ℕ → List ℕ
  write_csrcs [] = []
  write_csrcs (c ∷ cs) = bin.write32 c ++ write_csrcs cs

  -- The zeros behind the extension; an empty extension has none.
  unfoldable pub write_extension : RtpPacket → List ℕ
  write_extension p =
      if p.extension == 0
      then []
      else bin.write16 p.extension_profile
        ++ (bin.write16 (u16 ((length p.extension_data + 3) / 4))
            ++ (p.extension_data ++ replicate ((4 - length p.extension_data % 4) % 4) 0))

  -- What stands in the buffer before the padding.
  unfoldable pub write_body : RtpPacket → List ℕ
  write_body p = write_header p ++ (write_csrcs p.csrcs ++ (write_extension p ++ p.payload))

  -- `rtp_packet::write_to` on a buffer of `len` bytes: `none` is -1, else the result and the buffer.
  unfoldable pub write_to : RtpPacket → List ℕ → Option (ℕ × List ℕ)
  write_to p buf =
      let body = write_body p in
      let bytes = body ++ write_padding p.padding (serialized_size p) (length body) in
      if ltb (length buf) (serialized_size p)
      then none
      else some (serialized_size p, bytes ++ drop (length bytes) buf)
