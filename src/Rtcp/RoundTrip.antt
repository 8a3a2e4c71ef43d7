-- ===== src/Rtcp/RoundTrip.antt =====
-- `parse` reads back what `write_to` wrote.
use asio_rtc.Common.{
  ℕ, false, ◌+◌, ◌-◌, ◌*◌, ◌/◌, ◌%◌, ◌<◌, ◌≤◌, ◌≡◌, refl, ap, ◌∙◌, sym, bit_and, bit_or, u8, ◌<<<◌,
  some, List, [], ◌++◌, length, length-append, length-drop, drop, take-append, drop-all, arith,
  append_assoc, append-nil, ltb, le→ltb, if◌then◌else◌, ◌==◌, ◌||◌,
}
use asio_rtc.Common.Bits.{bit_and-mask, bit_or-eq-add}
use asio_rtc.Binary.{Binary, IsBigEndian}
use asio_rtc.Binary.Laws.{length-write32}
use asio_rtc.Rtp.{strip_padding, write_padding}
use asio_rtc.Rtp.Padding.{strip_padding-write_padding, length-write_padding}
use asio_rtc.Rtcp.{
  sr, rr, RtcpPacket, serialized_size, parse, parse_header, stated_size, write_header, write_sender,
  write_blocks, write_body, write_to,
}
use asio_rtc.Rtcp.Blocks.{length-write_blocks}
use asio_rtc.Rtcp.Valid.{IsValid}
use asio_rtc.Rtcp.Body.{bare, front, parse_body-front}

-- The first byte in plain arithmetic.
flags_as_sum :
    (v p c : ℕ)
    → v < 4
    → p < 2
    → c < 32
    → u8 (bit_or (v <<< 6) (bit_or (p <<< 5) (bit_and c 0x1f))) ≡ v * 64 + p * 32 + c
flags_as_sum v p c hv hp hc =
    rw
      (
        bit_and-mask 5 c,
        bit_or-eq-add 5 p (c % 32) (omega arith),
        bit_or-eq-add 6 v (p * 32 + c % 32) (omega arith),
      )
      (omega arith)

module _ {bin : Binary} (be : IsBigEndian bin) where
  length-write_header : (p : RtcpPacket) → length (write_header bin p) ≡ 4
  unfolding write_header
  length-write_header p = simp be.write16_lem

  drop-write_header : (p : RtcpPacket) (rest : List ℕ) → drop 4 (write_header bin p ++ rest) ≡ rest
  unfolding write_header
  drop-write_header p rest = simp be.write16_lem

  parse_header-write_header :
      (p : RtcpPacket) (rest : List ℕ)
      → IsValid p
      → parse_header bin (write_header bin p ++ rest) ≡ bare p
  unfolding parse_header write_header
  parse_header-write_header p rest v =
      rw
        (flags_as_sum p.version p.padding p.report_count v.version_fits v.padding_flag v.count_fits)
        (ground
          (arith, bit_and-mask 2 (flags / 64), bit_and-mask 1 (flags / 32), bit_and-mask 5 flags))
    where
      flags : ℕ
      flags = p.version * 64 + p.padding * 32 + p.report_count

  length-write_sender : (p : RtcpPacket) → length (write_sender bin p) ≡ 20
  unfolding write_sender
  length-write_sender p = simp be.write32_lem

  length-write_body :
      (p : RtcpPacket)
      → length (write_body bin p)
        ≡ (if p.packet_type == sr || p.packet_type == rr then 4 else 0)
          + (if p.packet_type == sr then 20 else 0)
          + length p.blocks * 24
          + length p.payload
  unfolding write_body
  length-write_body p = ground (
    arith,
    length-append opening (sender ++ (write_blocks bin p.blocks ++ p.payload)),
    length-append sender (write_blocks bin p.blocks ++ p.payload),
    length-append (write_blocks bin p.blocks) p.payload,
    length-write_blocks be p.blocks,
    length-write_sender p,
    length-write32 be p.ssrc,
  )
    where
      opening : List ℕ
      opening = if p.packet_type == sr || p.packet_type == rr then bin.write32 p.ssrc else []

      sender : List ℕ
      sender = if p.packet_type == sr then write_sender bin p else []

  -- The header and the body.
  abbrev written : RtcpPacket → List ℕ
  written p = write_header bin p ++ write_body bin p

  abbrev pad_of : RtcpPacket → ℕ
  pad_of p = 4 - length (written p) % 4

  serialized_size_lem :
      (p : RtcpPacket)
      → serialized_size p ≡ length (written p) + (if p.padding == 0 then 0 else pad_of p)
  unfolding serialized_size
  serialized_size_lem p = ground (
    arith,
    length-append (write_header bin p) (write_body bin p),
    length-write_header p,
    length-write_body p,
  )

  pub whole_size :
      (p : RtcpPacket) → IsValid p → (serialized_size p % 4 ≡ 0) × (4 ≤ serialized_size p)
  unfolding serialized_size
  whole_size p v = ground (arith, v.whole_words, v.padding_flag)

  stated_size-write_header :
      (p : RtcpPacket) (rest : List ℕ)
      → IsValid p
      → stated_size bin (write_header bin p ++ rest) ≡ serialized_size p
  unfolding stated_size write_header
  stated_size-write_header p rest v =
      simp (be.write16_lem, be.read16_lem) (omega (arith, whole_size p v, v.size_fits))

  abbrev padding_bytes : RtcpPacket → List ℕ
  padding_bytes p = write_padding p.padding (serialized_size p) (length (written p))

  -- All the bytes that `write_to` stores.
  abbrev pub image : RtcpPacket → List ℕ
  image p = written p ++ padding_bytes p

  pub length-image : (p : RtcpPacket) → IsValid p → length (image p) ≡ serialized_size p
  length-image p v = rw (serialized_size_lem p) (
      omega (
        arith,
        length-append (written p) (
            write_padding p.padding (length (written p) + (if p.padding == 0 then 0 else pad_of p))
              (length (written p))),
        length-write_padding p.padding (length (written p)) (pad_of p) v.padding_flag,
      ))

  strip_padding_lem :
      (p : RtcpPacket)
      → IsValid p
      → strip_padding p.padding (p.payload ++ padding_bytes p) ≡ some p.payload
  strip_padding_lem p v = rw (serialized_size_lem p) (
      strip_padding-write_padding p.padding (length (written p)) (pad_of p) p.payload v.padding_flag
        (omega arith) (omega arith))

  -- What stands behind the header, as the parser takes it apart.
  abbrev content : RtcpPacket → List ℕ
  content p = front bin p (p.payload ++ padding_bytes p)

  image_parts : (p : RtcpPacket) → image p ≡ write_header bin p ++ content p
  unfolding write_body
  image_parts p = simp append_assoc

  length-content : (p : RtcpPacket) → IsValid p → serialized_size p - 4 ≡ length (content p)
  length-content p v =
      let total : length (image p) ≡ length (write_header bin p) + length (content p) =
        ap length (image_parts p) ∙ length-append (write_header bin p) (content p) in
      omega (arith, total, length-image p v, length-write_header p)

  pub stated_size-image :
      (p : RtcpPacket) (rest : List ℕ)
      → IsValid p
      → stated_size bin (image p ++ rest) ≡ serialized_size p
  stated_size-image p rest v =
      ap (stated_size bin)
        (ap (λ t. t ++ rest) (image_parts p) ∙ append_assoc (write_header bin p) (content p) rest)
      ∙ stated_size-write_header p (content p ++ rest) v

  -- Bytes behind the packet do not matter.
  pub parse-image :
      (p : RtcpPacket) (rest : List ℕ) → IsValid p → parse bin (image p ++ rest) ≡ some p
  unfolding parse
  parse-image p rest v =
      let long : ltb (length (image p ++ rest)) 4 ≡ false =
        ground (arith, length-append (image p) rest, length-image p v, whole_size p v) in
      let whole : ltb (length (image p ++ rest)) (serialized_size p) ≡ false =
        ground (arith, length-append (image p) rest, length-image p v) in
      let shape : image p ++ rest ≡ write_header bin p ++ (content p ++ rest) =
        ap (λ t. t ++ rest) (image_parts p) ∙ append_assoc (write_header bin p) (content p) rest in
      rw shape (
        simp (
          ap (λ t. ltb (length t) 4) (sym shape) ∙ long,
          ap (λ t. ltb (length t) (serialized_size p)) (sym shape) ∙ whole,
          stated_size-write_header p (content p ++ rest) v,
          parse_header-write_header p (content p ++ rest) v,
          drop-write_header p (content p ++ rest),
          take-append (serialized_size p - 4) (content p) rest (length-content p v),
          parse_body-front be p (p.payload ++ padding_bytes p) v (strip_padding_lem p v),
        ))

  -- Given a valid packet and a buffer of at least `serialized_size` bytes, `write_to` returns that
  -- size, leaves the buffer's length as it was, and stores bytes that parse to the same packet,
  -- whatever stands behind them in the buffer.
  pub rtcp_parse-write_to :
      {p : RtcpPacket} (buf : List ℕ)
      → IsValid p
      → serialized_size p ≤ length buf
      → (out : List ℕ) × (write_to bin p buf ≡ some (serialized_size p, out))
        × (length out ≡ length buf)
        × (parse bin out ≡ some p)
  unfolding write_to
  rtcp_parse-write_to {p} buf v h = (
    image p ++ drop (length (image p)) buf,
    rw (le→ltb (length buf) (serialized_size p) h),
    omega (
      arith,
      length-append (image p) (drop (length (image p)) buf),
      length-drop (length (image p)) buf,
      length-image p v,
    ),
    parse-image p (drop (length (image p)) buf) v,
  )

  -- In a buffer of just its size a packet is the image.
  pub write_to-image :
      {p : RtcpPacket} (buf out : List ℕ)
      → IsValid p
      → length buf ≡ serialized_size p
      → write_to bin p buf ≡ some (serialized_size p, out)
      → out ≡ image p
  unfolding write_to
  write_to-image {p} buf out v e w =
      let stored : write_to bin p buf ≡ some (serialized_size p, image p) =
        rw
          (
            le→ltb (length buf) (serialized_size p) (omega arith),
            drop-all (length (image p)) buf (omega (arith, length-image p v)),
            append-nil (image p),
          )
          refl in
      cc
