-- ===== src/Rtp/RoundTrip.antt =====
-- `parse` reads back what `write_to` wrote.
use asio_rtc.Common.{
  ℕ, ◌+◌, ◌-◌, ◌*◌, ◌%◌, ◌≤◌, ◌≡◌, refl, sym, ◌==◌, le→ltb, if◌then◌else◌, some, List, [], ◌++◌,
  length, length-append, length-drop, take, drop, take-append, arith, append_assoc,
}
use asio_rtc.Binary.{Binary, IsBigEndian}
use asio_rtc.Rtp.{
  RtpPacket, parse_payload, parse, write_header, write_csrcs, write_extension, write_body,
  write_padding, write_to, serialized_size,
}
use asio_rtc.Rtp.Valid.{IsValid}
use asio_rtc.Rtp.Header.{
  drop-write_header, length-write_header, is_rtp_packet-write_header, parse_header-write_header,
}
use asio_rtc.Rtp.Fields.{
  length-write_csrcs, length-write_extension, parse_csrcs-write_csrcs,
  parse_extension-write_extension,
}
use asio_rtc.Rtp.Padding.{strip_padding-write_padding, length-write_padding}

module _ {bin : Binary} (be : IsBigEndian bin) where
  length-write_body :
      (p : RtpPacket)
      → IsValid p
      → length (write_body bin p)
        ≡ 12
          + p.csrc_count * 4
          + (if p.extension == 0 then 0 else length p.extension_data + 4)
          + length p.payload
  unfolding write_body
  length-write_body p v = ground (
    arith,
    length-append (write_header bin p)
        (write_csrcs bin p.csrcs ++ (write_extension bin p ++ p.payload)),
    length-append (write_csrcs bin p.csrcs) (write_extension bin p ++ p.payload),
    length-append (write_extension bin p) p.payload,
    length-write_header be p,
    length-write_csrcs be p.csrcs,
    length-write_extension be p v,
    v.sources,
  )

  -- The number of padding bytes that a packet with the flag gets.
  abbrev pad_of : RtpPacket → ℕ
  pad_of p = 4 - length (write_body bin p) % 4

  serialized_size_lem :
      (p : RtpPacket)
      → IsValid p
      → serialized_size p ≡ length (write_body bin p) + (if p.padding == 0 then 0 else pad_of p)
  unfolding serialized_size
  serialized_size_lem p v = ground (arith, length-write_body p v, v.whole_words)

  -- All the bytes that `write_to` stores.
  abbrev pub image : RtpPacket → List ℕ
  image p =
      write_body bin p ++ write_padding p.padding (serialized_size p) (length (write_body bin p))

  pub length-image : (p : RtpPacket) → IsValid p → length (image p) ≡ serialized_size p
  length-image p v = rw (serialized_size_lem p v) (
      omega (
        arith,
        length-append (write_body bin p) (
            write_padding p.padding
              (length (write_body bin p) + (if p.padding == 0 then 0 else pad_of p))
              (length (write_body bin p))),
        length-write_padding p.padding (length (write_body bin p)) (pad_of p) v.padding_flag,
      ))

  parse_payload-padding :
      (p q : RtpPacket)
      → IsValid p
      → q.padding ≡ p.padding
      → parse_payload bin q
          (p.payload ++ write_padding p.padding (serialized_size p) (length (write_body bin p)))
        ≡ some (record q { payload = p.payload })
  unfolding parse_payload
  parse_payload-padding p q v e = rw (
    e,
    serialized_size_lem p v,
    strip_padding-write_padding p.padding (length (write_body bin p)) (pad_of p) p.payload
        v.padding_flag (omega arith) (omega arith),
  )

  -- The image as the parser takes it apart.
  pub image_parts :
      (p : RtpPacket)
      → image p
        ≡ write_header bin p
          ++ (write_csrcs bin p.csrcs
              ++ (write_extension bin p
                  ++ (p.payload
                      ++ write_padding p.padding (serialized_size p) (length (write_body bin p)))))
  unfolding write_body
  image_parts p = simp append_assoc

  pub parse-image : (p : RtpPacket) → IsValid p → parse bin (image p) ≡ some p
  unfolding parse
  parse-image p v = rw (image_parts p) (
      simp (
        is_rtp_packet-write_header be p _ v,
        parse_header-write_header be {p = p} _ v,
        drop-write_header be p,
        parse_csrcs-write_csrcs be
            (record p { csrcs = []; extension_profile = 0; extension_data = []; payload = [] })
            p.csrcs _ v.sources v.csrcs_fit,
        parse_extension-write_extension be p
            (record p { extension_profile = 0; extension_data = []; payload = [] }) _ v refl refl
            refl,
        parse_payload-padding p (record p { payload = [] }) v refl,
      ))

  -- Given a valid packet and a buffer of at least `serialized_size` bytes, `write_to` returns that
  -- size, leaves the buffer's length as it was, and stores bytes that parse to the same packet.
  pub parse-write_to :
      {p : RtpPacket} (buf : List ℕ)
      → IsValid p
      → serialized_size p ≤ length buf
      → (out : List ℕ) × (write_to bin p buf ≡ some (serialized_size p, out))
        × (length out ≡ length buf)
        × (parse bin (take (serialized_size p) out) ≡ some p)
  unfolding write_to
  parse-write_to {p} buf v h = (
    image p ++ drop (length (image p)) buf,
    rw (le→ltb (length buf) (serialized_size p) h),
    omega (
      arith,
      length-append (image p) (drop (length (image p)) buf),
      length-drop (length (image p)) buf,
      length-image p v,
    ),
    rw (take-append (serialized_size p) (image p) _ (sym (length-image p v))) (parse-image p v),
  )
