-- ===== src/Tests/Vpx.antt =====
-- The VPX and Opus packetizers at concrete inputs.
use asio_rtc.Common.{arith, length, ◌≡◌, refl, some, none, true, [], ◌∷◌, ◌++◌, replicate, All}
use asio_rtc.Vpx.{
  VpxPayloadDescriptor, bytes, first_octet, extension_octet, picture_id_bytes, tl0picidx_bytes,
  tk_bytes, tid_bits, keyidx_bits, chunks, vpx_pack, opus_pack,
}
use asio_rtc.Vpx.Chunks.{join, Fits, vpx_pack-join}
use asio_rtc.Vpx.Descriptor.{parse, read_extension, read_picture_id, read_id, read_long_id}
use asio_rtc.Vpx.Descriptor.Fields.{FitsIn, TidFits}
use asio_rtc.Vpx.Descriptor.RoundTrip.{IsValid, vpx_parse-bytes}

abbrev layered : VpxPayloadDescriptor
layered = record {
  partition_start = true;
  partition_id = 3;
  picture_id = some 300;
  tl0picidx = some 9;
  tid = some (2, 1);
  keyidx = some 17;
}

bytes-layered : bytes layered ≡ 0x93 ∷ 0xf0 ∷ 0x81 ∷ 0x2c ∷ 9 ∷ 0xb1 ∷ []
unfolding bytes first_octet extension_octet picture_id_bytes tl0picidx_bytes tk_bytes tid_bits
    keyidx_bits
bytes-layered = refl

two_payloads : vpx_pack 0x7fff (replicate 1200 5) 40 ≡ (
  (
    (0x90 ∷ 0x80 ∷ 0xff ∷ 0xff ∷ replicate 1196 5)
        ∷ (0x80 ∷ 0x80 ∷ 0xff ∷ 0xff ∷ replicate 4 5)
        ∷ [],
    40,
  ),
  0,
)
unfolding vpx_pack chunks bytes first_octet extension_octet picture_id_bytes tl0picidx_bytes
    tk_bytes
two_payloads = refl

opus_whole : opus_pack (1 ∷ 2 ∷ []) 7 ≡ ((1 ∷ 2 ∷ []) ∷ [], 7)
unfolding opus_pack
opus_whole = refl

vpx_pack-join_run :
    (join 3 (vpx_pack 5 (replicate 1300 7) 40).0.0 ≡ replicate 1300 7)
    × All Fits (vpx_pack 5 (replicate 1300 7) 40).0.0
vpx_pack-join_run = vpx_pack-join 5 (replicate 1300 7) 40

-- The data ends inside the picture number: what was read is kept, and nothing is consumed.
cut_short : parse (0x90 ∷ 0xc0 ∷ 0x81 ∷ []) ≡ (
  record layered {
    partition_id = 0;
    picture_id = none;
    tl0picidx = none;
    tid = none;
    keyidx = none;
  },
  0,
)
unfolding parse read_extension read_picture_id read_id read_long_id
cut_short = refl

layered-IsValid : IsValid layered
unfolding FitsIn TidFits
layered-IsValid = record {
  id_fits = omega arith;
  picture_fits = omega arith;
  tid_fits = (omega arith, omega arith);
  keyidx_fits = omega arith;
}

vpx_parse-bytes_example : parse (bytes layered ++ (1 ∷ 2 ∷ [])) ≡ (layered, length (bytes layered))
vpx_parse-bytes_example = vpx_parse-bytes layered (1 ∷ 2 ∷ []) layered-IsValid
