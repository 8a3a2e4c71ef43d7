-- ===== src/Connection/Stripped.antt =====
-- What the receiving side leaves of a VP8 packet is what the packetizer put in.
use asio_rtc.Common.{
  ℕ, zero, suc, ◌+◌, ◌/◌, ◌^◌, ◌≤◌, ◌<◌, ◌≡◌, refl, ◌∙◌, inl, inr, bit_and, bit_or, u8, u16, ◌>>>◌,
  Bool, true, false, not, ltb, leb, ◌==◌, if◌then◌else◌, Bool-cases, List, [], ◌∷◌, ◌++◌, length,
  length-append, take, drop, All, ltb→lt, arith,
}
use asio_rtc.Common.Bits.{bit_and-mask, bit_and-shift, bit_or-eq-add}
use asio_rtc.Sdp.Text.{codes}
use asio_rtc.Sdp.Names.{Nceq}
use asio_rtc.Vpx.{
  first_octet, extension_octet, bytes, picture_id_bytes, tl0picidx_bytes, tk_bytes, chunks,
  vpx_pack,
}
use asio_rtc.Vpx.Chunks.{picture, descriptor_size, join, vpx_pack-join}
use asio_rtc.Connection.Route.{behind_picture_id, behind_flag, bitstream_offset, depayload}

-- The first octet has the flag of the extension octet, and that only the one of the number.
offset_lem :
    (b0 b : ℕ) (rest : List ℕ)
    → bit_and (b0 >>> 7) 1 == 0 ≡ false
    → bitstream_offset (b0 ∷ 0x80 ∷ b ∷ rest) ≡ (if not (bit_and b 0x80 == 0) then 4 else 3)
unfolding bitstream_offset behind_picture_id behind_flag
offset_lem b0 b rest h =
    let two : ltb 1 (length (b0 ∷ 0x80 ∷ b ∷ rest)) ≡ true = ground arith in
    let three : ltb 2 (length (b0 ∷ 0x80 ∷ b ∷ rest)) ≡ true = ground arith in
    rw (h, two, three)
      (elim (Bool-cases (bit_and b 0x80 == 0)) [ inl e ↦ rw e refl | inr e ↦ rw e refl ])

small_id : (id : ℕ) → id < 128 → bit_and (u8 id) 0x80 == 0 ≡ true
small_id id h =
    let low : bit_and (u8 id) 0x80 ≡ 0 =
      omega (arith, bit_and-shift 7 (u8 id) 1, bit_and-mask 1 (u8 id / 128)) in
    rw low refl

large_id : (id : ℕ) → id < 2 ^ 15 → bit_and (u8 (u16 (bit_or 0x8000 id) >>> 8)) 0x80 == 0 ≡ false
large_id id h =
    let joined : bit_or 0x8000 id ≡ 0x8000 + id = omega (arith, bit_or-eq-add 15 1 id h) in
    let octet : u8 (u16 (bit_or 0x8000 id) >>> 8) ≡ 128 + id / 256 = rw joined (omega arith) in
    let high : bit_and (128 + id / 256) 0x80 ≡ 128 =
      omega (arith, bit_and-shift 7 (128 + id / 256) 1, bit_and-mask 1 ((128 + id / 256) / 128)) in
    rw (octet, high) refl

bitstream_offset-picture :
    (first : Bool) (id : ℕ) (chunk : List ℕ)
    → id < 2 ^ 15
    → bitstream_offset (bytes (picture first id) ++ chunk) ≡ descriptor_size id
unfolding bytes picture_id_bytes tl0picidx_bytes tk_bytes first_octet extension_octet
bitstream_offset-picture true id chunk h = elim (Bool-cases (ltb id 128)) [
  | inl e ↦ rw e (offset_lem 144 (u8 id) chunk refl ∙ rw (small_id id (ltb→lt id 128 e)) refl)
  | inr e ↦ rw e (offset_lem 144 _ _ refl ∙ rw (large_id id h) refl)
]
bitstream_offset-picture false id chunk h = elim (Bool-cases (ltb id 128)) [
  | inl e ↦ rw e (offset_lem 128 (u8 id) chunk refl ∙ rw (small_id id (ltb→lt id 128 e)) refl)
  | inr e ↦ rw e (offset_lem 128 _ _ refl ∙ rw (large_id id h) refl)
]

-- A descriptor of the packetizers, and a part of the frame.
record IsPayload (id : ℕ) (p : List ℕ) : Type 0 where
  first : Bool
  chunk : List ℕ
  parts : p ≡ bytes (picture first id) ++ chunk

chunks-IsPayload :
    (fuel : ℕ) (first : Bool) (id : ℕ) (rest : List ℕ)
    → All (IsPayload id) (chunks fuel (picture first id) rest)
unfolding chunks
chunks-IsPayload zero first id rest = tt
chunks-IsPayload (suc fuel) first id rest = elim (Bool-cases (length rest == 0)) [
  | inl e ↦ rw (chunks, e) tt
  | inr e ↦
      rw (chunks, e)
        (
          record { first = first; chunk = take _ rest; parts = refl },
          chunks-IsPayload fuel false id (drop _ rest),
        )
]

length-picture : (first : Bool) (id : ℕ) → length (bytes (picture first id)) ≡ descriptor_size id
unfolding bytes picture_id_bytes tl0picidx_bytes tk_bytes
length-picture first id = ground arith

-- The payloads as the receiving side leaves them, one behind the other.
unfoldable pub depayload_all : Nceq → List ℕ → List (List ℕ) → List ℕ
depayload_all nceq name [] = []
depayload_all nceq name (p ∷ ps) = depayload nceq name p ++ depayload_all nceq name ps

module _ (nceq : Nceq) (name : List ℕ) (vp8 : nceq name (codes "VP8") ≡ true) where
  depayload-IsPayload :
      (id : ℕ) (p : List ℕ)
      → id < 2 ^ 15
      → IsPayload id p
      → depayload nceq name p ≡ drop (descriptor_size id) p
  unfolding depayload
  depayload-IsPayload id p h parts =
      let whole = bytes (picture parts.first id) ++ parts.chunk in
      let offset : bitstream_offset whole ≡ descriptor_size id =
        bitstream_offset-picture parts.first id parts.chunk h in
      let size : length whole ≡ descriptor_size id + length parts.chunk = ground (
        arith,
        length-append (bytes (picture parts.first id)) parts.chunk,
        length-picture parts.first id,
      ) in
      let three : 3 ≤ descriptor_size id = ground arith in
      let some_byte : length whole == 0 ≡ false = ground (arith, size, three) in
      let inside : leb (bitstream_offset whole) (length whole) ≡ true =
        ground (arith, size, offset) in
      rw (parts.parts) (rw (vp8, some_byte) (rw (inside, offset) refl))

  depayload_all-join :
      (id : ℕ) (ps : List (List ℕ))
      → id < 2 ^ 15
      → All (IsPayload id) ps
      → depayload_all nceq name ps ≡ join (descriptor_size id) ps
  unfolding depayload_all join
  depayload_all-join id [] h all = refl
  depayload_all-join id (p ∷ ps) h (first, rest) =
      rw (depayload-IsPayload id p h first, depayload_all-join id ps h rest) refl

  -- A VP8 frame that is cut into payloads, and stripped of the descriptors by the receiving side, is
  -- the frame again, for every picture number of 15 bits and every spelling of the codec's name.
  pub depayload_all-vpx_pack :
      (picture_id : ℕ) (frame : List ℕ) (timestamp : ℕ)
      → picture_id < 2 ^ 15
      → depayload_all nceq name (vpx_pack picture_id frame timestamp).0.0 ≡ frame
  unfolding vpx_pack
  depayload_all-vpx_pack picture_id frame timestamp h =
      depayload_all-join picture_id (vpx_pack picture_id frame timestamp).0.0 h
        (chunks-IsPayload (length frame) true picture_id frame)
      ∙ (vpx_pack-join picture_id frame timestamp).0
