-- ===== src/Rtcp/Compound.antt =====
-- Compound packets: several packets one behind the other.
use asio_rtc.Common.{
  ℕ, false, zero, suc, ◌≤◌, ◌≡◌, refl, ap, ◌∙◌, sym, some, List, [], ◌∷◌, ◌++◌, length,
  length-append, take-append, drop-append, All, arith, append-nil, ltb,
}
use asio_rtc.Binary.{Binary, IsBigEndian}
use asio_rtc.Rtcp.{RtcpPacket, serialized_size, parse, write_to, compound_loop, parse_compound}
use asio_rtc.Rtcp.Valid.{IsValid}
use asio_rtc.Rtcp.RoundTrip.{
  image, length-image, whole_size, parse-image, stated_size-image, write_to-image,
}

-- The bytes are what `write_to` makes of the packets, each in a buffer of its size.
unfoldable pub AreWritten : Binary → List RtcpPacket → List ℕ → Type 0
AreWritten bin [] bytes = bytes ≡ []
AreWritten bin (p ∷ ps) bytes =
    (buf : List ℕ) × (out : List ℕ) × (rest : List ℕ) × (length buf ≡ serialized_size p)
    × (write_to bin p buf ≡ some (serialized_size p, out))
    × (bytes ≡ out ++ rest)
    × AreWritten bin ps rest

module _ {bin : Binary} (be : IsBigEndian bin) where
  loop_image :
      (fuel : ℕ) (p : RtcpPacket) (rest : List ℕ)
      → IsValid p
      → compound_loop bin (suc fuel) (image be p ++ rest) ≡ p ∷ compound_loop bin fuel rest
  unfolding compound_loop
  loop_image fuel p rest v =
      let header : ltb (length (image be p ++ rest)) 4 ≡ false =
        ground (arith, length-append (image be p) rest, length-image be p v, whole_size be p v) in
      let whole : ltb (length (image be p ++ rest)) (serialized_size p) ≡ false =
        ground (arith, length-append (image be p) rest, length-image be p v) in
      let alone : parse bin (image be p) ≡ some p =
        ap (parse bin) (sym (append-nil (image be p))) ∙ parse-image be p [] v in
      simp (
        stated_size-image be p rest v,
        header,
        whole,
        take-append (serialized_size p) (image be p) rest (sym (length-image be p v)),
        drop-append (serialized_size p) (image be p) rest (sym (length-image be p v)),
        alone,
      )

  loop_nothing : (fuel : ℕ) → compound_loop bin fuel [] ≡ []
  unfolding compound_loop
  loop_nothing zero = refl
  loop_nothing (suc fuel) = refl

  -- A packet is not shorter than its header, so the length of the bytes is enough fuel.
  enough_fuel :
      (ps : List RtcpPacket) (bytes : List ℕ)
      → All IsValid ps
      → AreWritten bin ps bytes
      → length ps ≤ length bytes
  unfolding AreWritten
  enough_fuel [] bytes v w = omega arith
  enough_fuel (p ∷ ps) bytes v (buf, out, rest, e, stored, split, later) = rw split (
      omega (
        arith,
        length-append out rest,
        ap length (write_to-image be buf out v.0 e stored),
        length-image be p v.0,
        whole_size be p v.0,
        enough_fuel ps rest v.1 later,
      ))

  compound_loop-written :
      (fuel : ℕ) (ps : List RtcpPacket) (bytes : List ℕ)
      → length ps ≤ fuel
      → All IsValid ps
      → AreWritten bin ps bytes
      → compound_loop bin fuel bytes ≡ ps
  unfolding AreWritten
  compound_loop-written fuel [] bytes h v w = ap (compound_loop bin fuel) w ∙ loop_nothing fuel
  compound_loop-written zero (p ∷ ps) bytes h v w = absurd (omega arith)
  compound_loop-written (suc fuel) (p ∷ ps) bytes h v (buf, out, rest, e, stored, split, later) =
      ap (compound_loop bin (suc fuel))
        (split ∙ ap (λ t. t ++ rest) (write_to-image be buf out v.0 e stored))
      ∙ (loop_image fuel p rest v.0
          ∙ ap (λ t. p ∷ t) (compound_loop-written fuel ps rest (omega arith) v.1 later))

  -- The bytes of valid packets, each as `write_to` stores it in a buffer of its size, one behind
  -- the other, are parsed to the same packets in the same order.
  pub parse_compound-write_to :
      (ps : List RtcpPacket) (bytes : List ℕ)
      → All IsValid ps
      → AreWritten bin ps bytes
      → parse_compound bin bytes ≡ ps
  unfolding parse_compound
  parse_compound-write_to ps bytes v w =
      compound_loop-written (length bytes) ps bytes (enough_fuel ps bytes v w) v w
