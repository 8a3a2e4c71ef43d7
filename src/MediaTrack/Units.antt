-- ===== src/MediaTrack/Units.antt =====
-- What one payload of the packetizer does to the unit that is being put together.
use asio_rtc.Common.{
  ℕ, ◌+◌, ◌*◌, ◌/◌, ◌%◌, ◌^◌, ◌<◌, ◌≤◌, ◌≡◌, bit_and, bit_or, bit_or, Bool, true, false,
  if◌then◌else◌, List, [], ◌∷◌, ◌++◌, arith,
}
use asio_rtc.Common.Bits.{bit_or-eq-add, bit_and-mask, bit_and-shift, bit_or_comm, bit_or-low}
use asio_rtc.H264.{fu_header}
use asio_rtc.MediaTrack.{Depacketizer, fu_start, fu_end, fu_unit, depacketize, append_unit}

-- The header of a fragment as a sum of its bits.
pub fu_header-as_sum :
    (first last : Bool) (t : ℕ)
    → t < 32
    → fu_header first last t ≡ (if first then 128 else 0) + (if last then 64 else 0) + t
unfolding fu_header
fu_header-as_sum false false t h = omega arith
fu_header-as_sum false true t h = rw (bit_or_comm t 0x40) (bit_or-eq-add 6 1 t (omega arith))
fu_header-as_sum true false t h = rw (bit_or_comm t 0x80) (bit_or-eq-add 7 1 t (omega arith))
fu_header-as_sum true true t h =
    rw
      (
        bit_or_comm t 0x80,
        bit_or-eq-add 7 1 t (omega arith),
        bit_or-low 7 1 t 64 (omega arith) (omega arith),
        bit_or_comm t 0x40,
        bit_or-eq-add 6 1 t (omega arith),
      )
      (omega arith)

abbrev pub indicator : ℕ → ℕ
indicator hdr = hdr / 32 % 4 * 32 + 28

pub indicator_as_sum : (hdr : ℕ) → bit_or (bit_and hdr 0x60) 28 ≡ hdr / 32 % 4 * 32 + 28
indicator_as_sum hdr =
    rw (bit_and-shift 5 hdr 3, bit_and-mask 2 (hdr / 32))
      (bit_or-eq-add 5 (hdr / 32 % 4) 28 (omega arith))

abbrev bit : Bool → ℕ → ℕ
bit flag weight = if flag then weight else 0

-- What the depacketizer reads of a fragment.
start_bit :
    (first last : Bool) (t : ℕ) → t < 32 → bit_and (fu_header first last t) 0x80 ≡ bit first 128
start_bit first last t h =
    rw
      (
        fu_header-as_sum first last t h,
        bit_and-shift 7 (bit first 128 + bit last 64 + t) 1,
        bit_and-mask 1 ((bit first 128 + bit last 64 + t) / 2 ^ 7),
      )
      (ground arith)

end_bit : (first last : Bool) (t : ℕ) → t < 32 → bit_and (fu_header first last t) 0x40 ≡ bit last 64
end_bit first last t h =
    rw
      (
        fu_header-as_sum first last t h,
        bit_and-shift 6 (bit first 128 + bit last 64 + t) 1,
        bit_and-mask 1 ((bit first 128 + bit last 64 + t) / 2 ^ 6),
      )
      (ground arith)

type_bits : (first last : Bool) (t : ℕ) → t < 32 → bit_and (fu_header first last t) 0x1f ≡ t
type_bits first last t h =
    rw (fu_header-as_sum first last t h, bit_and-mask 5 (bit first 128 + bit last 64 + t))
      (ground arith)

indicator_is_fu : (hdr : ℕ) → bit_and (hdr / 32 % 4 * 32 + 28) 0x1f ≡ 28
indicator_is_fu hdr = rw (bit_and-mask 5 (hdr / 32 % 4 * 32 + 28)) (omega arith)

-- The unit's header from the indicator and the fragment's header.
rebuilt_header :
    (first last : Bool) (hdr : ℕ)
    → hdr < 128
    → bit_or
        (bit_and (hdr / 32 % 4 * 32 + 28) 0xe0)
        (bit_and (fu_header first last (hdr % 32)) 0x1f)
      ≡ hdr
rebuilt_header first last hdr h =
    rw
      (
        type_bits first last (hdr % 32) (omega arith),
        bit_and-shift 5 (hdr / 32 % 4 * 32 + 28) 7,
        bit_and-mask 3 ((hdr / 32 % 4 * 32 + 28) / 2 ^ 5),
        bit_or-eq-add 5 ((hdr / 32 % 4 * 32 + 28) / 2 ^ 5 % 2 ^ 3) (hdr % 32) (omega arith),
      )
      (omega arith)

abbrev pub finished : List ℕ → Depacketizer
finished out = record { out = out; partial = []; in_fu = false }

abbrev pub collecting : List ℕ → List ℕ → Depacketizer
collecting out partial = record { out = out; partial = partial; in_fu = true }

-- The first fragment starts the unit with its own header.
pub first_fragment :
    (s : Depacketizer) (last : Bool) (hdr : ℕ) (frag : List ℕ)
    → hdr < 128
    → depacketize s (indicator hdr ∷ fu_header true last (hdr % 32) ∷ frag)
      ≡ (if last then finished (append_unit s.out (hdr ∷ frag)) else collecting s.out (hdr ∷ frag))
unfolding depacketize fu_unit fu_start fu_end
first_fragment s true hdr frag h = simp (
  indicator_is_fu hdr,
  start_bit true true (hdr % 32) (omega arith),
  end_bit true true (hdr % 32) (omega arith),
  rebuilt_header true true hdr h,
)
first_fragment s false hdr frag h = simp (
  indicator_is_fu hdr,
  start_bit true false (hdr % 32) (omega arith),
  end_bit true false (hdr % 32) (omega arith),
  rebuilt_header true false hdr h,
)

-- A later one adds to it.
pub later_fragment :
    (last : Bool) (hdr : ℕ) (out partial frag : List ℕ)
    → depacketize (collecting out partial) (indicator hdr ∷ fu_header false last (hdr % 32) ∷ frag)
      ≡ (if last
          then finished (append_unit out (partial ++ frag))
          else collecting out (partial ++ frag))
unfolding depacketize fu_unit fu_start fu_end
later_fragment true hdr out partial frag = simp (
  indicator_is_fu hdr,
  start_bit false true (hdr % 32) (omega arith),
  end_bit false true (hdr % 32) (omega arith),
)
later_fragment false hdr out partial frag = simp (
  indicator_is_fu hdr,
  start_bit false false (hdr % 32) (omega arith),
  end_bit false false (hdr % 32) (omega arith),
)

-- A payload that is a unit of its own.
pub single_unit :
    (s : Depacketizer) (hdr : ℕ) (rest : List ℕ)
    → 1 ≤ hdr % 32
    → hdr % 32 ≤ 23
    → depacketize s (hdr ∷ rest) ≡ record s { out = append_unit s.out (hdr ∷ rest) }
unfolding depacketize
single_unit s hdr rest h h' = rw (bit_and-mask 5 hdr) (ground arith)
