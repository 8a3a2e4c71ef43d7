-- ===== src/Vpx/Descriptor/Fields.antt =====
-- The optional fields of a descriptor, read back one by one.
use asio_rtc.Common.{
  ℕ, true, false, not, ◌+◌, ◌*◌, ◌/◌, ◌%◌, ◌^◌, ◌<◌, ◌≡◌, refl, ◌∙◌, u8, u16, ◌<<<◌, ◌>>>◌, bit_and,
  bit_or, Bool, inl, inr, Bool-cases, ltb, ltb→lt, ◌==◌, ◌||◌, Option, none, some, List, ◌++◌,
  length, arith,
}
use asio_rtc.Common.Bits.{bit_or-eq-add, bit_and-mask, bit_and-shift, bit_or-zero}
use asio_rtc.Vpx.{
  VpxPayloadDescriptor, is_some, flag, picture_id_bytes, tl0picidx_bytes, tk_bytes, tid_bits,
  keyidx_bits,
}
use asio_rtc.Vpx.Descriptor.{
  read_long_id, read_id, read_picture_id, read_idx, read_tl0picidx, read_tid_keyidx, read_tk,
}

-- The extension byte from its flags.
abbrev pub flags : Bool → Bool → Bool → Bool → ℕ
flags p l t k = bit_or (bit_or (bit_or (flag p 0x80) (flag l 0x40)) (flag t 0x20)) (flag k 0x10)

abbrev pub Flagged : Bool → Bool → Bool → Bool → Type 0
Flagged p l t k =
    (not (bit_and (flags p l t k) 0x80 == 0) ≡ p)
    × (not (bit_and (flags p l t k) 0x40 == 0) ≡ l)
    × (not (bit_and (flags p l t k) 0x20 == 0) ≡ t)
    × (not (bit_and (flags p l t k) 0x10 == 0) ≡ k)
    × (not (bit_and (flags p l t k) 0x30 == 0) ≡ (t || k))

pub flags-Flagged : (p l t k : Bool) → Flagged p l t k
flags-Flagged false false false false = (refl, refl, refl, refl, refl)
flags-Flagged false false false true = (refl, refl, refl, refl, refl)
flags-Flagged false false true false = (refl, refl, refl, refl, refl)
flags-Flagged false false true true = (refl, refl, refl, refl, refl)
flags-Flagged false true false false = (refl, refl, refl, refl, refl)
flags-Flagged false true false true = (refl, refl, refl, refl, refl)
flags-Flagged false true true false = (refl, refl, refl, refl, refl)
flags-Flagged false true true true = (refl, refl, refl, refl, refl)
flags-Flagged true false false false = (refl, refl, refl, refl, refl)
flags-Flagged true false false true = (refl, refl, refl, refl, refl)
flags-Flagged true false true false = (refl, refl, refl, refl, refl)
flags-Flagged true false true true = (refl, refl, refl, refl, refl)
flags-Flagged true true false false = (refl, refl, refl, refl, refl)
flags-Flagged true true false true = (refl, refl, refl, refl, refl)
flags-Flagged true true true false = (refl, refl, refl, refl, refl)
flags-Flagged true true true true = (refl, refl, refl, refl, refl)

-- The values that fit their bits.
unfoldable pub FitsIn : ℕ → Option ℕ → Type 0
FitsIn n none = Unit
FitsIn n (some v) = v < n

unfoldable pub TidFits : Option (ℕ × ℕ) → Type 0
TidFits none = Unit
TidFits (some (tid, y)) = (tid < 4) × (y < 2)

top_bit : (b : ℕ) → b < 256 → bit_and b 0x80 ≡ b / 128 * 128
top_bit b h = rw (bit_and-shift 7 b 1, bit_and-mask 1 (b / 2 ^ 7)) (omega arith)

high_byte : (id : ℕ) → id < 2 ^ 15 → u8 (u16 (bit_or 0x8000 id) >>> 8) ≡ 128 + id / 256
high_byte id h = rw (bit_or-eq-add 15 1 id h) (omega arith)

low_byte : (id : ℕ) → id < 2 ^ 15 → u8 (bit_and (u16 (bit_or 0x8000 id)) 0xff) ≡ id % 256
low_byte id h = rw (bit_or-eq-add 15 1 id h, bit_and-mask 8 ((32768 + id) % 2 ^ 16)) (omega arith)

whole_id : (id : ℕ) → id < 2 ^ 15 → bit_or (bit_and (128 + id / 256) 0x7f <<< 8) (id % 256) ≡ id
whole_id id h =
    rw
      (
        bit_and-mask 7 (128 + id / 256),
        bit_or-eq-add 8 ((128 + id / 256) % 2 ^ 7) (id % 256) (omega arith),
      )
      (omega arith)

pub read_picture_id-bytes :
    (ext : ℕ) (id : Option ℕ) (d : VpxPayloadDescriptor) (pos : ℕ) (rest : List ℕ)
    → not (bit_and ext 0x80 == 0) ≡ is_some id
    → d.picture_id ≡ none
    → FitsIn (2 ^ 15) id
    → read_picture_id ext d pos (picture_id_bytes id ++ rest)
      ≡ (record d { picture_id = id }, some (pos + length (picture_id_bytes id), rest))
unfolding read_picture_id picture_id_bytes read_id read_long_id FitsIn
read_picture_id-bytes ext none d pos rest e n h = rw e (ground (arith, n))
read_picture_id-bytes ext (some id) d pos rest e n h = elim (Bool-cases (ltb id 128)) [
  | inl s ↦
      let below : id < 128 = ltb→lt id 128 s in
      let byte : u8 id ≡ id = omega arith in
      let clear : bit_and id 0x80 ≡ 0 = top_bit id (omega arith) ∙ omega arith in
      simp (s, e, byte, clear)
  | inr s ↦
      let top : bit_and (128 + id / 256) 0x80 ≡ 128 =
        top_bit (128 + id / 256) (omega arith) ∙ omega arith in
      simp (s, e, high_byte id h, low_byte id h, top, whole_id id h)
]

pub read_tl0picidx-bytes :
    (ext : ℕ) (idx : Option ℕ) (d : VpxPayloadDescriptor) (pos : ℕ) (rest : List ℕ)
    → not (bit_and ext 0x40 == 0) ≡ is_some idx
    → d.tl0picidx ≡ none
    → read_tl0picidx ext d pos (tl0picidx_bytes idx ++ rest)
      ≡ (record d { tl0picidx = idx }, some (pos + length (tl0picidx_bytes idx), rest))
unfolding read_tl0picidx tl0picidx_bytes read_idx
read_tl0picidx-bytes ext none d pos rest e n = rw e (ground (arith, n))
read_tl0picidx-bytes ext (some idx) d pos rest e n = rw e refl

tid_sum : (t y : ℕ) → t < 4 → y < 2 → u8 (bit_or (t <<< 6) (y <<< 5)) ≡ (t * 2 + y) * 2 ^ 5
tid_sum t y ht hy = rw (bit_or-eq-add 6 t (y * 32) (omega arith)) (omega arith)

keyidx_same : (k : ℕ) → k < 32 → bit_and k 0x1f ≡ k
keyidx_same k h = rw (bit_and-mask 5 k) (omega arith)

tid_back : (t y k : ℕ) → t < 4 → y < 2 → k < 32 → bit_and (((t * 2 + y) * 2 ^ 5 + k) >>> 6) 3 ≡ t
tid_back t y k ht hy hk = rw (bit_and-mask 2 (((t * 2 + y) * 2 ^ 5 + k) / 2 ^ 6)) (omega arith)

y_back : (t y k : ℕ) → t < 4 → y < 2 → k < 32 → bit_and (((t * 2 + y) * 2 ^ 5 + k) >>> 5) 1 ≡ y
y_back t y k ht hy hk = rw (bit_and-mask 1 (((t * 2 + y) * 2 ^ 5 + k) / 2 ^ 5)) (omega arith)

keyidx_back : (q k : ℕ) → k < 32 → bit_and (q * 2 ^ 5 + k) 0x1f ≡ k
keyidx_back q k hk = rw (bit_and-mask 5 (q * 2 ^ 5 + k)) (omega arith)

-- The byte of the layer and the key index.
tk_sum : (q k : ℕ) → k < 32 → bit_or (q * 2 ^ 5) k ≡ q * 2 ^ 5 + k
tk_sum q k h = bit_or-eq-add 5 q k h

pub read_tk-bytes :
    (ext : ℕ) (tid : Option (ℕ × ℕ)) (keyidx : Option ℕ) (d : VpxPayloadDescriptor) (pos : ℕ)
    (rest : List ℕ)
    → not (bit_and ext 0x20 == 0) ≡ is_some tid
    → not (bit_and ext 0x10 == 0) ≡ is_some keyidx
    → not (bit_and ext 0x30 == 0) ≡ (is_some tid || is_some keyidx)
    → d.tid ≡ none
    → d.keyidx ≡ none
    → TidFits tid
    → FitsIn 32 keyidx
    → read_tk ext d pos (tk_bytes tid keyidx ++ rest)
      ≡ (record d { tid = tid; keyidx = keyidx }, some (pos + length (tk_bytes tid keyidx), rest))
unfolding read_tk tk_bytes read_tid_keyidx tid_bits keyidx_bits FitsIn TidFits
read_tk-bytes ext none none d pos rest e e' e'' n n' h h' = rw e'' (ground (arith, n, n'))
read_tk-bytes ext none (some k) d pos rest e e' e'' n n' h h' =
    simp (e, e', e'', n, keyidx_same k h', tk_sum 0 k h', keyidx_back 0 k h')
read_tk-bytes ext (some (t, y)) none d pos rest e e' e'' n n' h h' =
    simp (e, e', e'', n', tid_sum t y h.0 h.1, bit_or-zero ((t * 2 + y) * 2 ^ 5))
      (rw (bit_and-mask 2 ((t * 2 + y) * 32 / 64), bit_and-mask 1 ((t * 2 + y) * 32 / 32))
        (ground arith))
read_tk-bytes ext (some (t, y)) (some k) d pos rest e e' e'' n n' h h' = simp (
  e,
  e',
  e'',
  tid_sum t y h.0 h.1,
  keyidx_same k h',
  tk_sum (t * 2 + y) k h',
  tid_back t y k h.0 h.1 h',
  y_back t y k h.0 h.1 h',
  keyidx_back (t * 2 + y) k h',
)
