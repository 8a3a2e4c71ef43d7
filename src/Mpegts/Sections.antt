-- ===== src/Mpegts/Sections.antt =====
-- A section with its checksum is accepted, and a program table is read back.
use asio_rtc.Common.{
  ℕ, zero, suc, ◌+◌, ◌-◌, ◌*◌, ◌/◌, ◌%◌, ◌^◌, ◌≤◌, ◌<◌, ◌≡◌, refl, ◌∙◌, inl, inr, bit_and, bit_or,
  ◌<<<◌, IsByte, true, false, ltb, leb, ◌==◌, Bool-cases, List, [], ◌∷◌, ◌++◌, append_assoc,
  append-nil, length, length-append, take, take-append, byte_at, All, lt→ltb, arith,
}
use asio_rtc.Common.Bits.{bit_and-mask, bit_or-eq-add, bit_xor-lt-pow}
use native.Mathlib.Nat.{zero-add, suc-add}
use asio_rtc.Mpegts.{ProgramInfo, max_programs}
use asio_rtc.Mpegts.Psi.{crc_bits, crc_loop, calculate_crc32, masked16, pat_loop, received_crc}

crc_bits-lt : (n crc : ℕ) → crc < 2 ^ 32 → crc_bits n crc < 2 ^ 32
unfolding crc_bits
crc_bits-lt zero crc h = h
crc_bits-lt (suc n) crc h = elim (Bool-cases (leb (2 ^ 31) crc)) [
  | inl e ↦
      rw (crc_bits, e)
        (crc_bits-lt n _ (bit_xor-lt-pow 32 _ 0x04C11DB7 (omega arith) (omega arith)))
  | inr e ↦ rw (crc_bits, e) (crc_bits-lt n _ (omega arith))
]

crc_loop-lt :
    (bytes : List ℕ) (crc : ℕ) → crc < 2 ^ 32 → All IsByte bytes → crc_loop crc bytes < 2 ^ 32
unfolding crc_loop
crc_loop-lt [] crc h bs = h
crc_loop-lt (b ∷ bytes) crc h bs =
    crc_loop-lt bytes _ (crc_bits-lt 8 _ (bit_xor-lt-pow 32 crc (b <<< 24) h (omega (arith, bs.0))))
      bs.1

pub crc-lt : (bytes : List ℕ) → All IsByte bytes → calculate_crc32 bytes < 2 ^ 32
unfolding calculate_crc32
crc-lt bytes bs = crc_loop-lt bytes 0xFFFFFFFF (omega arith) bs

-- A checksum's four bytes, the highest first.
unfoldable pub crc_bytes : ℕ → List ℕ
crc_bytes crc = (crc / 2 ^ 24 % 256) ∷ (crc / 2 ^ 16 % 256) ∷ (crc / 2 ^ 8 % 256) ∷ (crc % 256) ∷ []

unfoldable pub checked : List ℕ → List ℕ
checked body = body ++ crc_bytes (calculate_crc32 body)

byte_at-append :
    (body rest : List ℕ) (k : ℕ) → byte_at (body ++ rest) (length body + k) ≡ byte_at rest k
byte_at-append [] rest k = rw zero-add refl
byte_at-append (x ∷ body) rest k = rw suc-add (byte_at-append body rest k)

joined_crc :
    (crc : ℕ)
    → crc < 2 ^ 32
    → bit_or
        ((crc / 2 ^ 24 % 256) <<< 24)
        (bit_or ((crc / 2 ^ 16 % 256) <<< 16) (bit_or ((crc / 2 ^ 8 % 256) <<< 8) (crc % 256)))
      ≡ crc
joined_crc crc h =
    rw
      (
        bit_or-eq-add 8 (crc / 2 ^ 8 % 256) (crc % 256) (omega arith),
        bit_or-eq-add 16 (crc / 2 ^ 16 % 256) (crc / 2 ^ 8 % 256 * 2 ^ 8 + crc % 256) (omega arith),
        bit_or-eq-add 24 (crc / 2 ^ 24 % 256)
            (crc / 2 ^ 16 % 256 * 2 ^ 16 + (crc / 2 ^ 8 % 256 * 2 ^ 8 + crc % 256)) (omega arith),
      )
      (omega arith)

-- The checksum that stands behind the body.
pub received_crc-checked :
    (body rest : List ℕ) (len : ℕ)
    → All IsByte body
    → len ≡ length body + 4
    → received_crc (checked body ++ rest) len ≡ calculate_crc32 body
unfolding received_crc checked crc_bytes
received_crc-checked body rest len bs e =
    let crc = calculate_crc32 body in
    let tail = crc_bytes crc ++ rest in
    let i0 : len - 4 ≡ length body + 0 = omega arith in
    let i1 : len - 3 ≡ length body + 1 = omega arith in
    let i2 : len - 2 ≡ length body + 2 = omega arith in
    let i3 : len - 1 ≡ length body + 3 = omega arith in
    rw (append_assoc body (crc_bytes crc) rest, i0, i1, i2, i3)
      (rw
        (
          byte_at-append body tail 0,
          byte_at-append body tail 1,
          byte_at-append body tail 2,
          byte_at-append body tail 3,
        )
        (joined_crc crc (crc-lt body bs)))

pub length-checked : (body : List ℕ) → length (checked body) ≡ length body + 4
unfolding checked crc_bytes
length-checked body = length-append body (crc_bytes (calculate_crc32 body))

-- The front of a checked section.
pub take-checked :
    (body rest : List ℕ) (n : ℕ) → n ≡ length body → take n (checked body ++ rest) ≡ body
unfolding checked
take-checked body rest n e =
    rw (append_assoc body (crc_bytes (calculate_crc32 body)) rest)
      (take-append n body (crc_bytes (calculate_crc32 body) ++ rest) e)

-- One entry of a program table, and the table with its header of eight bytes.
unfoldable pub entry_bytes : ProgramInfo → List ℕ
entry_bytes p =
    (p.number / 256) ∷ (p.number % 256) ∷ (0xe0 + p.pmt_pid / 256) ∷ (p.pmt_pid % 256) ∷ []

unfoldable pub entries : List ProgramInfo → List ℕ
entries [] = []
entries (p ∷ programs) = entry_bytes p ++ entries programs

unfoldable pub pat_body : ℕ → List ProgramInfo → List ℕ
pat_body version programs =
    0x00 ∷ 0xb0 ∷ (9 + 4 * length programs) ∷ 0 ∷ 1 ∷ version ∷ 0 ∷ 0 ∷ entries programs

-- A program's number, which is not 0, and its identifier of 13 bits.
abbrev pub IsProgram : ProgramInfo → Type 0
IsProgram p = (0 < p.number) × (p.number < 2 ^ 16) × (p.pmt_pid < 2 ^ 13)

pub length-entries : (programs : List ProgramInfo) → length (entries programs) ≡ 4 * length programs
unfolding entries entry_bytes
length-entries [] = refl
length-entries (p ∷ programs) = omega (arith, length-entries programs)

masked_pid : (pid : ℕ) → pid < 2 ^ 13 → masked16 0x1f (0xe0 + pid / 256) (pid % 256) ≡ pid
masked_pid pid h =
    let low : bit_and (0xe0 + pid / 256) 0x1f ≡ pid / 256 =
      omega (arith, bit_and-mask 5 (0xe0 + pid / 256)) in
    rw low (omega (arith, bit_or-eq-add 8 (pid / 256) (pid % 256) (omega arith)))

joined_number : (n : ℕ) → bit_or ((n / 256) <<< 8) (n % 256) ≡ n
joined_number n = omega (arith, bit_or-eq-add 8 (n / 256) (n % 256) (omega arith))

pub pat_loop-entries :
    (programs known : List ProgramInfo)
    → All IsProgram programs
    → length known + length programs ≤ max_programs
    → pat_loop (entries programs) known ≡ known ++ programs
unfolding pat_loop entries entry_bytes
pat_loop-entries [] known h few = rw append-nil refl
pat_loop-entries (p ∷ programs) known h few =
    let some_number : p.number == 0 ≡ false = ground (arith, h.0.0) in
    let room : ltb (length known) max_programs ≡ true = lt→ltb _ _ (omega arith) in
    rw (joined_number p.number, masked_pid p.pmt_pid h.0.2, some_number, room)
      (pat_loop-entries programs (known ++ p ∷ []) h.1
          (omega (arith, length-append {0} known (p ∷ [])))
        ∙ append_assoc known (p ∷ []) programs)
