-- ===== src/Remb/RoundTrip.antt =====
-- A packed estimate is parsed to the estimate with its low bits cut.
use asio_rtc.Common.{
  ℕ, zero, suc, ◌+◌, ◌*◌, ◌/◌, ◌%◌, ◌^◌, ◌<◌, ◌≤◌, ◌≡◌, ◌⊎◌, inl, inr, refl, ap, ◌∙◌, sym, min, u8,
  ◌<<<◌, ◌>>>◌, bit_and, bit_or, Bool-cases, ltb, ltb→lt, List, [], ◌∷◌, length, All, arith,
  append-nil,
}
use asio_rtc.Common.Bits.{bit_or-eq-add, bit_and-mask}
use asio_rtc.Binary.{Binary, IsBigEndian}
use asio_rtc.Rtp.{read_csrcs, write_csrcs}
use asio_rtc.Rtp.Fields.{length-write_csrcs, read_csrcs-write_csrcs}
use asio_rtc.Remb.{scale, pack_remb, parse_remb}
use native.Mathlib.Nat.{pow-suc, div-div-eq-div-mul, div-mul-le_self}

-- The bitrate is halved `k` times, and no more often than its size asks for.
abbrev Scaled : ℕ → ℕ → ℕ × ℕ → ℕ → Type 0
Scaled bitrate exp r k =
    (r.0 ≡ bitrate / 2 ^ k) × (r.1 ≡ exp + k) × (r.0 < 2 ^ 18) × ((k ≡ 0) ⊎ (2 ^ 17 ≤ r.0))

halve_again : (b k : ℕ) → b / 2 / 2 ^ k ≡ b / 2 ^ suc k
halve_again b k =
    let twice : 2 * 2 ^ k ≡ 2 ^ suc k = omega (arith, pow-suc 2 k) in
    div-div-eq-div-mul b 2 (2 ^ k) ∙ ap (λ (t : ℕ). b / t) twice

scale-Scaled :
    (fuel bitrate exp : ℕ)
    → bitrate < 2 ^ 18 * 2 ^ fuel
    → exp + fuel < 256
    → (k : ℕ) × (k ≤ fuel) × Scaled bitrate exp (scale fuel bitrate exp) k
unfolding scale
scale-Scaled zero bitrate exp h h' =
    (0, omega arith, (omega arith, omega arith, omega arith, inl refl))
scale-Scaled (suc fuel) bitrate exp h h' = elim (Bool-cases (ltb 0x3ffff bitrate)) [
  | inl e ↦
      let next : u8 (exp + 1) ≡ exp + 1 = omega arith in
      let (k, hk, (same, count, small, large)) =
        scale-Scaled fuel (bitrate / 2) (exp + 1) (omega (arith, pow-suc 2 fuel)) (omega arith) in
      let same' : (scale fuel (bitrate / 2) (exp + 1)).0 ≡ bitrate / 2 ^ suc k =
        same ∙ halve_again bitrate k in
      let enough : 2 ^ 17 ≤ (scale fuel (bitrate / 2) (exp + 1)).0 = elim large [
        | inl z ↦
            omega (arith, same ∙ ap (λ (t : ℕ). bitrate / 2 / 2 ^ t) z, ltb→lt 0x3ffff bitrate e)
        | inr big ↦ big
      ] in
      rw (e, next) (suc k, omega arith, (same', omega (arith, count), small, inr enough))
  | inr e ↦ rw e (0, omega arith, (omega arith, omega arith, ground arith, inl refl))
]

-- The byte with the exponent and the top of the mantissa, and what the parser takes of it.
exp_byte :
    (m k : ℕ)
    → k < 64
    → bit_or (u8 (k <<< 2)) (u8 (bit_and (m >>> 16) 0x03)) ≡ k * 2 ^ 2 + m / 2 ^ 16 % 4
exp_byte m k h =
    let plain : u8 (k <<< 2) ≡ k * 2 ^ 2 = omega arith in
    let low : u8 (m / 2 ^ 16 % 2 ^ 2) ≡ m / 2 ^ 16 % 4 = omega arith in
    rw (bit_and-mask 2 (m >>> 16), plain, low) (bit_or-eq-add 2 k (m / 2 ^ 16 % 4) (omega arith))

exp_back : (k r : ℕ) → k < 64 → r < 4 → bit_and ((k * 2 ^ 2 + r) >>> 2) 0x3f ≡ k
exp_back k r h h' = rw (bit_and-mask 6 ((k * 2 ^ 2 + r) >>> 2)) (omega arith)

low_byte : (m x : ℕ) → x ≡ m / 2 ^ 8 * 2 ^ 8 → bit_or x (m % 2 ^ 8) ≡ m
low_byte m x e = rw (e, bit_or-eq-add 8 (m / 2 ^ 8) (m % 2 ^ 8) (omega arith)) (omega arith)

mantissa_back :
    (m k : ℕ)
    → m < 2 ^ 18
    → bit_or
        (bit_or (bit_and (k * 2 ^ 2 + m / 2 ^ 16 % 4) 0x03 <<< 16) ((m / 2 ^ 8 % 2 ^ 8) <<< 8))
        (m % 2 ^ 8)
      ≡ m
mantissa_back m k h =
    let top : (k * 2 ^ 2 + m / 2 ^ 16 % 4) % 2 ^ 2 ≡ m / 2 ^ 16 = omega arith in
    rw
      (
        bit_and-mask 2 (k * 2 ^ 2 + m / 2 ^ 16 % 4),
        top,
        bit_or-eq-add 16 (m / 2 ^ 16) (m / 2 ^ 8 % 2 ^ 8 * 2 ^ 8) (omega arith),
      )
      (low_byte m (m / 2 ^ 16 * 2 ^ 16 + m / 2 ^ 8 % 2 ^ 8 * 2 ^ 8) (omega arith))

module _ {bin : Binary} (be : IsBigEndian bin) where
  parse_remb-scaled :
      (m k : ℕ) (ssrcs : List ℕ)
      → m < 2 ^ 18
      → k < 64
      → m * 2 ^ k < 2 ^ 32
      → length ssrcs < 256
      → All (λ ssrc. ssrc < 2 ^ 32) ssrcs
      → parse_remb bin (
          82
          ∷ 69
          ∷ 77
          ∷ 66
          ∷ u8 (length ssrcs)
          ∷ (k * 2 ^ 2 + m / 2 ^ 16 % 4)
          ∷ (m / 2 ^ 8 % 2 ^ 8)
          ∷ (m % 2 ^ 8)
          ∷ write_csrcs bin ssrcs)
        ≡ (m * 2 ^ k, ssrcs)
  unfolding parse_remb
  parse_remb-scaled m k ssrcs hm hk fits hn hs =
      let fit : (m * 2 ^ k) % 2 ^ 32 ≡ m * 2 ^ k = omega (arith, fits) in
      let count : min (u8 (length ssrcs)) (length (write_csrcs bin ssrcs) / 4) ≡ length ssrcs =
        omega (arith, length-write_csrcs be ssrcs) in
      let back : read_csrcs bin (length ssrcs) (write_csrcs bin ssrcs) ≡ ssrcs =
        ap (read_csrcs bin (length ssrcs)) (sym (append-nil (write_csrcs bin ssrcs)))
        ∙ read_csrcs-write_csrcs be ssrcs [] hs in
      simp (exp_back k (m / 2 ^ 16 % 4) hk (omega arith), mantissa_back m k hm, fit, count, back)
        (ground arith)

  -- The bytes, once the loop has left `m` and `k`.
  pack_remb_lem :
      (bitrate m k : ℕ) (ssrcs : List ℕ)
      → (scale 32 bitrate 0).0 ≡ m
      → (scale 32 bitrate 0).1 ≡ k
      → m < 2 ^ 18
      → k < 64
      → pack_remb bin bitrate ssrcs
        ≡ 82
          ∷ 69
          ∷ 77
          ∷ 66
          ∷ u8 (length ssrcs)
          ∷ (k * 2 ^ 2 + m / 2 ^ 16 % 4)
          ∷ (m / 2 ^ 8 % 2 ^ 8)
          ∷ (m % 2 ^ 8)
          ∷ write_csrcs bin ssrcs
  unfolding pack_remb
  pack_remb_lem bitrate m k ssrcs em ek hm hk =
      let whole : bit_and m 0x3ffff ≡ m = bit_and-mask 18 m ∙ omega arith in
      let b6 : u8 (bit_and (m >>> 8) 0xff) ≡ m / 2 ^ 8 % 2 ^ 8 =
        rw (bit_and-mask 8 (m >>> 8)) (omega arith) in
      let b7 : u8 (bit_and m 0xff) ≡ m % 2 ^ 8 = rw (bit_and-mask 8 m) (omega arith) in
      simp (em, ek, whole, exp_byte m k hk, b6, b7)

  -- For a bitrate below 2^32 and fewer than 256 sources that fit 32 bits, `parse_remb` reads from
  -- what `pack_remb` made the same sources, and the bitrate with its `k` low bits cleared, where `k`
  -- is 0 or the bitrate without them is at least 2^17.
  pub parse_remb-pack_remb :
      (bitrate : ℕ) (ssrcs : List ℕ)
      → bitrate < 2 ^ 32
      → length ssrcs < 256
      → All (λ ssrc. ssrc < 2 ^ 32) ssrcs
      → (k : ℕ) × ((k ≡ 0) ⊎ (2 ^ 17 ≤ bitrate / 2 ^ k))
        × (parse_remb bin (pack_remb bin bitrate ssrcs) ≡ (bitrate / 2 ^ k * 2 ^ k, ssrcs))
  parse_remb-pack_remb bitrate ssrcs hb hn hs =
      let (k, hk, (same, count, small, large)) =
        scale-Scaled 32 bitrate 0 (omega arith) (omega arith) in
      let m : ℕ = bitrate / 2 ^ k in
      (
        k,
        rw (sym same) large,
        ap (parse_remb bin) (
              pack_remb_lem bitrate m k ssrcs same (omega (arith, count))
                (omega (arith, same, small)) (omega arith))
            ∙ parse_remb-scaled m k ssrcs (omega (arith, same, small)) (omega arith)
                (omega (arith, div-mul-le_self bitrate (2 ^ k))) hn hs,
      )
