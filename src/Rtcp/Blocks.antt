-- ===== src/Rtcp/Blocks.antt =====
-- Report blocks and the sender's part, read back.
use asio_rtc.Common.{
  ℕ, false, ◌+◌, ◌*◌, ◌%◌, ◌^◌, ◌<◌, ◌≡◌, refl, bit_and, bit_or, u8, u32, ◌<<<◌, ◌>>>◌, some, List,
  [], ◌∷◌, ◌++◌, length, length-append, drop, All, arith, append_assoc, ltb,
}
use asio_rtc.Common.Bits.{bit_and-mask, bit_or-eq-add}
use asio_rtc.Binary.{Binary, IsBigEndian}
use asio_rtc.Rtcp.{ReportBlock, parse_report_block, write_report_block, parse_blocks, write_blocks}

pub record IsBlock (b : ReportBlock) : Type 0 where
  pub ssrc_fits : b.ssrc < 2 ^ 32
  pub fraction_fits : b.fraction_lost < 2 ^ 8
  pub cumulative_fits : b.cumulative_lost < 2 ^ 24
  pub highest_fits : b.ext_highest_seq < 2 ^ 32
  pub jitter_fits : b.jitter < 2 ^ 32
  pub lsr_fits : b.lsr < 2 ^ 32
  pub dlsr_fits : b.dlsr < 2 ^ 32

-- The loss word in plain arithmetic, and its two halves again.
loss_word :
    (f c : ℕ)
    → f < 2 ^ 8
    → c < 2 ^ 24
    → bit_or (u32 (f <<< 24)) (bit_and c 0x00ffffff) ≡ f * 2 ^ 24 + c
loss_word f c hf hc =
    let small : u32 (f <<< 24) ≡ f * 2 ^ 24 = omega arith in
    rw (small, bit_and-mask 24 c, bit_or-eq-add 24 f (c % 2 ^ 24) (omega arith)) (omega arith)

loss_fraction : (f c : ℕ) → f < 2 ^ 8 → c < 2 ^ 24 → u8 (bit_and ((f * 2 ^ 24 + c) >>> 24) 0xff) ≡ f
loss_fraction f c hf hc = rw (bit_and-mask 8 ((f * 2 ^ 24 + c) >>> 24)) (omega arith)

loss_count : (f c : ℕ) → f < 2 ^ 8 → c < 2 ^ 24 → bit_and (f * 2 ^ 24 + c) 0x00ffffff ≡ c
loss_count f c hf hc = rw (bit_and-mask 24 (f * 2 ^ 24 + c)) (omega arith)

module _ {bin : Binary} (be : IsBigEndian bin) where
  length-write_report_block : (b : ReportBlock) → length (write_report_block bin b) ≡ 24
  unfolding write_report_block
  length-write_report_block b = simp be.write32_lem

  drop-write_report_block :
      (b : ReportBlock) (rest : List ℕ) → drop 24 (write_report_block bin b ++ rest) ≡ rest
  unfolding write_report_block
  drop-write_report_block b rest = simp be.write32_lem

  parse_report_block-write_report_block :
      (b : ReportBlock) (rest : List ℕ)
      → IsBlock b
      → parse_report_block bin (write_report_block bin b ++ rest) ≡ b
  unfolding parse_report_block write_report_block
  parse_report_block-write_report_block b rest v =
      rw (loss_word b.fraction_lost b.cumulative_lost v.fraction_fits v.cumulative_fits) (
        simp (be.write32_lem, be.read32_lem)
          (ground (
            arith,
            v.ssrc_fits,
            v.highest_fits,
            v.jitter_fits,
            v.lsr_fits,
            v.dlsr_fits,
            loss_fraction b.fraction_lost b.cumulative_lost v.fraction_fits v.cumulative_fits,
            loss_count b.fraction_lost b.cumulative_lost v.fraction_fits v.cumulative_fits,
          )))

  pub length-write_blocks : (bs : List ReportBlock) → length (write_blocks bin bs) ≡ length bs * 24
  unfolding write_blocks
  length-write_blocks [] = refl
  length-write_blocks (b ∷ bs) = omega (
    arith,
    length-append (write_report_block bin b) (write_blocks bin bs),
    length-write_report_block b,
    length-write_blocks bs,
  )

  pub parse_blocks-write_blocks :
      (bs : List ReportBlock) (rest : List ℕ)
      → All IsBlock bs
      → parse_blocks bin (length bs) (write_blocks bin bs ++ rest) ≡ some (bs, rest)
  unfolding parse_blocks write_blocks
  parse_blocks-write_blocks [] rest v = refl
  parse_blocks-write_blocks (b ∷ bs) rest v =
      let long : ltb (length (write_report_block bin b ++ (write_blocks bin bs ++ rest))) 24
          ≡ false =
        ground (
          arith,
          length-append (write_report_block bin b) (write_blocks bin bs ++ rest),
          length-write_report_block b,
        ) in
      simp (
        append_assoc,
        long,
        drop-write_report_block b (write_blocks bin bs ++ rest),
        parse_report_block-write_report_block b (write_blocks bin bs ++ rest) v.0,
        parse_blocks-write_blocks bs rest v.1,
      )
