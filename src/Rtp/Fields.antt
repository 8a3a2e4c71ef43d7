-- ===== src/Rtp/Fields.antt =====
-- The contributing sources and the header extension, read back.
use asio_rtc.Common.{
  ℕ, ◌+◌, ◌*◌, ◌/◌, ◌%◌, ◌^◌, ◌<◌, ◌>>>◌, u16, ◌≡◌, refl, ◌∙◌, inl, inr, ◌==◌, if◌then◌else◌,
  Bool-cases, some, List, [], ◌∷◌, ◌++◌, length, length-append, take-append, drop-append, All,
  arith, append_assoc, append-nil,
}
use asio_rtc.Binary.{Binary, IsBigEndian}
use asio_rtc.Binary.Laws.{peek32-write32, drop-write32}
use asio_rtc.Rtp.{RtpPacket, read_csrcs, parse_csrcs, parse_extension, write_csrcs, write_extension}
use asio_rtc.Rtp.Valid.{IsValid}

module _ {bin : Binary} (be : IsBigEndian bin) where
  pub length-write_csrcs : (cs : List ℕ) → length (write_csrcs bin cs) ≡ length cs * 4
  unfolding write_csrcs
  length-write_csrcs [] = refl
  length-write_csrcs (c ∷ cs) = rw (be.write32_lem) (omega (arith, length-write_csrcs cs))

  pub read_csrcs-write_csrcs :
      (cs rest : List ℕ)
      → All (λ c. c < 2 ^ 32) cs
      → read_csrcs bin (length cs) (write_csrcs bin cs ++ rest) ≡ cs
  unfolding read_csrcs write_csrcs
  read_csrcs-write_csrcs [] rest h = refl
  read_csrcs-write_csrcs (c ∷ cs) rest h = simp (
    append_assoc,
    peek32-write32 be c (write_csrcs bin cs ++ rest) h.0,
    drop-write32 be c (write_csrcs bin cs ++ rest),
    read_csrcs-write_csrcs cs rest h.1,
  )

  pub parse_csrcs-write_csrcs :
      (p : RtpPacket) (cs rest : List ℕ)
      → p.csrc_count ≡ length cs
      → All (λ c. c < 2 ^ 32) cs
      → parse_csrcs bin p (write_csrcs bin cs ++ rest) ≡ some (record p { csrcs = cs }, rest)
  unfolding parse_csrcs
  parse_csrcs-write_csrcs p cs rest e h = ground (
    arith,
    length-append (write_csrcs bin cs) rest,
    length-write_csrcs cs,
    read_csrcs-write_csrcs cs rest h,
    drop-append (p.csrc_count * 4) (write_csrcs bin cs) rest,
  )

  extension_absent : (p : RtpPacket) → p.extension ≡ 0 → write_extension bin p ≡ []
  unfolding write_extension
  extension_absent p e = rw e

  extension_present :
      (p : RtpPacket)
      → p.extension ≡ 1
      → length p.extension_data % 4 ≡ 0
      → write_extension bin p
        ≡ bin.write16 p.extension_profile
          ++ (bin.write16 (u16 ((length p.extension_data + 3) / 4)) ++ p.extension_data)
  unfolding write_extension
  extension_present p e h = rw (e, h, append-nil)

  pub length-write_extension :
      (p : RtpPacket)
      → IsValid p
      → length (write_extension bin p)
        ≡ (if p.extension == 0 then 0 else length p.extension_data + 4)
  length-write_extension p v = elim (Bool-cases (p.extension == 0)) [
    | inl e ↦ rw (extension_absent p (ground arith), e)
    | inr e ↦
        rw (extension_present p (ground arith) v.whole_words, e) (simp be.write16_lem (omega arith))
  ]

  parse_extension-absent :
      (q : RtpPacket) (rest : List ℕ)
      → q.extension ≡ 0
      → parse_extension bin q rest ≡ some (q, rest)
  unfolding parse_extension
  parse_extension-absent q rest e = rw e

  -- `w` is the word count on the wire.
  parse_extension-present :
      (q : RtpPacket) (profile w : ℕ) (body rest : List ℕ)
      → q.extension ≡ 1
      → profile < 2 ^ 16
      → w < 2 ^ 16
      → w * 4 ≡ length body
      → parse_extension bin q (bin.write16 profile ++ (bin.write16 w ++ (body ++ rest)))
        ≡ some (record q { extension_profile = profile; extension_data = body }, rest)
  unfolding parse_extension
  parse_extension-present q profile w body rest e hp hw hl =
      simp (be.write16_lem, be.read16_lem)
        (ground (
          arith,
          length-append body rest,
          take-append (((w >>> 8) % 256 * 256 + w % 256) * 4) body rest,
          drop-append (((w >>> 8) % 256 * 256 + w % 256) * 4) body rest,
        ))

  pub parse_extension-write_extension :
      (p q : RtpPacket) (rest : List ℕ)
      → IsValid p
      → q.extension ≡ p.extension
      → q.extension_profile ≡ 0
      → q.extension_data ≡ []
      → parse_extension bin q (write_extension bin p ++ rest)
        ≡ some (
          record q { extension_profile = p.extension_profile; extension_data = p.extension_data },
          rest,
        )
  parse_extension-write_extension p q rest v e1 e2 e3 = elim (Bool-cases (p.extension == 0)) [
    | inl e ↦
        rw (extension_absent p (ground arith))
          (parse_extension-absent q rest (ground arith) ∙ ground arith)
    | inr e ↦
        rw (extension_present p (ground arith) v.whole_words, append_assoc, append_assoc)
          (parse_extension-present q p.extension_profile _ p.extension_data rest (ground arith)
            v.profile_fits (omega arith) (omega (arith, v.whole_words, v.words_fit)))
  ]
