-- ===== src/Mpegts/Tables.antt =====
-- A program table that comes in one packet, with stuffing behind it, is read.
use asio_rtc.Common.{
  ℕ, zero, suc, ◌+◌, ◌-◌, ◌*◌, ◌≤◌, ◌≡◌, refl, sym, ap, ◌∙◌, IsByte, true, false, ltb, ◌==◌, Option,
  some, List, [], ◌∷◌, ◌++◌, append-nil, length, length-append, length-replicate, take, drop,
  take-append, drop-append, replicate, byte_at, All, lt→ltb, le→ltb, ==_iff, arith, bit_and,
}
use asio_rtc.Common.Bits.{bit_or-eq-add}
use asio_rtc.Mpegts.{
  MediaFrame, ProgramInfo, Demuxer, max_programs, max_psi_section, find_stream, update_stream,
}
use asio_rtc.Mpegts.Psi.{
  calculate_crc32, parse_pat, handle_psi_section, section_size, keep_section, process_psi_sections,
  psi_of, parse_psi_start, parse_psi,
}
use asio_rtc.Mpegts.Sections.{
  checked, pat_body, IsProgram, received_crc-checked, length-checked, take-checked, length-entries,
  pat_loop-entries,
}

-- The handler gives a state with these programs and frames.
pub record Gives (programs : List ProgramInfo) (queue : List MediaFrame) (o : Option Demuxer)
    : Type 0 where
  pub state : Demuxer
  pub given : o ≡ some state
  pub programs_lem : state.programs ≡ programs
  pub queue_lem : state.frame_queue ≡ queue

gives : (d : Demuxer) → Gives d.programs d.frame_queue (some d)
gives d = record { state = d; given = refl; programs_lem = refl; queue_lem = refl }

replicate-suc : (n k : ℕ) (a : ℕ) → n ≡ suc k → replicate n a ≡ a ∷ replicate k a
replicate-suc zero k a e = absurd (omega arith)
replicate-suc (suc n) k a e = let same : n ≡ k = omega arith in rw same refl

-- Stuffing ends the stream's table, or is too short to be looked at.
process_psi_sections_stuffing :
    (fuel n pid : ℕ) (d : Demuxer)
    → Gives d.programs d.frame_queue (process_psi_sections (suc fuel) (replicate n 0xff) pid d)
unfolding process_psi_sections
process_psi_sections_stuffing fuel zero pid d = gives _
process_psi_sections_stuffing fuel (suc zero) pid d = gives _
process_psi_sections_stuffing fuel (suc (suc zero)) pid d = gives _
process_psi_sections_stuffing fuel (suc (suc (suc n))) pid d =
    let long : ltb (length {A = ℕ} (replicate (suc (suc (suc n))) 0xff)) 3 ≡ false =
      le→ltb _ 3 (omega arith) in
    rw (process_psi_sections, long) (gives _)

module _ (version : ℕ) (programs : List ProgramInfo) (few : length programs ≤ max_programs) where
  length-pat_body : length (pat_body version programs) ≡ 8 + 4 * length programs
  unfolding pat_body
  length-pat_body = omega (arith, length-entries programs)

  section_size-pat :
      (rest : List ℕ)
      → section_size (checked (pat_body version programs) ++ rest)
        ≡ length (pat_body version programs) + 4
  unfolding checked pat_body
  section_size-pat rest =
      let hi : bit_and 0xb0 0x0f ≡ 0 = refl in
      rw hi (
        omega (
          arith,
          bit_or-eq-add 8 0 (9 + 4 * length programs) (omega arith),
          length-entries programs,
        ))

  parse_pat-pat_body :
      All IsProgram programs → parse_pat (checked (pat_body version programs)) ≡ programs
  unfolding parse_pat pat_body
  parse_pat-pat_body h =
      let body = pat_body version programs in
      let n = length (checked body) - 4 in
      let taken : take n (checked body) ≡ body =
        ap (λ (l : List ℕ). take n l) (sym (append-nil (checked body)))
        ∙ take-checked body [] n (omega (arith, length-checked body)) in
      rw taken (pat_loop-entries programs [] h (omega arith))

  handle_psi_section-pat :
      (rest : List ℕ) (d : Demuxer)
      → All IsByte (pat_body version programs)
      → All IsProgram programs
      → handle_psi_section
          (checked (pat_body version programs) ++ rest)
          (length (pat_body version programs) + 4)
          d
        ≡ some (record d { programs = programs })
  unfolding handle_psi_section
  handle_psi_section-pat rest d bytes h =
      let body = pat_body version programs in
      let len = length body + 4 in
      let long : ltb len 4 ≡ false = le→ltb len 4 (omega arith) in
      let front : take (len - 4) (checked body ++ rest) ≡ body =
        take-checked body rest (len - 4) (omega arith) in
      let whole : take len (checked body ++ rest) ≡ checked body =
        take-append len (checked body) rest (omega (arith, length-checked body)) in
      let same : (calculate_crc32 body == calculate_crc32 body) ≡ true = (==_iff _ _).1 refl in
      let kind : byte_at (checked body ++ rest) 0 ≡ 0 = unfold checked pat_body in refl in
      rw
        (
          long,
          front,
          received_crc-checked body rest len bytes refl,
          same,
          kind,
          whole,
          parse_pat-pat_body h,
        )
        refl

  first_round :
      (fuel pid : ℕ) (stuffing : List ℕ) (d : Demuxer)
      → All IsByte (pat_body version programs)
      → All IsProgram programs
      → process_psi_sections (suc fuel) (checked (pat_body version programs) ++ stuffing) pid d
        ≡ process_psi_sections fuel stuffing pid (record d { programs = programs })
  unfolding process_psi_sections
  first_round fuel pid stuffing d bytes h =
      let body = pat_body version programs in
      let fresh = checked body ++ stuffing in
      let size : section_size fresh ≡ length body + 4 = section_size-pat stuffing in
      let whole : length fresh ≡ length body + 4 + length stuffing =
        omega (arith, length-append (checked body) stuffing, length-checked body) in
      let long : ltb (length fresh) 3 ≡ false = le→ltb _ _ (omega arith) in
      let kind : byte_at fresh 0 ≡ 0 = unfold checked pat_body in refl in
      let short : ltb 1021 (length body + 4 - 3) ≡ false =
        le→ltb _ _ (omega (arith, length-pat_body)) in
      let complete : ltb (length fresh) (length body + 4) ≡ false = le→ltb _ _ (omega arith) in
      let later : drop (length body + 4) fresh ≡ stuffing =
        drop-append _ (checked body) stuffing (omega (arith, length-checked body)) in
      rw (process_psi_sections, long)
        (rw (kind, size, short)
          (rw (size, complete)
            (rw (size, handle_psi_section-pat stuffing d bytes h)
              (ap
                (λ (l : List ℕ). process_psi_sections fuel l pid (record d { programs = programs }))
                later))))

-- A program table of up to five programs, in one packet behind its pointer field, is read whatever
-- stuffing stands behind it: the programs of the demuxer are then those of the table, and no frame
-- comes or goes. Each program has a number other than 0 and an identifier of 13 bits, and the table
-- that was being collected leaves room for the packet.
pub parse_psi-pat :
    (version : ℕ) (programs : List ProgramInfo) (n pid : ℕ) (d : Demuxer)
    → length programs ≤ max_programs
    → All IsByte (pat_body version programs)
    → All IsProgram programs
    → length (psi_of (find_stream pid d.streams)) + (n + 33) ≤ max_psi_section
    → Gives programs d.frame_queue
        (parse_psi (0 ∷ (checked (pat_body version programs) ++ replicate n 0xff)) true pid d)
unfolding parse_psi parse_psi_start process_psi_sections
parse_psi-pat version programs n pid d few bytes h room =
    let body = pat_body version programs in
    let stuffing = replicate n 0xff in
    let fresh = checked body ++ stuffing in
    let started = record d { streams = update_stream (keep_section fresh) pid d.streams } in
    let size : length fresh ≡ 12 + 4 * length programs + n = omega (
      arith,
      length-append (checked body) stuffing,
      length-checked body,
      length-pat_body version programs few,
      length-replicate {A = ℕ} n 0xff,
    ) in
    let inside : ltb 1 (suc (length fresh)) ≡ true = lt→ltb _ _ (omega arith) in
    let fits : ltb max_psi_section
          (length (psi_of (find_stream pid d.streams)) + suc (length fresh) - 1)
        ≡ false =
      le→ltb _ _ (omega arith) in
    let fuel : length fresh ≡ suc (suc (length fresh - 2)) = omega arith in
    rw (inside, fits)
      (rw fuel (
        rw (first_round version programs few (suc (length fresh - 2)) pid stuffing started bytes h)
          (process_psi_sections_stuffing (length fresh - 2) n pid
            (record started { programs = programs }))))
