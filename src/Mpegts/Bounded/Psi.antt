-- ===== src/Mpegts/Bounded/Psi.antt =====
-- The limits in src/mpegts_demuxer.hpp: `parse_psi` and what it calls.
use asio_rtc.Common.{
  ℕ, zero, suc, ◌+◌, ◌-◌, ◌≤◌, bit_or, ◌<<<◌, inl, inr, Bool, true, false, not, ◌&&◌, ◌||◌, ltb,
  leb, ◌==◌, if◌then◌else◌, Bool-cases, Option-cases, ◌>>=◌, some, List, [], ◌∷◌, ◌++◌, length,
  take, drop, byte_at, All, length-append, length-drop, ltb→le, IfSome, IfSome-some, or_else,
  on_kept, nothing, arith,
}
use asio_rtc.Mpegts.{
  StreamState, ProgramInfo, Demuxer, max_psi_section, max_programs, find_stream, update_stream,
}
use asio_rtc.Mpegts.Psi.{
  pat_loop, parse_pat, descriptors, set_format, pmt_loop, parse_pmt, handle_psi_section,
  section_size, keep_section, forget, process_psi_sections, psi_of, parse_psi_start, parse_psi_more,
  parse_psi, masked16, type_format, type_kind, calculate_crc32, received_crc,
}
use asio_rtc.Mpegts.Bounded.{
  IsFitAt, IsSmall, update_stream-IsFit, erase_stream-IsFit, with_streams,
}

-- The programs that `parse_pat` keeps.
length-pat_loop :
    (bytes : List ℕ) (programs : List ProgramInfo)
    → length programs ≤ max_programs
    → length (pat_loop bytes programs) ≤ max_programs
unfolding pat_loop
length-pat_loop [] programs h = h
length-pat_loop (a ∷ []) programs h = h
length-pat_loop (a ∷ b ∷ []) programs h = h
length-pat_loop (a ∷ b ∷ c ∷ []) programs h = h
length-pat_loop (a ∷ b ∷ c ∷ d ∷ rest) programs h =
    length-pat_loop rest _ (added (not (bit_or (a <<< 8) b == 0)))
  where
    added :
        (nonzero : Bool)
        → length (
            if nonzero && ltb (length programs) max_programs
            then programs
              ++ record { number = bit_or (a <<< 8) b; pmt_pid = masked16 0x1f c d } ∷ []
            else programs)
          ≤ max_programs
    added false = h
    added true = ground (
      arith,
      length-append {0} programs
          (record { number = bit_or (a <<< 8) b; pmt_pid = masked16 0x1f c d } ∷ []),
    )

-- A section's handler keeps the limits, or reads behind the buffer.
pmt_loop-IsFit :
    (fuel left : ℕ) (rest : List ℕ) (streams : List (ℕ × StreamState))
    → All IsFitAt streams
    → IfSome (All IsFitAt) (pmt_loop fuel left rest streams)
unfolding pmt_loop set_format
pmt_loop-IsFit zero left rest streams h = IfSome-some h
pmt_loop-IsFit (suc fuel) left rest streams h = elim (Bool-cases (leb 5 left)) [
  | inr e ↦ rw (pmt_loop, e) (IfSome-some h)
  | inl e ↦
      rw (pmt_loop, e)
        (let info_len = masked16 0x0f (byte_at rest 3) (byte_at rest 4) in
          elim (Option-cases (
            descriptors info_len info_len (drop 5 rest)
              (type_format (byte_at rest 0), type_kind (byte_at rest 0)))) [
                | inl n ↦ rw n nothing
                | inr (known, n) ↦ rw n (
                    pmt_loop-IsFit fuel (left - (5 + info_len)) (drop (5 + info_len) rest) _
                      (update_stream-IsFit (set_format known) _ streams (λ st f. f) h))
              ])
]

parse_pmt-IsFit :
    (buf : List ℕ) (len : ℕ) (streams : List (ℕ × StreamState))
    → All IsFitAt streams
    → IfSome (All IsFitAt) (parse_pmt buf len streams)
unfolding parse_pmt
parse_pmt-IsFit buf len streams h =
    let es_off = 12 + masked16 0x0f (byte_at buf 10) (byte_at buf 11) in
    let loop = pmt_loop len (len - 4 - es_off) (drop es_off buf) streams in
    or_else (ltb len 12) (some streams) _ (IfSome-some h) (
      or_else (ltb (len - 4) es_off) (some streams) loop (IfSome-some h)
        (pmt_loop-IsFit len (len - 4 - es_off) (drop es_off buf) streams h))

handle_psi_section-IsSmall :
    (buf : List ℕ) (len : ℕ) {input : List ℕ} (d : Demuxer)
    → IsSmall input d
    → IfSome (IsSmall input) (handle_psi_section buf len d)
unfolding handle_psi_section parse_pat
handle_psi_section-IsSmall buf len d h = or_else (ltb len 4) (some d) _ (IfSome-some h) (
    or_else (not (calculate_crc32 (take (len - 4) buf) == received_crc buf len)) (some d) _
      (IfSome-some h)
      (or_else (byte_at buf 0 == 0x00) (some (record d { programs = parse_pat (take len buf) })) _
        (IfSome-some (record {
          kept_input = h.kept_input;
          queue = h.queue;
          programs = length-pat_loop _ [] (omega arith);
          streams = h.streams;
        }))
        (or_else (byte_at buf 0 == 0x02)
          (do streams ← parse_pmt buf len d.streams; some (record d { streams = streams })) (some d)
          (on_kept {Q = All IsFitAt} (parse_pmt buf len d.streams)
            (λ streams. some (record d { streams = streams }))
            (parse_pmt-IsFit buf len d.streams h.streams)
            (λ streams k. IfSome-some (with_streams d streams h k)))
          (IfSome-some h))))

forget-IsSmall :
    (pid : ℕ) {input : List ℕ} (d : Demuxer)
    → IsSmall input d
    → IfSome (IsSmall input) (some (forget pid d))
forget-IsSmall pid d h =
    IfSome-some (with_streams d _ h (erase_stream-IsFit pid d.streams h.streams))

keep-IsSmall :
    (buf : List ℕ) (pid : ℕ) {input : List ℕ} (d : Demuxer)
    → length buf ≤ max_psi_section
    → IsSmall input d
    → IsSmall input (record d { streams = update_stream (keep_section buf) pid d.streams })
unfolding keep_section
keep-IsSmall buf pid d l h =
    with_streams d _ h
      (update_stream-IsFit (keep_section buf) pid d.streams (λ st f. (f.0, l)) h.streams)

process_psi_sections-IsSmall :
    (fuel : ℕ) (buf : List ℕ) (pid : ℕ) {input : List ℕ} (d : Demuxer)
    → length buf ≤ max_psi_section
    → IsSmall input d
    → IfSome (IsSmall input) (process_psi_sections fuel buf pid d)
unfolding process_psi_sections
process_psi_sections-IsSmall zero buf pid d l h = IfSome-some (keep-IsSmall buf pid d l h)
process_psi_sections-IsSmall (suc fuel) buf pid d l h = elim (Bool-cases (ltb (length buf) 3)) [
  | inl e ↦ rw (process_psi_sections, e) (IfSome-some (keep-IsSmall buf pid d l h))
  | inr e ↦
      rw (process_psi_sections, e)
        (elim (Bool-cases (byte_at buf 0 == 0xff || ltb 1021 (section_size buf - 3))) [
          | inl s ↦ rw s (forget-IsSmall pid d h)
          | inr s ↦ rw s (elim (Bool-cases (ltb (length buf) (section_size buf))) [
            | inl w ↦ rw w (IfSome-some (keep-IsSmall buf pid d l h))
            | inr w ↦ rw w (
                on_kept {Q = IsSmall _} (handle_psi_section buf (section_size buf) d) _
                  (handle_psi_section-IsSmall buf (section_size buf) d h)
                  (λ d' k.
                    process_psi_sections-IsSmall fuel (drop (section_size buf) buf) pid d'
                      (omega (arith, length-drop (section_size buf) buf)) k))
          ])
        ])
]

pub parse_psi-IsSmall :
    (payload : List ℕ) (start : Bool) (pid : ℕ) {input : List ℕ} (d : Demuxer)
    → IsSmall input d
    → IfSome (IsSmall input) (parse_psi payload start pid d)
unfolding parse_psi parse_psi_start parse_psi_more
parse_psi-IsSmall payload true pid d h =
    let table_start = 1 + byte_at payload 0 in
    let fresh = drop table_start payload in
    let old = length (psi_of (find_stream pid d.streams)) in
    elim (Bool-cases (ltb table_start (length payload))) [
      | inr e ↦ rw e (forget-IsSmall pid d h)
      | inl e ↦ rw e (elim (Bool-cases (ltb max_psi_section (old + length payload - table_start))) [
        | inl e ↦ rw e (forget-IsSmall pid d h)
        | inr s ↦
            let few : old + length payload - table_start ≤ max_psi_section = ltb→le _ _ s in
            let fits : length fresh ≤ max_psi_section =
              omega (arith, length-drop table_start payload) in
            rw s (
              process_psi_sections-IsSmall (length fresh) fresh pid _ fits
                (keep-IsSmall fresh pid d fits h))
      ])
    ]
parse_psi-IsSmall payload false pid d h =
    let old = psi_of (find_stream pid d.streams) in
    or_else (length old == 0) (some (forget pid d)) _ (forget-IsSmall pid d h)
      (elim (Bool-cases (ltb max_psi_section (length old + length payload))) [
        | inl e ↦ rw e (forget-IsSmall pid d h)
        | inr s ↦
            let few : length old + length payload ≤ max_psi_section = ltb→le _ _ s in
            let fits : length (old ++ payload) ≤ max_psi_section =
              omega (arith, length-append old payload) in
            rw s (
              process_psi_sections-IsSmall (length (old ++ payload)) (old ++ payload) pid _ fits
                (keep-IsSmall (old ++ payload) pid d fits h))
      ])
