-- ===== src/H264/Bounds.antt =====
-- No payload is larger than a packet may be.
use asio_rtc.Common.{
  ℕ, zero, suc, ◌+◌, ◌≤◌, ◌≡◌, min, Bool, true, false, inl, inr, ◌⊎◌, Bool-cases, Option-cases, leb,
  leb→le, ◌==◌, List, [], ◌∷◌, ◌++◌, length, length-take, take, drop, All, All-append, arith,
}
use asio_rtc.H264.{fragments, pack_unit, pack_nal, pack_loop, pack, find_start_code, packet_max}

abbrev pub Fits : List ℕ → Type 0
Fits p = length p ≤ 1200

fragments-Fits :
    (fuel : ℕ) (first : Bool) (ind t : ℕ) (rest : List ℕ)
    → All Fits (fragments fuel first ind t rest)
unfolding fragments
fragments-Fits zero first ind t rest = tt
fragments-Fits (suc fuel) first ind t rest = elim (Bool-cases (length rest == 0)) [
  | inl e ↦ rw e tt
  | inr e ↦ rw e (
    omega (arith, length-take (min (length rest) 1198) rest),
    fragments-Fits fuel false ind t (drop (min (length rest) 1198) rest),
  )
]

pack_nal-Fits : (nal : List ℕ) → All Fits (pack_nal nal)
unfolding pack_nal pack_unit
pack_nal-Fits [] = tt
pack_nal-Fits (hdr ∷ rest) = elim (Bool-cases (leb (suc (length rest)) packet_max)) [
  | inl e ↦ rw e (leb→le (suc (length rest)) 1200 e, tt)
  | inr e ↦ rw e (fragments-Fits (length rest) true _ _ rest)
]

-- The three ways a round ends.
pack_loop-cases :
    (fuel : ℕ) (bytes : List ℕ)
    → (pack_loop (suc fuel) bytes ≡ [])
      ⊎ ((nal : List ℕ) × (pack_loop (suc fuel) bytes ≡ pack_nal nal))
      ⊎ ((nal : List ℕ) × (rest : List ℕ) × (pack_loop (suc fuel) bytes
            ≡ pack_nal nal ++ pack_loop fuel rest))
unfolding pack_loop
pack_loop-cases fuel bytes = elim (Option-cases (find_start_code bytes)) [
  | inl e ↦ inl (rw (pack_loop, e))
  | inr (at, e) ↦ elim (Option-cases (find_start_code (drop (at.0 + at.1) bytes))) [
    | inl e' ↦ inr (inl (drop (at.0 + at.1) bytes, rw (pack_loop, e, e')))
    | inr (next, e') ↦ inr (
        inr (
          take next.0 (drop (at.0 + at.1) bytes),
          drop next.0 (drop (at.0 + at.1) bytes),
          rw (pack_loop, e, e'),
        ))
  ]
]

pack_loop-Fits : (fuel : ℕ) (bytes : List ℕ) → All Fits (pack_loop fuel bytes)
unfolding pack_loop
pack_loop-Fits zero bytes = tt
pack_loop-Fits (suc fuel) bytes = elim (pack_loop-cases fuel bytes) [
  | inl e ↦ rw e tt
  | inr (inl (nal, e)) ↦ rw e (pack_nal-Fits nal)
  | inr (inr (nal, rest, e)) ↦ rw e (
      All-append Fits (pack_nal nal) (pack_loop fuel rest) (pack_nal-Fits nal)
        (pack_loop-Fits fuel rest))
]

-- Every payload that `pack` makes, of any data, has at most 1200 bytes.
pub pack-Fits : (bytes : List ℕ) (timestamp : ℕ) → All Fits (pack bytes timestamp).0
unfolding pack
pack-Fits bytes timestamp = pack_loop-Fits (length bytes) bytes
