-- ===== src/Twcc/Report.antt =====
-- What a report says, and what stays for the next one.
use asio_rtc.Common.{
  ℕ, zero, suc, ◌+◌, ◌-◌, ◌%◌, ◌^◌, ◌≤◌, ◌<◌, ◌≡◌, refl, ap, u16, Bool, true, false, ◌&&◌, not, inl,
  inr, Bool-cases, ◌==◌, if◌then◌else◌, List, [], ◌∷◌, ◌++◌, map, length, arith,
}
use asio_rtc.Tcc.{
  TccPacketStatus, not_received, small_delta, large_delta, received_without_delta, TccPacketInfo,
}
use asio_rtc.Twcc.{TccEntry, push_back, not_there, arrived, report_loop}

unfoldable pub is_received : TccPacketStatus → Bool
is_received not_received = false
is_received small_delta = true
is_received large_delta = true
is_received received_without_delta = true

-- The numbers that are reported as received, where the first packet has the number `next`.
unfoldable pub received : ℕ → List TccPacketInfo → List ℕ
received next [] = []
received next (p ∷ packets) =
    let rest = received (u16 (next + 1)) packets in
    if is_received p.status then next ∷ rest else rest

abbrev pub numbers_of : List TccEntry → List ℕ
numbers_of entries = map (λ (e : TccEntry). e.seq) entries

-- The numbers reported as received and then those that stay are all numbers of the list, in its
-- order; the next number is the one behind the last that is reported.
pub record IsAccount (next left : ℕ) (entries : List TccEntry)
    (result : List TccPacketInfo × ℕ × List TccEntry) : Type 0 where
  pub all_told : numbers_of entries ≡ received next result.0 ++ numbers_of result.2
  pub next_lem : result.1 ≡ (next + length result.0) % 2 ^ 16
  pub bounded : length result.0 ≤ left

-- How many packets the loops may still add.
abbrev pub cap : Bool → ℕ → ℕ
cap true left = left + 1
cap false zero = 0
cap false (suc left) = suc (suc left)

cap-false_le : (left : ℕ) → cap false left ≤ left + 1
cap-false_le zero = omega arith
cap-false_le (suc left) = omega arith

cap_less :
    (inside : Bool) (left : ℕ)
    → (not inside && left == 0) ≡ false
    → cap false (left - 1) + 1 ≤ cap inside left
cap_less true zero h = omega arith
cap_less true (suc left) h = omega (arith, cap-false_le (suc left - 1))
cap_less false zero h = absurd (ground (arith, h))
cap_less false (suc left) h = omega (arith, cap-false_le (suc left - 1))

cap_inside :
    (inside : Bool) (left : ℕ) → (left == 0) ≡ false → cap true (left - 1) + 1 ≤ cap inside left
cap_inside inside zero h = absurd (ground (arith, h))
cap_inside true (suc left) h = omega arith
cap_inside false (suc left) h = omega arith

-- The rounds of the loops: with more fuel than the packets that may be added, however much, the
-- result is the same.
pub report_loop_ends :
    (f g left : ℕ) (inside : Bool) (next last_ts : ℕ) (entries : List TccEntry)
    → cap inside left < f
    → cap inside left < g
    → report_loop f left inside next last_ts entries
      ≡ report_loop g left inside next last_ts entries
unfolding report_loop
report_loop_ends zero g left inside next last_ts entries hf hg = absurd (omega arith)
report_loop_ends (suc f) zero left inside next last_ts entries hf hg = absurd (omega arith)
report_loop_ends (suc f) (suc g) left inside next last_ts [] hf hg = refl
report_loop_ends (suc f) (suc g) left inside next last_ts (e ∷ entries) hf hg =
    elim (Bool-cases (not inside && left == 0)) [
      | inl full ↦ rw (report_loop, full) refl
      | inr room ↦ elim (Bool-cases (next == e.seq)) [
        | inl here ↦
            rw (report_loop, room, here)
              (ap (push_back (arrived last_ts e)) (
                report_loop_ends f g (left - 1) false (u16 (next + 1)) e.ts entries
                  (omega (arith, cap_less inside left room))
                  (omega (arith, cap_less inside left room))))
        | inr gap ↦ elim (Bool-cases (left == 0)) [
          | inl none_left ↦ rw (report_loop, room, gap, none_left) refl
          | inr more ↦
              rw (report_loop, room, gap, more)
                (ap (push_back not_there) (
                  report_loop_ends f g (left - 1) true (u16 (next + 1)) last_ts (e ∷ entries)
                    (omega (arith, cap_inside inside left more))
                    (omega (arith, cap_inside inside left more))))
        ]
      ]
    ]
