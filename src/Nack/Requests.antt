-- ===== src/Nack/Requests.antt =====
-- What a call of `get_nacks` returns, and when it returns the same number again.
use asio_rtc.Common.{ℕ, zero, suc, ◌+◌, ◌-◌, ◌%◌, ◌^◌, ◌≤◌, ◌<◌, ◌≡◌, true, false, length, arith}
use native.Mathlib.Nat.{mod-eq_of_lt}
use native.Mathlib.Decide.{dec_lt}
use asio_rtc.Nack.{NackInfo, NackGenerator, sub16, slot, scan_slot, window_span, get_nacks}
use asio_rtc.Nack.Scan.{is_due, scan-slot_inside, window_span-le}

divisor_fits : (h : ℕ) → 2 ^ 16 % h ≡ 0 → (0 < h) × (h ≤ 2 ^ 16)
divisor_fits zero e = absurd (omega arith)
divisor_fits (suc h) e = elim (dec_lt (2 ^ 16) (suc h)) [
  | yes p ↦ absurd (omega (arith, mod-eq_of_lt {n = 2 ^ 16} {m = suc h} p))
  | no p ↦ (omega arith, omega arith)
]

get_nacks-slot :
    (g : NackGenerator) (now k : ℕ)
    → g.initialized ≡ true
    → 2 ^ 16 % g.history_size ≡ 0
    → length g.buffer ≡ g.history_size
    → 0 < k
    → k < window_span g
    → slot g.history_size (get_nacks g now).0.buffer (sub16 g.highest_seq k)
      ≡ (scan_slot g.max_retries
          (g.rtt_ms + 20)
          now
          (slot g.history_size g.buffer (sub16 g.highest_seq k))).0
unfolding get_nacks
get_nacks-slot g now k e divides size lo hi =
    let (pos, fits) = divisor_fits g.history_size divides in
    let bound = window_span-le g in
    simp e (
      scan-slot_inside g.history_size g.max_retries (g.rtt_ms + 20) now g.highest_seq divides
        (window_span g - 1) 1 k g.buffer pos size lo (omega arith) (omega arith) (omega arith))

-- A slot that was due is not due again within the backoff.
scan_slot_waits :
    (m b now later : ℕ) (info : NackInfo)
    → is_due m b now info ≡ true
    → later < now + b
    → is_due m b later (scan_slot m b now info).0 ≡ false
unfolding scan_slot
scan_slot_waits m b now later info d h = ground arith

-- A number of the window that a call at `now` returned is not due again at any time before
-- `now` plus the backoff, whatever was asked for beside it.
pub get_nacks_waits :
    (g : NackGenerator) (now later k : ℕ)
    → g.initialized ≡ true
    → 2 ^ 16 % g.history_size ≡ 0
    → length g.buffer ≡ g.history_size
    → 0 < k
    → k < window_span g
    → is_due g.max_retries
        (g.rtt_ms + 20)
        now
        (slot g.history_size g.buffer (sub16 g.highest_seq k))
      ≡ true
    → later < now + (g.rtt_ms + 20)
    → is_due g.max_retries
        (g.rtt_ms + 20)
        later
        (slot g.history_size (get_nacks g now).0.buffer (sub16 g.highest_seq k))
      ≡ false
get_nacks_waits g now later k e divides size lo hi due soon =
    rw (get_nacks-slot g now k e divides size lo hi)
      (scan_slot_waits g.max_retries (g.rtt_ms + 20) now later _ due soon)
