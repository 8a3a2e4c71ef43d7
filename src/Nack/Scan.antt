-- ===== src/Nack/Scan.antt =====
-- What `get_nacks` asks for, and what it leaves in the slots.
use asio_rtc.Common.{
  ℕ, zero, suc, ◌+◌, ◌-◌, ◌%◌, ◌^◌, ◌≤◌, ◌<◌, u16, ◌≡◌, refl, ◌∙◌, sym, Bool, not, ◌&&◌, ◌||◌, ltb,
  leb, List, [], ◌∷◌, length, length-set, select, arith,
}
use native.Mathlib.Decide.{dec_lt}
use asio_rtc.Nack.{NackInfo, NackGenerator, sub16, slot, put, scan_slot, scan, window_span}
use asio_rtc.Nack.Slots.{down-ne, slot-put_self, slot-put_ne}

-- A packet is due if it is missing, has a try left, and was either never asked for or asked for
-- at least `backoff` ago.
abbrev pub is_due : ℕ → ℕ → ℕ → NackInfo → Bool
is_due max_retries backoff now info =
    not info.received
    && (ltb info.retry_count max_retries
        && (not info.nacked || leb (info.last_nack_time + backoff) now))

pub scan_slot-is_due : (m b t : ℕ) (info : NackInfo) → (scan_slot m b t info).1 ≡ is_due m b t info
unfolding scan_slot
scan_slot-is_due m b t info = ground arith

-- The sequence numbers `highest - i`, `highest - i - 1`, …, `n` of them.
abbrev pub countdown : ℕ → ℕ → ℕ → List ℕ
countdown highest zero i = []
countdown highest (suc n) i = sub16 highest i ∷ countdown highest n (i + 1)

pub length-scan :
    (h m b t highest n i : ℕ) (buffer : List NackInfo)
    → length (scan h m b t highest n i buffer).0 ≡ length buffer
unfolding scan
length-scan h m b t highest zero i buffer = refl
length-scan h m b t highest (suc n) i buffer =
    length-scan h m b t highest n (i + 1) _ ∙ length-set buffer _ _

module _ (h m b t highest : ℕ) (divides : 2 ^ 16 % h ≡ 0) where
  -- A write at an earlier number of the window does not change what is due later.
  select-put :
      (n i j : ℕ) (buffer : List NackInfo) (info : NackInfo)
      → i < j
      → j + n ≤ i + h
      → j + n ≤ 2 ^ 16
      → select
          (λ s. is_due m b t (slot h (put h buffer (sub16 highest i) info) s))
          (countdown highest n j)
        ≡ select (λ s. is_due m b t (slot h buffer s)) (countdown highest n j)
  select-put zero i j buffer info p q r = refl
  select-put (suc n) i j buffer info p q r = rw (
    slot-put_ne h buffer (sub16 highest i) (sub16 highest j) info
        (down-ne h divides highest i j p (omega arith) (omega arith)),
    select-put n i (j + 1) buffer info (omega arith) (omega arith) (omega arith),
  )

  pub scan-select :
      (n i : ℕ) (buffer : List NackInfo)
      → n ≤ h
      → i + n ≤ 2 ^ 16
      → (scan h m b t highest n i buffer).1
        ≡ select (λ s. is_due m b t (slot h buffer s)) (countdown highest n i)
  unfolding scan
  scan-select zero i buffer p q = refl
  scan-select (suc n) i buffer p q =
      let small : u16 i ≡ i = omega arith in
      rw (
        small,
        scan_slot-is_due,
        scan-select n (i + 1) _ (omega arith) (omega arith),
        select-put n i (i + 1) buffer (scan_slot m b t (slot h buffer (sub16 highest i))).0
            (omega arith) (omega arith) (omega arith),
      )

  -- A slot that the scan has passed stays as it is.
  scan-slot_outside :
      (n i k : ℕ) (buffer : List NackInfo)
      → k < i
      → i + n ≤ k + h
      → i + n ≤ 2 ^ 16
      → slot h (scan h m b t highest n i buffer).0 (sub16 highest k)
        ≡ slot h buffer (sub16 highest k)
  unfolding scan
  scan-slot_outside zero i k buffer p q r = refl
  scan-slot_outside (suc n) i k buffer p q r =
      let small : u16 i ≡ i = omega arith in
      scan-slot_outside n (i + 1) k _ (omega arith) (omega arith) (omega arith)
      ∙ rw small (
          slot-put_ne h buffer (sub16 highest i) (sub16 highest k) _
            (λ e. down-ne h divides highest k i p (omega arith) (omega arith) (sym e)))

  -- Every slot of the window is scanned once, from the state that it had before.
  pub scan-slot_inside :
      (n i k : ℕ) (buffer : List NackInfo)
      → 0 < h
      → length buffer ≡ h
      → i ≤ k
      → k < i + n
      → n ≤ h
      → i + n ≤ 2 ^ 16
      → slot h (scan h m b t highest n i buffer).0 (sub16 highest k)
        ≡ (scan_slot m b t (slot h buffer (sub16 highest k))).0
  unfolding scan
  scan-slot_inside zero i k buffer pos size lo hi p q = absurd (omega arith)
  scan-slot_inside (suc n) i k buffer pos size lo hi p q =
      let small : u16 i ≡ i = omega arith in
      elim (dec_lt i k) [
        | yes later ↦
            scan-slot_inside n (i + 1) k _ pos (length-set buffer _ _ ∙ size) (omega arith)
              (omega arith) (omega arith) (omega arith)
            ∙ rw (
              small,
              slot-put_ne h buffer (sub16 highest i) (sub16 highest k) _
                  (down-ne h divides highest i k later (omega arith) (omega arith)),
            )
        | no now ↦
            let same : i ≡ k = omega arith in
            rw (← same) (
              scan-slot_outside n (i + 1) i _ (omega arith) (omega arith) (omega arith)
              ∙ rw (small, slot-put_self h buffer (sub16 highest i) _ pos size))
      ]

-- The window that `get_nacks` looks at: the numbers strictly between the lowest and the highest, at
-- most a history of them.
abbrev pub window : NackGenerator → List ℕ
window g = countdown g.highest_seq (window_span g - 1) 1

pub window_span-le : (g : NackGenerator) → window_span g ≤ g.history_size
unfolding window_span
window_span-le g = ground arith
