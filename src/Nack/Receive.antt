-- ===== src/Nack/Receive.antt =====
-- What `receive_packet` does to the slots of the packet and of those before it.
use asio_rtc.Common.{
  ℕ, zero, suc, ◌+◌, ◌-◌, ◌%◌, ◌^◌, ◌≤◌, ◌<◌, u16, ◌≡◌, ◌∙◌, sym, ap, true, false, leb, List,
  length, length-replicate, length-set, if◌then◌else◌, replicate, ◌⊎◌, inl, inr, Bool-cases, arith,
}
use native.Mathlib.Decide.{dec_lt, ℕ_discrete}
use asio_rtc.Nack.{
  NackInfo, NackGenerator, fresh, sub16, slot, put, get_index, mark_received, clear_missing,
  slide_window, receive_new, receive_old, receive_first, receive_packet,
}
use asio_rtc.Nack.Slots.{up-ne, slot-put_self, slot-put_ne}
use asio_rtc.Nack.Scan.{is_due}
use asio_rtc.Nack.Valid.{IsValid, length-clear_missing, receive_packet_cases}

put-fresh_keeps :
    (h x s : ℕ) (buffer : List NackInfo)
    → 0 < h
    → length buffer ≡ h
    → slot h buffer s ≡ fresh
    → slot h (put h buffer x fresh) s ≡ fresh
put-fresh_keeps h x s buffer p size e = elim (ℕ_discrete (get_index h x) (get_index h s)) [
  | yes same ↦ rw (← same) (slot-put_self h buffer x fresh p size)
  | no other ↦ slot-put_ne h buffer x s fresh other ∙ e
]

-- A slot that is fresh stays so, since the loop only writes fresh slots.
clear_missing_keeps :
    (h n i highest s : ℕ) (buffer : List NackInfo)
    → 0 < h
    → length buffer ≡ h
    → slot h buffer s ≡ fresh
    → slot h (clear_missing h n i highest buffer) s ≡ fresh
unfolding clear_missing
clear_missing_keeps h zero i highest s buffer p size e = e
clear_missing_keeps h (suc n) i highest s buffer p size e =
    clear_missing_keeps h n (i + 1) highest s _ p (length-set buffer _ _ ∙ size)
      (put-fresh_keeps h (u16 (highest + i)) s buffer p size e)

-- Every number that the loop goes through has a fresh slot after it.
clear_missing-fresh :
    (h n i highest k : ℕ) (buffer : List NackInfo)
    → 0 < h
    → length buffer ≡ h
    → i ≤ k
    → k < i + n
    → slot h (clear_missing h n i highest buffer) (u16 (highest + k)) ≡ fresh
unfolding clear_missing
clear_missing-fresh h zero i highest k buffer p size lo hi = absurd (omega arith)
clear_missing-fresh h (suc n) i highest k buffer p size lo hi = elim (dec_lt i k) [
  | yes later ↦
      clear_missing-fresh h n (i + 1) highest k _ p (length-set buffer _ _ ∙ size) (omega arith)
        (omega arith)
  | no now ↦
      let same : i ≡ k = omega arith in
      clear_missing_keeps h n (i + 1) highest (u16 (highest + k)) _ p (length-set buffer _ _ ∙ size)
        (rw same (slot-put_self h buffer (u16 (highest + k)) fresh p size))
]

slot-mark_received :
    (h seq : ℕ) (buffer : List NackInfo)
    → 0 < h
    → length buffer ≡ h
    → (slot h (mark_received h buffer seq) seq).received ≡ true
unfolding mark_received
slot-mark_received h seq buffer p size =
    ap (λ (i : NackInfo). i.received) (slot-put_self h buffer seq _ p size)

receive_new_buffer :
    (g : NackGenerator) (seq d : ℕ)
    → (receive_new g seq d).buffer
      ≡ mark_received g.history_size
          (if leb g.history_size d
            then replicate g.history_size fresh
            else clear_missing g.history_size (d - 1) 1 g.highest_seq g.buffer)
          seq
unfolding receive_new slide_window
receive_new_buffer g seq d = ground arith

receive_packet_new :
    (g : NackGenerator) (seq : ℕ)
    → g.initialized ≡ true
    → 0 < sub16 seq g.highest_seq
    → sub16 seq g.highest_seq < 2 ^ 15
    → receive_packet g seq ≡ receive_new g seq (sub16 seq g.highest_seq)
unfolding receive_packet
receive_packet_new g seq run lo hi = ground arith

length-cleared :
    (g : NackGenerator) (d : ℕ)
    → IsValid g
    → length (
        if leb g.history_size d
        then replicate g.history_size fresh
        else clear_missing g.history_size (d - 1) 1 g.highest_seq g.buffer)
      ≡ g.history_size
length-cleared g d v = elim (Bool-cases (leb g.history_size d)) [
  | inl far ↦ rw far (length-replicate g.history_size fresh)
  | inr close ↦
      rw close (length-clear_missing g.history_size (d - 1) 1 g.highest_seq g.buffer ∙ v.size)
]

receive_old_marks :
    (g : NackGenerator) (seq : ℕ)
    → 0 < g.history_size
    → g.history_size ≤ 2 ^ 14
    → g.highest_seq < 2 ^ 16
    → seq < 2 ^ 16
    → (sub16 g.highest_seq seq < g.history_size) ⊎ (sub16 seq g.highest_seq < 2 ^ 15)
    → (receive_old g seq).buffer ≡ mark_received g.history_size g.buffer seq
unfolding receive_old
receive_old_marks g seq p q hs ss (inl near) = ground arith
receive_old_marks g seq p q hs ss (inr ahead) = ground arith

-- The slot of a packet that is not too old says that it has been received.
received_lem :
    (g : NackGenerator) (seq : ℕ)
    → IsValid g
    → seq < 2 ^ 16
    → (sub16 g.highest_seq seq < g.history_size) ⊎ (sub16 seq g.highest_seq < 2 ^ 15)
    → (slot g.history_size (receive_packet g seq).buffer seq).received ≡ true
unfolding receive_first
received_lem g seq v hs recent = elim (receive_packet_cases g seq) [
  | inl first ↦
      rw (first, receive_first) (slot-mark_received g.history_size seq g.buffer v.nonempty v.size)
  | inr (inl old) ↦
      rw (old, receive_old_marks g seq v.nonempty v.small v.highest_fits hs recent)
        (slot-mark_received g.history_size seq g.buffer v.nonempty v.size)
  | inr (inr (new, near)) ↦
      rw (new, receive_new_buffer g seq (sub16 seq g.highest_seq))
        (slot-mark_received g.history_size seq _ v.nonempty
          (length-cleared g (sub16 seq g.highest_seq) v))
]

-- A packet `d` numbers ahead of the highest, less than a history, leaves a fresh slot for each of
-- the numbers that it skips.
pub receive_packet_gap :
    (g : NackGenerator) (d k : ℕ)
    → IsValid g
    → g.initialized ≡ true
    → 2 ^ 16 % g.history_size ≡ 0
    → 0 < k
    → k < d
    → d < g.history_size
    → slot g.history_size
        (receive_packet g (u16 (g.highest_seq + d))).buffer
        (u16 (g.highest_seq + k))
      ≡ fresh
unfolding mark_received
receive_packet_gap g d k v run divides lo hi near =
    let h = g.history_size in
    let seq = u16 (g.highest_seq + d) in
    let ahead : sub16 seq g.highest_seq ≡ d = omega (arith, v.highest_fits, v.small) in
    let close : leb h d ≡ false = ground arith in
    let cleared = clear_missing h (d - 1) 1 g.highest_seq g.buffer in
    rw
      (
        receive_packet_new g seq run (omega arith) (omega (arith, v.small)),
        ahead,
        receive_new_buffer g seq d,
        close,
        mark_received,
        slot-put_ne h cleared seq (u16 (g.highest_seq + k)) _
            (λ e. up-ne h divides g.highest_seq k d hi (omega arith) (sym e)),
      )
      (clear_missing-fresh h (d - 1) 1 g.highest_seq k g.buffer v.nonempty v.size lo (omega arith))

-- A packet that lies less than a history below the highest number, or ahead of it, is not due once
-- it has been recorded, at any time and whatever its slot held before.
pub receive_packet_not_due :
    (g : NackGenerator) (seq now : ℕ)
    → IsValid g
    → seq < 2 ^ 16
    → (sub16 g.highest_seq seq < g.history_size) ⊎ (sub16 seq g.highest_seq < 2 ^ 15)
    → is_due g.max_retries
        (g.rtt_ms + 20)
        now
        (slot g.history_size (receive_packet g seq).buffer seq)
      ≡ false
receive_packet_not_due g seq now v hs recent = rw (received_lem g seq v hs recent)

-- If at least one try is allowed and the history size divides 2 ^ 16, each number that a packet skips,
-- less than a history ahead of the highest, is due at any time from then on: nothing waits for the
-- `nack_delay_ms` that the generator was made with.
pub receive_packet_gap_due :
    (g : NackGenerator) (d k now : ℕ)
    → IsValid g
    → g.initialized ≡ true
    → 2 ^ 16 % g.history_size ≡ 0
    → 0 < g.max_retries
    → 0 < k
    → k < d
    → d < g.history_size
    → is_due g.max_retries (g.rtt_ms + 20) now (
        slot g.history_size
          (receive_packet g (u16 (g.highest_seq + d))).buffer
          (u16 (g.highest_seq + k)))
      ≡ true
receive_packet_gap_due g d k now v run divides tries lo hi near =
    rw (receive_packet_gap g d k v run divides lo hi near) (ground arith)
