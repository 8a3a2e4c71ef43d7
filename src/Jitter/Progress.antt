-- ===== src/Jitter/Progress.antt =====
-- When `pop_frame` hands out a frame, and what it leaves of the video timer.
use asio_rtc.Common.{
  ℕ, ◌+◌, ◌/◌, ◌≤◌, u32, ◌≡◌, ◌≢◌, sym, true, false, ltb, leb, Bool-cases, ◌⊎◌, inl, inr, List, [],
  ◌∷◌, Option, none, some, arith,
}
use mathlib.Core.Path.{subst}
use asio_rtc.Rtp.{RtpPacket}
use asio_rtc.Jitter.{
  Entry, JitterBuffer, ms, started, collect, continues, at_end, deliver, take_frame, pop_entries,
  pop_frame,
}
use asio_rtc.Jitter.Order.{Rising, IsOrdered}
use asio_rtc.Jitter.Frame.{collect-Collected}

-- Without the video test the collected run is handed out.
take_frame-audio :
    (j : JitterBuffer) (ts now : ℕ)
    → j.is_video ≡ false
    → Rising j.next_extended_seq j.sorted
    → (take_frame j ts now).1 ≡ (collect j.next_extended_seq ts j.sorted).0
unfolding take_frame deliver
take_frame-audio j ts now audio r =
    let run = collect-Collected j.next_extended_seq ts j.sorted r in simp (run.maximal, audio)

collect-cons :
    (k : ℕ) (p : RtpPacket) (es : List Entry)
    → (collect k p.timestamp ((k, p) ∷ es)).0 ≡ p ∷ (collect (u32 (k + 1)) p.timestamp es).0
unfolding collect
collect-cons k p es = ground arith

take_frame-ne-nil :
    (j : JitterBuffer) (k now : ℕ) (gap : Option ℕ) (p : RtpPacket) (es : List Entry)
    → j.is_video ≡ false
    → Rising k ((k, p) ∷ es)
    → (take_frame
        (record j { sorted = (k, p) ∷ es; next_extended_seq = k; gap_start = gap })
        p.timestamp
        now).1
      ≢ []
take_frame-ne-nil j k now gap p es audio r e = cc (
  take_frame-audio (record j { sorted = (k, p) ∷ es; next_extended_seq = k; gap_start = gap })
      p.timestamp now audio r,
  collect-cons k p es,
)

pop_entries-ne-nil :
    (j : JitterBuffer) (k gap_now video_now : ℕ) (p : RtpPacket) (es : List Entry)
    → Rising j.next_extended_seq ((k, p) ∷ es)
    → j.is_video ≡ false
    → (k ≡ j.next_extended_seq) ⊎ (started j.gap_start gap_now + ms j.max_delay ≤ gap_now)
    → (pop_entries ((k, p) ∷ es) j gap_now video_now).1 ≢ []
unfolding pop_entries
pop_entries-ne-nil j k gap_now video_now p es r audio ready =
    elim (Bool-cases (ltb j.next_extended_seq k)) [
      | inl gap ↦
          let over : leb (started j.gap_start gap_now + ms j.max_delay) gap_now ≡ true =
            ground arith in
          simp (gap, over) (take_frame-ne-nil j k video_now none p es audio (omega arith, r.1, r.2))
      | inr no_gap ↦
          let not_old : ltb k j.next_extended_seq ≡ false = ground arith in
          let same : k ≡ j.next_extended_seq = ground arith in
          simp (no_gap, not_old)
            (subst
              (λ n.
                (take_frame (record j { sorted = (k, p) ∷ es; next_extended_seq = n }) p.timestamp
                  video_now).1
                ≢ [])
              same (take_frame-ne-nil j k video_now j.gap_start p es audio (omega arith, r.1, r.2)))
    ]

-- For audio: if the first entry has the expected number, or the gap before it has lasted for
-- `max_delay`, then the call hands out at least one packet.
pub pop_frame_progress :
    (j : JitterBuffer) (k gap_now video_now : ℕ) (p : RtpPacket) (es : List Entry)
    → IsOrdered j
    → j.is_video ≡ false
    → j.sorted ≡ (k, p) ∷ es
    → (k ≡ j.next_extended_seq) ⊎ (started j.gap_start gap_now + ms j.max_delay ≤ gap_now)
    → (pop_frame j gap_now video_now).1 ≢ []
unfolding pop_frame
pop_frame_progress j k gap_now video_now p es r audio front ready =
    subst (λ (l : List Entry). (pop_entries l j gap_now video_now).1 ≢ []) (sym front)
      (pop_entries-ne-nil j k gap_now video_now p es (subst (Rising j.next_extended_seq) front r)
        audio ready)

-- A video buffer whose timer was started at `s` hands out a lone packet of the expected number as
-- soon as half of `max_delay` has passed since `s`, and does not stop the timer: it is still `s` when
-- the first packet of the next frame comes.
pub pop_frame_stale_timer :
    (j : JitterBuffer) (s gap_now video_now : ℕ) (p : RtpPacket)
    → j.is_video ≡ true
    → j.video_wait_start ≡ some s
    → s + ms (j.max_delay / 2) ≤ video_now
    → let (after, frame) =
        pop_frame (record j { sorted = (j.next_extended_seq, p) ∷ [] }) gap_now video_now in
      (frame ≡ p ∷ []) × (after.video_wait_start ≡ some s)
unfolding pop_frame pop_entries take_frame collect continues at_end deliver
pop_frame_stale_timer j s gap_now video_now p video timer late = ground arith
