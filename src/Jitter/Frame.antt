-- ===== src/Jitter/Frame.antt =====
-- What `pop_frame` takes off the buffer.
use asio_rtc.Common.{
  ℕ, ◌+◌, ◌/◌, ◌≤◌, u32, ◌≡◌, refl, sym, false, ◌&&◌, ltb, leb, ◌==◌, Bool-cases, ◌⊎◌, inl, inr,
  List, [], ◌∷◌, ◌++◌, All, Option, none, arith,
}
use asio_rtc.Rtp.{RtpPacket}
use asio_rtc.Jitter.{
  Entry, JitterBuffer, ms, started, collect, continues, at_end, deliver, take_frame, pop_entries,
  pop_frame,
}
use asio_rtc.Jitter.Order.{Rising, Rising-mono, IsOrdered}

-- Packets as consecutive entries from the number `n` on.
abbrev pub numbered : ℕ → List RtpPacket → List Entry
numbered n [] = []
numbered n (p ∷ ps) = (n, p) ∷ numbered (u32 (n + 1)) ps

-- The run of consecutive packets of timestamp `ts` at the front of `es`: what it is, what is left,
-- and that it ends there.
pub record Collected (n ts : ℕ) (es : List Entry) (out : List RtpPacket × List Entry × ℕ)
    : Type 0 where
  pub split : es ≡ numbered n out.0 ++ out.1
  pub stamps : All (λ (p : RtpPacket). p.timestamp ≡ ts) out.0
  pub ordered : Rising out.2 out.1
  pub maximal : continues out.2 ts out.1 ≡ false

pub collect-Collected :
    (n ts : ℕ) (es : List Entry) → Rising n es → Collected n ts es (collect n ts es)
unfolding collect continues
collect-Collected n ts [] r = record { split = refl; stamps = tt; ordered = tt; maximal = refl }
collect-Collected n ts ((k, p) ∷ es) r = elim (Bool-cases (k == n && p.timestamp == ts)) [
  | inl hit ↦
      let rest =
        collect-Collected (u32 (n + 1)) ts es
          (Rising-mono (u32 (n + 1)) (k + 1) es (ground arith) r.2) in
      rw hit (record {
        split = let same : k ≡ n = ground arith in rw (same, ← rest.split);
        stamps = (ground arith, rest.stamps);
        ordered = rest.ordered;
        maximal = rest.maximal;
      })
  | inr miss ↦ rw miss (record { split = refl; stamps = tt; ordered = r; maximal = miss })
]

-- What a call has done to the buffer: it took a run of consecutive packets of one timestamp off the
-- front, and what is left is in order behind them.
pub record Popped (j : JitterBuffer) (out : JitterBuffer × List RtpPacket) : Type 0 where
  pub start : ℕ
  pub not_before : j.next_extended_seq ≤ start
  pub split : j.sorted ≡ numbered start out.1 ++ out.0.sorted
  pub stamp : ℕ
  pub stamps : All (λ (p : RtpPacket). p.timestamp ≡ stamp) out.1
  pub ordered : IsOrdered out.0

-- A call that hands out nothing and keeps the entries.
abbrev Waits : JitterBuffer → JitterBuffer × List RtpPacket → Type 0
Waits j out =
    (out.1 ≡ []) × (out.0.sorted ≡ j.sorted) × (out.0.next_extended_seq ≡ j.next_extended_seq)

-- A call that hands out the collected run.
abbrev Takes : List RtpPacket × List Entry × ℕ → JitterBuffer × List RtpPacket → Type 0
Takes frame out = (out.1 ≡ frame.0) × (out.0.sorted ≡ frame.1) × (out.0.next_extended_seq ≡ frame.2)

-- With `start` as the expected number, which the gap test may have moved up.
Waits-Popped :
    (j : JitterBuffer) (start : ℕ) (out : JitterBuffer × List RtpPacket)
    → j.next_extended_seq ≤ start
    → Rising start j.sorted
    → Waits (record j { next_extended_seq = start }) out
    → Popped j out
Waits-Popped j start out h r (e0, e1, e2) = record {
  start = start;
  not_before = h;
  split = rw e0 (sym e1);
  stamp = 0;
  stamps = rw e0 tt;
  ordered = rw (e1, e2) r;
}

Takes-Popped :
    (j : JitterBuffer) (start ts : ℕ) (out : JitterBuffer × List RtpPacket)
    → j.next_extended_seq ≤ start
    → Rising start j.sorted
    → Takes (collect start ts j.sorted) out
    → Popped j out
Takes-Popped j start ts out h r (e0, e1, e2) =
    let run = collect-Collected start ts j.sorted r in
    record {
      start = start;
      not_before = h;
      split = rw (e0, e1) run.split;
      stamp = ts;
      stamps = rw e0 run.stamps;
      ordered = rw (e1, e2) run.ordered;
    }

-- `take_frame` either waits or takes the collected run.
pub take_frame_cases :
    (j : JitterBuffer) (ts now : ℕ)
    → Waits j (take_frame j ts now)
      ⊎ Takes (collect j.next_extended_seq ts j.sorted) (take_frame j ts now)
unfolding take_frame deliver
take_frame_cases j ts now =
    let frame = collect j.next_extended_seq ts j.sorted in
    elim (Bool-cases (continues frame.2 ts frame.1)) [
      | inl more ↦ inl (ground arith)
      | inr complete ↦ elim (Bool-cases (j.is_video && at_end frame.1)) [
        | inl last ↦
            elim (Bool-cases (ltb now (started j.video_wait_start now + ms (j.max_delay / 2)))) [
              | inl early ↦ inl (ground arith)
              | inr late ↦ inr (ground arith)
            ]
        | inr inner ↦ inr (ground arith)
      ]
    ]

-- From the test for a gap on, with `start` as the expected number.
take_frame-Popped :
    (j : JitterBuffer) (start ts now : ℕ) (gap : Option ℕ)
    → j.next_extended_seq ≤ start
    → Rising start j.sorted
    → Popped j (take_frame (record j { next_extended_seq = start; gap_start = gap }) ts now)
take_frame-Popped j start ts now gap h r =
    elim (take_frame_cases (record j { next_extended_seq = start; gap_start = gap }) ts now) [
      | inl waits ↦ Waits-Popped j start _ h r waits
      | inr takes ↦ Takes-Popped j start ts _ h r takes
    ]

pop_entries-Popped :
    (es : List Entry) (j : JitterBuffer) (gap_now video_now : ℕ)
    → Rising j.next_extended_seq es
    → Popped (record j { sorted = es }) (pop_entries es j gap_now video_now)
unfolding pop_entries
pop_entries-Popped [] j gap_now video_now r =
    Waits-Popped (record j { sorted = [] }) j.next_extended_seq _ (omega arith) tt
      (refl, refl, refl)
pop_entries-Popped ((k, p) ∷ es) j gap_now video_now r =
    let here : JitterBuffer = record j { sorted = (k, p) ∷ es } in
    let expires = started j.gap_start gap_now + ms j.max_delay in
    elim (Bool-cases (ltb j.next_extended_seq k)) [
      | inl gap ↦ elim (Bool-cases (leb expires gap_now)) [
        | inl over ↦
            simp (gap, over)
              (take_frame-Popped here k p.timestamp video_now none r.0 (omega arith, r.1, r.2))
        | inr wait ↦
            simp (gap, wait)
              (Waits-Popped here j.next_extended_seq _ (omega arith) r (refl, refl, refl))
      ]
      | inr no_gap ↦
          let not_old : ltb k j.next_extended_seq ≡ false = ground arith in
          simp (no_gap, not_old)
            (take_frame-Popped here j.next_extended_seq p.timestamp video_now j.gap_start
              (omega arith) r)
    ]

-- `pop_frame` takes consecutive packets of one timestamp off the front of an ordered buffer, loses
-- and repeats none, and leaves the rest in order behind them.
pub pop_frame-Popped :
    (j : JitterBuffer) (gap_now video_now : ℕ)
    → IsOrdered j
    → Popped j (pop_frame j gap_now video_now)
unfolding pop_frame
pop_frame-Popped j gap_now video_now r = pop_entries-Popped j.sorted j gap_now video_now r
