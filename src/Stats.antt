-- ===== src/Stats.antt =====
-- src/ssrc_context.hpp: the statistics of a received stream, for the receiver reports. The set hook,
-- the reference to the receiver and the getters that return a member are left out. The clock is an
-- argument: microseconds in `track_packet`, any unit in `record_sr`.
pub mod Extended
pub mod Lost
use asio_rtc.Common.{
  ℕ, ◌+◌, ◌-◌, ◌*◌, ◌/◌, ◌%◌, ◌^◌, Bool, true, false, not, ◌&&◌, ◌||◌, ltb, leb, ◌==◌,
  if◌then◌else◌,
}
use asio_rtc.Nack.{NackGenerator, nack_generator}

pub record SsrcContext : Type 0 where
  pub ssrc : ℕ
  pub max_seq : ℕ
  pub cycles : ℕ
  pub base_seq : ℕ
  pub base_seq_set : Bool
  pub packets_expected : ℕ
  pub packets_received : ℕ
  pub expected_prior : ℕ
  pub received_prior : ℕ
  pub jitter_q4 : ℕ
  pub last_arrival_ts : ℕ
  pub last_rtp_ts : ℕ
  pub lsr : ℕ
  pub consecutive_lost : ℕ
  pub lsr_time : ℕ
  pub nack_gen : NackGenerator

unfoldable pub ssrc_context : ℕ → SsrcContext
ssrc_context ssrc = record {
  ssrc = ssrc;
  max_seq = 0;
  cycles = 0;
  base_seq = 0;
  base_seq_set = false;
  packets_expected = 0;
  packets_received = 0;
  expected_prior = 0;
  received_prior = 0;
  jitter_q4 = 0;
  last_arrival_ts = 0;
  last_rtp_ts = 0;
  lsr = 0;
  consecutive_lost = 0;
  lsr_time = 0;
  nack_gen = nack_generator 1024 10 100 10;
}

-- `if (!_base_seq_set)`
unfoldable pub set_base : ℕ → SsrcContext → SsrcContext
set_base seq c = if c.base_seq_set then c else record c { base_seq = seq; base_seq_set = true }

-- The highest number, and a cycle where the numbers begin again.
unfoldable pub advance_max : ℕ → SsrcContext → SsrcContext
advance_max seq c =
    if ltb seq c.max_seq
    then (if ltb 0x8000 (c.max_seq - seq)
        then record c { cycles = (c.cycles + 0x10000) % 2 ^ 64; max_seq = seq }
        else c)
    else record c { max_seq = seq }

-- `_cycles + _max_seq - _base_seq + 1` in 64 bits
unfoldable pub expected : ℕ → ℕ → ℕ → ℕ
expected cycles max_seq base_seq = (cycles + max_seq + (2 ^ 64 - base_seq) + 1) % 2 ^ 64

unfoldable pub count_packet : SsrcContext → SsrcContext
count_packet c = record c {
  packets_expected = expected c.cycles c.max_seq c.base_seq;
  packets_received = (c.packets_received + 1) % 2 ^ 64;
}

-- The time of arrival in units of the RTP clock, 32 bits wide.
unfoldable pub arrival : ℕ → ℕ
arrival now_us = now_us / 1000 * 90 % 2 ^ 32

-- A difference of 32 bits read as a signed number, with `2 ^ 31` added.
unfoldable pub signed_diff : ℕ → ℕ → ℕ
signed_diff a b = (a + (2 ^ 32 - b) + 2 ^ 31) % 2 ^ 32

-- The distance of two signed numbers, whatever is added to both. C++ leaves the overflow of the
-- subtraction open.
unfoldable pub distance : ℕ → ℕ → ℕ
distance a b = if ltb a b then b - a else a - b

unfoldable pub transit : ℕ → ℕ → SsrcContext → ℕ
transit arr_ts rtp_ts c =
    distance (signed_diff arr_ts c.last_arrival_ts) (signed_diff rtp_ts c.last_rtp_ts)

unfoldable pub update_jitter : ℕ → ℕ → SsrcContext → SsrcContext
update_jitter arr_ts rtp_ts c =
    if c.last_arrival_ts == 0
    then c
    else record c { jitter_q4 = c.jitter_q4 + transit arr_ts rtp_ts c - (c.jitter_q4 + 8) / 16 }

unfoldable pub set_times : ℕ → ℕ → SsrcContext → SsrcContext
set_times arr_ts rtp_ts c = record c { last_arrival_ts = arr_ts; last_rtp_ts = rtp_ts }

unfoldable pub track_packet : ℕ → ℕ → ℕ → SsrcContext → SsrcContext
track_packet now_us seq rtp_ts c =
    let arr_ts = arrival now_us in
    set_times arr_ts rtp_ts
      (update_jitter arr_ts rtp_ts (count_packet (advance_max seq (set_base seq c))))

unfoldable pub check_gap : ℕ → SsrcContext → Bool
check_gap prev_expected c = c.base_seq_set && ltb ((prev_expected + 1) % 2 ^ 64) c.packets_expected

unfoldable pub inc_consecutive_lost : SsrcContext → SsrcContext
inc_consecutive_lost c = record c { consecutive_lost = c.consecutive_lost + 1 }

unfoldable pub reset_consecutive_lost : SsrcContext → SsrcContext
reset_consecutive_lost c = record c { consecutive_lost = 0 }

unfoldable pub record_sr : ℕ → ℕ → SsrcContext → SsrcContext
record_sr now ntp_ts c = record c { lsr = ntp_ts; lsr_time = now }

unfoldable pub extended_max : SsrcContext → ℕ
extended_max c = (c.cycles + c.max_seq) % 2 ^ 32

unfoldable pub advance_prior : SsrcContext → SsrcContext
advance_prior c = record c {
  expected_prior = c.packets_expected;
  received_prior = c.packets_received;
}

-- `(li << 8) / ei` for the packets expected and received since the last report; the counts only grow.
unfoldable pub fraction : ℕ → ℕ → ℕ
fraction ei ri = if ei == 0 || leb ei ri then 0 else (ei - ri) * 256 / ei % 2 ^ 8

unfoldable pub fraction_lost : SsrcContext → ℕ
fraction_lost c =
    fraction (c.packets_expected - c.expected_prior) (c.packets_received - c.received_prior)

unfoldable pub reset_stats : SsrcContext → SsrcContext
reset_stats c = ssrc_context c.ssrc
