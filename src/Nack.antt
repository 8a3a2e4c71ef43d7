-- ===== src/Nack.antt =====
-- src/nack_generator.cpp and src/nack_generator.hpp: which lost packets to ask for again.
-- Times are milliseconds of a steady clock and not negative, so `now - last >= backoff` is
-- `last + backoff ≤ now`.
pub mod Slots
pub mod Scan
pub mod Requests
pub mod Valid
pub mod Receive
use asio_rtc.Common.{
  ℕ, zero, suc, ◌+◌, ◌-◌, ◌*◌, ◌/◌, ◌%◌, ◌^◌, u8, u16, Bool, true, false, not, leb, if◌then◌else◌,
  List, [], ◌∷◌, get_or, set, replicate,
}
use asio_rtc.Common.Int.{ℤ, pos, negsuc, pos_part, neg_part, ltb_ℤ, leb_ℤ, signed16}

pub record NackInfo : Type 0 where
  pub received : Bool
  pub nacked : Bool
  pub retry_count : ℕ
  pub last_nack_time : ℕ

-- `nack_info{}`
abbrev pub fresh : NackInfo
fresh = record { received = false; nacked = false; retry_count = 0; last_nack_time = 0 }

pub record NackGenerator : Type 0 where
  pub history_size : ℕ
  pub max_retries : ℕ
  pub rtt_ms : ℕ
  pub nack_delay_ms : ℕ
  pub initialized : Bool
  pub highest_seq : ℕ
  pub lowest_seq : ℕ
  pub buffer : List NackInfo

-- The constructor.
unfoldable pub nack_generator : ℕ → ℕ → ℕ → ℕ → NackGenerator
nack_generator history_size max_retries rtt_ms nack_delay_ms = record {
  history_size = history_size;
  max_retries = max_retries;
  rtt_ms = rtt_ms;
  nack_delay_ms = nack_delay_ms;
  initialized = false;
  highest_seq = 0;
  lowest_seq = 0;
  buffer = replicate history_size fresh;
}

-- `uint16_t` subtraction
abbrev pub sub16 : ℕ → ℕ → ℕ
sub16 a b = (a + 2 ^ 16 - b) % 2 ^ 16

abbrev pub seq_distance : ℕ → ℕ → ℤ
seq_distance a b = signed16 (sub16 b a)

module _ (history_size : ℕ) where
  abbrev pub get_index : ℕ → ℕ
  get_index seq = seq % history_size

  abbrev pub slot : List NackInfo → ℕ → NackInfo
  slot buffer seq = get_or buffer (get_index seq) fresh

  abbrev pub put : List NackInfo → ℕ → NackInfo → List NackInfo
  put buffer seq info = set buffer (get_index seq) info

  unfoldable pub mark_received : List NackInfo → ℕ → List NackInfo
  mark_received buffer seq = put buffer seq (record (slot buffer seq) { received = true })

  -- The loop that resets the missed packets: `n` rounds are left, from `i` on.
  unfoldable pub clear_missing : ℕ → ℕ → ℕ → List NackInfo → List NackInfo
  clear_missing zero i highest buffer = buffer
  clear_missing (suc n) i highest buffer =
      clear_missing n (i + 1) highest (put buffer (u16 (highest + i)) fresh)

-- `if (seq_distance(_lowest_seq, _highest_seq) >= _history_size) …`
unfoldable pub slide_window : NackGenerator → NackGenerator
slide_window g =
    if leb_ℤ (pos g.history_size) (seq_distance g.lowest_seq g.highest_seq)
    then record g { lowest_seq = sub16 g.highest_seq (u16 (g.history_size - 1)) }
    else g

-- A packet newer than all before: the reset, then the mark, the new highest and the window.
unfoldable pub receive_new : NackGenerator → ℕ → ℕ → NackGenerator
receive_new g seq diff =
    let cleared : NackGenerator =
      if leb g.history_size diff
      then record g {
        buffer = replicate g.history_size fresh;
        lowest_seq = sub16 seq (u16 (g.history_size - 1));
      }
      else record g { buffer = clear_missing g.history_size (diff - 1) 1 g.highest_seq g.buffer } in
    slide_window (record cleared {
      buffer = mark_received g.history_size cleared.buffer seq;
      highest_seq = seq;
    })

-- An old or repeated packet counts if it is not too old.
unfoldable pub receive_old : NackGenerator → ℕ → NackGenerator
receive_old g seq =
    if ltb_ℤ (signed_neg g.history_size) (seq_distance g.highest_seq seq)
    then record g { buffer = mark_received g.history_size g.buffer seq }
    else g
  where
    signed_neg : ℕ → ℤ
    signed_neg n = if leb n 0 then pos 0 else negsuc (n - 1)

unfoldable pub receive_first : NackGenerator → ℕ → NackGenerator
receive_first g seq = record g {
  highest_seq = seq;
  lowest_seq = seq;
  initialized = true;
  buffer = mark_received g.history_size g.buffer seq;
}

unfoldable pub receive_packet : NackGenerator → ℕ → NackGenerator
receive_packet g seq =
    let diff = seq_distance g.highest_seq seq in
    if not g.initialized
    then receive_first g seq
    else if leb_ℤ diff (pos 0)
    then receive_old g seq
    else receive_new g seq (pos_part diff)

-- One round of the scan of `get_nacks`: the slot after it, and whether its packet is asked for.
unfoldable pub scan_slot : ℕ → ℕ → ℕ → NackInfo → NackInfo × Bool
scan_slot max_retries backoff_ms now_ms info =
    if info.received
    then (info, false)
    else if leb max_retries info.retry_count
    then (record info { received = true }, false)
    else if not info.nacked
    then (record bumped { nacked = true }, true)
    else if leb (info.last_nack_time + backoff_ms) now_ms
    then (bumped, true)
    else (info, false)
  where
    bumped : NackInfo
    bumped = record info { retry_count = u8 (info.retry_count + 1); last_nack_time = now_ms }

module _ (history_size max_retries backoff_ms now_ms highest : ℕ) where
  -- The loop from `i` on, with `n` rounds left; `nacks` is what has been pushed.
  unfoldable pub scan : ℕ → ℕ → List NackInfo → List NackInfo × List ℕ
  scan zero i buffer = (buffer, [])
  scan (suc n) i buffer =
      let seq = sub16 highest (u16 i) in
      let (info, due) = scan_slot max_retries backoff_ms now_ms (slot history_size buffer seq) in
      let (after, nacks) = scan n (i + 1) (put history_size buffer seq info) in
      (after, (if due then seq ∷ nacks else nacks))

-- The number of sequence numbers that are scanned, plus one.
unfoldable pub window_span : NackGenerator → ℕ
window_span g =
    let distance = seq_distance g.lowest_seq g.highest_seq in
    let span : ℕ =
      if ltb_ℤ distance (pos 0) then 2 ^ 16 - neg_part distance else pos_part distance in
    if leb span g.history_size then span else g.history_size

unfoldable pub get_nacks : NackGenerator → ℕ → NackGenerator × List ℕ
get_nacks g now_ms =
    if not g.initialized
    then (g, [])
    else let (after, nacks) =
        scan g.history_size g.max_retries (g.rtt_ms + 20) now_ms g.highest_seq (window_span g - 1) 1
          g.buffer in
      (record g { buffer = after }, nacks)

unfoldable pub update_rtt : NackGenerator → ℕ → NackGenerator
update_rtt g rtt_ms = record g { rtt_ms = (g.rtt_ms * 7 + rtt_ms) / 8 }
