-- ===== src/Tests/Nack.antt =====
-- The generator of negative acknowledgements at concrete inputs.
use asio_rtc.Common.{◌≡◌, ◌<◌, refl, inl, true, false, [], ◌∷◌, arith}
use asio_rtc.Nack.{
  NackInfo, NackGenerator, nack_generator, mark_received, clear_missing, slide_window, receive_new,
  receive_first, receive_packet, scan_slot, scan, window_span, get_nacks, slot,
}
use asio_rtc.Nack.Scan.{is_due}
use asio_rtc.Nack.Requests.{get_nacks_waits}
use asio_rtc.Nack.Valid.{IsValid, receive_packet-IsValid, get_nacks-IsValid}
use asio_rtc.Nack.Receive.{receive_packet_not_due, receive_packet_gap_due}

abbrev missing : NackInfo
missing = record { received = false; nacked = false; retry_count = 0; last_nack_time = 0 }

abbrev got : NackInfo
got = record missing { received = true }

-- A history of eight with two tries, after 65534 has come first: its slot is 65534 % 8 = 6.
abbrev started : NackGenerator
started = record {
  history_size = 8;
  max_retries = 2;
  rtt_ms = 100;
  nack_delay_ms = 10;
  initialized = true;
  highest_seq = 65534;
  lowest_seq = 65534;
  buffer = missing ∷ missing ∷ missing ∷ missing ∷ missing ∷ missing ∷ got ∷ missing ∷ [];
}

starts : receive_packet (nack_generator 8 2 100 10) 65534 ≡ started
unfolding nack_generator receive_packet receive_first mark_received
starts = refl

-- After 65534 comes 2, so 65535, 0 and 1 are missing.
abbrev holed : NackGenerator
holed = record started {
  highest_seq = 2;
  buffer = missing ∷ missing ∷ got ∷ missing ∷ missing ∷ missing ∷ got ∷ missing ∷ [];
}

skips : receive_packet started 2 ≡ holed
unfolding receive_packet receive_new slide_window mark_received clear_missing
skips = refl

requests : (get_nacks holed 5).1 ≡ 1 ∷ 0 ∷ 65535 ∷ []
unfolding get_nacks scan scan_slot window_span
requests = refl

-- Within the backoff of 120 ms nothing is asked for again; after it, everything is.
repeats :
    ((get_nacks (get_nacks holed 5).0 124).1 ≡ [])
    × ((get_nacks (get_nacks holed 5).0 125).1 ≡ 1 ∷ 0 ∷ 65535 ∷ [])
unfolding get_nacks scan scan_slot window_span
repeats = (refl, refl)

-- After two tries a packet is given up.
gives_up : (get_nacks (get_nacks (get_nacks holed 5).0 125).0 900).1 ≡ []
unfolding get_nacks scan scan_slot window_span
gives_up = refl

started-IsValid : IsValid started
started-IsValid = omega arith

holed-IsValid : IsValid holed
holed-IsValid = omega arith

get_nacks_waits_run : is_due 2 120 124 (slot 8 (get_nacks holed 5).0.buffer 0) ≡ false
get_nacks_waits_run =
    get_nacks_waits holed 5 124 2 refl refl refl (omega arith) three_in_span refl (omega arith)
  where
    three_in_span : 2 < window_span holed
    three_in_span = unfold window_span in omega arith

receive_packet-IsValid_example : IsValid (receive_packet started 2)
receive_packet-IsValid_example = receive_packet-IsValid started 2 started-IsValid (omega arith)

get_nacks-IsValid_example : IsValid (get_nacks holed 5).0
get_nacks-IsValid_example = get_nacks-IsValid holed 5 holed-IsValid

receive_packet_not_due_example : is_due 2 120 900 (slot 8 (receive_packet holed 0).buffer 0) ≡ false
receive_packet_not_due_example =
    receive_packet_not_due holed 0 900 holed-IsValid (omega arith) (inl (omega arith))

receive_packet_gap_due_example : is_due 2 120 5 (slot 8 (receive_packet started 2).buffer 0) ≡ true
receive_packet_gap_due_example =
    receive_packet_gap_due started 4 2 5 started-IsValid refl refl (omega arith) (omega arith)
      (omega arith) (omega arith)
