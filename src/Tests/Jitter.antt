-- ===== src/Tests/Jitter.antt =====
-- The jitter buffer at concrete inputs.
use asio_rtc.Common.{ℕ, ◌≡◌, ◌≢◌, refl, inl, true, false, [], ◌∷◌, none, some, arith}
use asio_rtc.Rtp.{RtpPacket}
use asio_rtc.Jitter.{
  JitterBuffer, jitter_buffer, extend_seq, contains, insert, is_empty, store, push, collect,
  continues, at_end, deliver, take_frame, pop_entries, pop_frame,
}
use asio_rtc.Jitter.Seq.{extend_seq_ahead, extend_seq_late}
use asio_rtc.Jitter.Order.{IsValid, push-IsValid}
use asio_rtc.Jitter.Frame.{Popped, pop_frame-Popped}
use asio_rtc.Jitter.Progress.{pop_frame_progress, pop_frame_stale_timer}

abbrev packet : ℕ → ℕ → RtpPacket
packet seq ts = record {
  version = 2;
  padding = 0;
  extension = 0;
  csrc_count = 0;
  marker = 0;
  payload_type = 96;
  sequence_number = seq;
  timestamp = ts;
  ssrc = 1;
  csrcs = [];
  extension_profile = 0;
  extension_data = [];
  payload = 1 ∷ [];
}

abbrev audio : JitterBuffer
audio = jitter_buffer 500 false

-- 10, 12 and 11 arrive; 10 and 11 are of one frame.
abbrev filled : JitterBuffer
filled = record {
  sorted = (10, packet 10 7) ∷ (11, packet 11 7) ∷ (12, packet 12 8) ∷ [];
  next_extended_seq = 10;
  first_packet = false;
  max_delay = 500;
  gap_start = none;
  video_wait_start = none;
  is_video = false;
}

fills : push (push (push audio (packet 10 7)) (packet 12 8)) (packet 11 7) ≡ filled
unfolding jitter_buffer push store extend_seq contains insert is_empty
fills = refl

pops : pop_frame filled 0 0 ≡ (
  record filled { sorted = (12, packet 12 8) ∷ []; next_extended_seq = 12 },
  packet 10 7 ∷ packet 11 7 ∷ [],
)
unfolding pop_frame pop_entries take_frame collect continues at_end deliver
pops = refl

filled-IsValid : IsValid filled
filled-IsValid = record { ordered = omega arith; next_fits = omega arith; starts_empty = inl refl }

push-IsValid_example : IsValid (push filled (packet 13 8))
push-IsValid_example = push-IsValid filled (packet 13 8) (omega arith) filled-IsValid

extend_seq_ahead_run : extend_seq 3 65530 ≡ 65539
extend_seq_ahead_run = extend_seq_ahead 65530 9 (omega arith) (omega arith)

-- 65530, six behind 65536, is taken for 131066.
extend_seq_late_run : extend_seq 65530 65536 ≡ 131066
extend_seq_late_run =
    extend_seq_late 65536 6 (omega arith) (omega arith) (omega arith) (omega arith)

pop_frame-Popped_example : Popped filled (pop_frame filled 0 0)
pop_frame-Popped_example = pop_frame-Popped filled 0 0 (omega arith)

pop_frame_progress_example : (pop_frame filled 0 0).1 ≢ []
pop_frame_progress_example =
    pop_frame_progress filled 10 0 0 (packet 10 7) ((11, packet 11 7) ∷ (12, packet 12 8) ∷ [])
      (omega arith) refl refl (inl refl)

pop_frame_stale_timer_run :
    let (after, frame) =
      pop_frame
        (record filled {
          sorted = (10, packet 10 7) ∷ [];
          video_wait_start = some 5;
          is_video = true;
        })
        0
        900_000_000 in
    (frame ≡ packet 10 7 ∷ []) × (after.video_wait_start ≡ some 5)
pop_frame_stale_timer_run =
    pop_frame_stale_timer (record filled { video_wait_start = some 5; is_video = true }) 5 0
      900_000_000 (packet 10 7) refl refl (omega arith)
