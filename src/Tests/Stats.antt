-- ===== src/Tests/Stats.antt =====
-- The statistics of a stream at concrete inputs.
use asio_rtc.Common.{◌+◌, ◌-◌, ◌%◌, ◌^◌, ◌≡◌, refl, inr, List, [], ◌∷◌, length, arith}
use asio_rtc.Stats.{
  SsrcContext, ssrc_context, set_base, advance_max, expected, count_packet, update_jitter,
  set_times, arrival, transit, signed_diff, distance, track_packet, extended_max, fraction,
  fraction_lost,
}
use asio_rtc.Stats.Extended.{Arrival, track_all, last_number, AreInOrder, track_all_counts}
use asio_rtc.Stats.Lost.{IsRatio, fraction_lost-IsRatio, fraction_lost_zero}

-- The numbers wrap round between the two packets.
abbrev over_the_wrap : List Arrival
over_the_wrap = (65537, 20_000, 3000) ∷ (65540, 40_000, 6000) ∷ []

over_the_wrap-AreInOrder : AreInOrder 65530 over_the_wrap
over_the_wrap-AreInOrder =
    (omega arith, omega arith, omega arith, (omega arith, omega arith, omega arith, omega arith))

track_all_counts_example :
    ((track_all over_the_wrap (track_packet 0 65530 0 (ssrc_context 7))).packets_expected
      ≡ last_number 65530 over_the_wrap - 65530 + 1)
    × ((track_all over_the_wrap (track_packet 0 65530 0 (ssrc_context 7))).packets_received
        ≡ 1 + length over_the_wrap)
    × (extended_max (track_all over_the_wrap (track_packet 0 65530 0 (ssrc_context 7)))
        ≡ last_number 65530 over_the_wrap % 2 ^ 32)
track_all_counts_example =
    track_all_counts 7 65530 0 0 over_the_wrap (omega arith) over_the_wrap-AreInOrder (omega arith)

abbrev half_lost : SsrcContext
half_lost = record (ssrc_context 7) {
  packets_expected = 30;
  expected_prior = 10;
  packets_received = 20;
  received_prior = 10;
}

fraction_lost-IsRatio_run : IsRatio (fraction_lost half_lost) (20 - 10) 20
unfolding ssrc_context
fraction_lost-IsRatio_run =
    fraction_lost-IsRatio half_lost 20 10 refl refl (omega arith) (omega arith)

half_lost_value : fraction_lost half_lost ≡ 128
unfolding fraction_lost fraction ssrc_context
half_lost_value = refl

abbrev all_lost : SsrcContext
all_lost = record (ssrc_context 7) {
  packets_expected = 30;
  expected_prior = 10;
  packets_received = 10;
  received_prior = 10;
}

fraction_lost_zero_run : fraction_lost all_lost ≡ 0
unfolding ssrc_context
fraction_lost_zero_run = fraction_lost_zero all_lost 20 0 refl refl (inr refl)

-- A packet from before the wrap counts as one of a whole cycle later.
late_packet :
    (track_packet 2 65535 0
      (track_packet 1 1 0 (track_packet 0 65534 0 (ssrc_context 7)))).packets_expected
    ≡ 65538
unfolding track_packet set_base ssrc_context advance_max count_packet expected update_jitter
    set_times arrival transit signed_diff distance
late_packet = refl
