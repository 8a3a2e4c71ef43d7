-- ===== src/Tests/Remb.antt =====
-- REMB at concrete inputs.
use asio_rtc.Common.{ℕ, ◌*◌, ◌/◌, ◌^◌, ◌≤◌, ◌≡◌, ◌⊎◌, refl, [], ◌∷◌, arith}
use asio_rtc.Rtp.{read_csrcs, write_csrcs}
use asio_rtc.Remb.{scale, pack_remb, parse_remb}
use asio_rtc.Remb.RoundTrip.{parse_remb-pack_remb}
use asio_rtc.Tests.Fixture.{network, network-IsBigEndian}

megabit :
    pack_remb network 1_000_001 (7 ∷ [])
    ≡ 82 ∷ 69 ∷ 77 ∷ 66 ∷ 1 ∷ 11 ∷ 208 ∷ 144 ∷ 0 ∷ 0 ∷ 0 ∷ 7 ∷ []
unfolding pack_remb scale write_csrcs
megabit = refl

megabit_read :
    parse_remb network (82 ∷ 69 ∷ 77 ∷ 66 ∷ 1 ∷ 11 ∷ 208 ∷ 144 ∷ 0 ∷ 0 ∷ 0 ∷ 7 ∷ [])
    ≡ (1_000_000, 7 ∷ [])
unfolding parse_remb read_csrcs
megabit_read = refl

wrong_name : parse_remb network (82 ∷ 69 ∷ 77 ∷ 65 ∷ 0 ∷ 0 ∷ 0 ∷ 1 ∷ []) ≡ (0, [])
unfolding parse_remb
wrong_name = refl

parse_remb-pack_remb_example :
    (k : ℕ) × ((k ≡ 0) ⊎ (2 ^ 17 ≤ 1_000_001 / 2 ^ k))
    × (parse_remb network (pack_remb network 1_000_001 (7 ∷ []))
        ≡ (1_000_001 / 2 ^ k * 2 ^ k, 7 ∷ []))
parse_remb-pack_remb_example =
    parse_remb-pack_remb network-IsBigEndian 1_000_001 (7 ∷ []) (omega arith) (omega arith)
      (omega arith)
