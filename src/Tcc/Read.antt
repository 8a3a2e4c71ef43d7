-- ===== src/Tcc/Read.antt =====
-- The status bytes of a feedback message, read back.
use asio_rtc.Common.{
  ℕ, zero, suc, ◌+◌, ◌*◌, ◌/◌, ◌^◌, ◌<◌, ◌≡◌, refl, sym, ap, ◌∙◌, u8, ◌>>>◌, Option, none, some,
  List, [], ◌∷◌, ◌++◌, length, drop, take, map, All, arith,
}
use mathlib.Core.Path.{ap₂}
use asio_rtc.Binary.{Binary, IsBigEndian}
use asio_rtc.Tcc.{
  TccPacketStatus, not_received, small_delta, large_delta, received_without_delta, TccPacketInfo,
  symbol, delta_bytes, all_deltas, tcc_build_packet_status,
}
use asio_rtc.Tcc.Status.{statuses, read_symbols, read_chunks}

-- What a symbol stands for.
unfoldable pub status_of : ℕ → TccPacketStatus
status_of zero = not_received
status_of (suc zero) = small_delta
status_of (suc (suc zero)) = large_delta
status_of (suc (suc (suc n))) = received_without_delta

abbrev prepend : TccPacketInfo → Option (List TccPacketInfo) → Option (List TccPacketInfo)
prepend p none = none
prepend p (some packets) = some (p ∷ packets)

-- The deltas of packets with these statuses, one byte for a small and two for a large one.
unfoldable pub read_deltas : List TccPacketStatus → List ℕ → Option (List TccPacketInfo)
read_deltas [] [] = some []
read_deltas [] (b ∷ bytes) = none
read_deltas (not_received ∷ ss) bytes =
    prepend (record { status = not_received; delta = 0 }) (read_deltas ss bytes)
read_deltas (received_without_delta ∷ ss) bytes =
    prepend (record { status = received_without_delta; delta = 0 }) (read_deltas ss bytes)
read_deltas (small_delta ∷ ss) [] = none
read_deltas (small_delta ∷ ss) (b ∷ bytes) =
    prepend (record { status = small_delta; delta = b }) (read_deltas ss bytes)
read_deltas (large_delta ∷ ss) [] = none
read_deltas (large_delta ∷ ss) (b ∷ []) = none
read_deltas (large_delta ∷ ss) (b ∷ c ∷ bytes) =
    prepend (record { status = large_delta; delta = b * 256 + c }) (read_deltas ss bytes)

-- The statuses and deltas of `n` packets: whole chunks, the deltas, and nothing behind them.
unfoldable pub read_status : Binary → ℕ → List ℕ → Option (List TccPacketInfo)
read_status bin n buf =
    let chunks = (n + 6) / 7 in
    read_deltas (map status_of (take n (read_symbols bin chunks buf))) (drop (2 * chunks) buf)

-- The delta fits the place that the status gives it, and is 0 where there is none.
abbrev FitsStatus : TccPacketStatus → ℕ → Type 0
FitsStatus not_received d = d ≡ 0
FitsStatus small_delta d = d < 2 ^ 8
FitsStatus large_delta d = d < 2 ^ 16
FitsStatus received_without_delta d = d ≡ 0

abbrev pub IsSendable : TccPacketInfo → Type 0
IsSendable p = FitsStatus p.status p.delta

status_of-symbol : (s : TccPacketStatus) → status_of (symbol s) ≡ s
unfolding status_of symbol
status_of-symbol not_received = refl
status_of-symbol small_delta = refl
status_of-symbol large_delta = refl
status_of-symbol received_without_delta = refl

abbrev status_list : List TccPacketInfo → List TccPacketStatus
status_list packets = map (λ (p : TccPacketInfo). p.status) packets

status_of-statuses :
    (packets : List TccPacketInfo) → map status_of (statuses packets) ≡ status_list packets
status_of-statuses [] = refl
status_of-statuses (p ∷ packets) =
    ap₂ (λ (s : TccPacketStatus) (ss : List TccPacketStatus). s ∷ ss) (status_of-symbol p.status)
      (status_of-statuses packets)

one_delta :
    (s : TccPacketStatus) (d : ℕ) (ss : List TccPacketStatus) (bytes : List ℕ)
    → FitsStatus s d
    → read_deltas (s ∷ ss) (delta_bytes (record { status = s; delta = d }) ++ bytes)
      ≡ prepend (record { status = s; delta = d }) (read_deltas ss bytes)
unfolding read_deltas delta_bytes
one_delta not_received d ss bytes h =
    ap (λ n. prepend (record { status = not_received; delta = n }) (read_deltas ss bytes)) (sym h)
one_delta received_without_delta d ss bytes h =
    ap (λ n. prepend (record { status = received_without_delta; delta = n }) (read_deltas ss bytes))
      (sym h)
one_delta small_delta d ss bytes h =
    let same : u8 d ≡ d = omega (arith, h) in
    ap (λ n. prepend (record { status = small_delta; delta = n }) (read_deltas ss bytes)) same
one_delta large_delta d ss bytes h =
    let same : u8 (d >>> 8) * 256 + u8 d ≡ d = omega (arith, h) in
    ap (λ n. prepend (record { status = large_delta; delta = n }) (read_deltas ss bytes)) same

read_deltas-all_deltas :
    (packets : List TccPacketInfo)
    → All IsSendable packets
    → read_deltas (status_list packets) (all_deltas packets) ≡ some packets
unfolding read_deltas all_deltas
read_deltas-all_deltas [] h = refl
read_deltas-all_deltas (p ∷ packets) h =
    one_delta p.status p.delta (status_list packets) (all_deltas packets) h.0
    ∙ ap (prepend p) (read_deltas-all_deltas packets h.1)

module _ {bin : Binary} (be : IsBigEndian bin) where
  -- The status bytes are read back as the packets that they were made of: chunks of seven symbols of
  -- two bits, then a byte for every small delta and two for every large one, and nothing else. The
  -- deltas fit their places, and are 0 where there is none.
  pub read_status-tcc_build_packet_status :
      (packets : List TccPacketInfo)
      → All IsSendable packets
      → read_status bin (length packets) (tcc_build_packet_status bin packets) ≡ some packets
  unfolding read_status tcc_build_packet_status
  read_status-tcc_build_packet_status packets h =
      let (chunks, behind) =
        read_chunks be (length packets) packets (all_deltas packets) (omega arith) in
      ap₂ (λ (l : List ℕ) (b : List ℕ). read_deltas (map status_of l) b) chunks behind
      ∙ (ap (λ ss. read_deltas ss (all_deltas packets)) (status_of-statuses packets)
          ∙ read_deltas-all_deltas packets h)
