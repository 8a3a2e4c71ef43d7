-- ===== src/Tcc/Status.antt =====
-- The status chunks of a feedback packet say of every packet how it came.
use asio_rtc.Common.{
  ℕ, true, ◌==◌, ==_iff, if◌then◌else◌, zero, suc, ◌+◌, ◌*◌, ◌/◌, ◌%◌, ◌^◌, ◌≤◌, ◌<◌, ◌≡◌, refl,
  sym, ap, ◌∙◌, bit_or, ◌<<<◌, List, [], ◌∷◌, ◌++◌, append_assoc, length, drop, length-drop, take,
  map, arith,
}
use asio_rtc.Common.Bits.{bit_or-eq-add}
use native.Mathlib.Nat.{pow-suc, one-le-pow, mul-add-div_right, div-eq_of_lt}
use asio_rtc.Binary.Laws.{peek16-write16, drop-write16}
use mathlib.Core.Path.{subst, subst₂, ap₂}
use asio_rtc.Binary.{Binary, IsBigEndian, peek16}
use asio_rtc.Tcc.{
  TccPacketStatus, not_received, small_delta, large_delta, received_without_delta, TccPacketInfo,
  symbol, chunk_loop, chunks_loop,
}

symbol_small : (s : TccPacketStatus) → symbol s < 4
unfolding symbol
symbol_small not_received = omega arith
symbol_small small_delta = omega arith
symbol_small large_delta = omega arith
symbol_small received_without_delta = omega arith

four_pow : (k : ℕ) → 2 ^ (2 * k) ≡ 4 ^ k
four_pow zero = refl
four_pow (suc k) =
    ground (arith, pow-suc 2 (2 * k), pow-suc 2 (suc (2 * k)), pow-suc 4 k, four_pow k)

-- The number that `k` symbols make, the first one foremost.
abbrev value_of : ℕ → List TccPacketInfo → ℕ
value_of zero packets = 0
value_of (suc k) [] = 0
value_of (suc k) (p ∷ packets) = symbol p.status * 4 ^ k + value_of k packets

times_four : (s w v : ℕ) → s < 4 → v < w → s * w + v < w * 4
times_four zero w v h k = omega arith
times_four (suc zero) w v h k = omega arith
times_four (suc (suc zero)) w v h k = omega arith
times_four (suc (suc (suc zero))) w v h k = omega arith
times_four (suc (suc (suc (suc s)))) w v h k = absurd (omega arith)

value_small : (k : ℕ) (packets : List TccPacketInfo) → value_of k packets < 4 ^ k
value_small zero packets = omega arith
value_small (suc k) [] = omega (arith, one-le-pow (suc k) 4)
value_small (suc k) (p ∷ packets) =
    subst (λ n. symbol p.status * 4 ^ k + value_of k packets < n) (sym (pow-suc 4 k))
      (times_four (symbol p.status) (4 ^ k) (value_of k packets) (symbol_small p.status)
        (value_small k packets))

sum_of_parts : (q s w : ℕ) → q * (w * 4) + s * w ≡ (q * 4 + s) * w
sum_of_parts q s w = grind arith

symbol_below : (k s : ℕ) → s < 4 → s * 2 ^ (2 * k) < 2 ^ (2 * suc k)
symbol_below k s h =
    subst₂ (λ a b. s * a < b) (sym (four_pow k)) (sym (pow-suc 4 k) ∙ sym (four_pow (suc k)))
      (subst (λ n. n < 4 ^ k * 4) (omega arith)
        (times_four s (4 ^ k) 0 h (omega (arith, one-le-pow k 4))))

or_symbol : (k q s : ℕ) → s < 4 → bit_or (q * 4 ^ suc k) (s <<< (2 * k)) ≡ (q * 4 + s) * 4 ^ k
or_symbol k q s h =
    ap (λ w. bit_or (q * w) (s * 2 ^ (2 * k))) (sym (four_pow (suc k)))
    ∙ (bit_or-eq-add (2 * suc k) q (s * 2 ^ (2 * k)) (symbol_below k s h)
        ∙ (ap₂ (λ a b. q * a + s * b) (four_pow (suc k) ∙ pow-suc 4 k) (four_pow k)
            ∙ sum_of_parts q s (4 ^ k)))

sum_again : (q s w v : ℕ) → (q * 4 + s) * w + v ≡ q * (w * 4) + (s * w + v)
sum_again q s w v = grind arith

chunk_loop-value :
    (k q : ℕ) (packets : List TccPacketInfo)
    → chunk_loop k (q * 4 ^ k) packets ≡ (q * 4 ^ k + value_of k packets, drop k packets)
unfolding chunk_loop
chunk_loop-value zero q packets = ap (λ c. (c, packets)) (omega arith)
chunk_loop-value (suc k) q [] = ap (λ c. (c, [])) (omega arith)
chunk_loop-value (suc k) q (p ∷ packets) =
    ap (λ c. chunk_loop k c packets) (or_symbol k q (symbol p.status) (symbol_small p.status))
    ∙ (chunk_loop-value k (q * 4 + symbol p.status) packets
        ∙ ap (λ c. (c, drop k packets))
            (sum_again q (symbol p.status) (4 ^ k) (value_of k packets)
              ∙ ap (λ n. q * n + (symbol p.status * 4 ^ k + value_of k packets))
                  (sym (pow-suc 4 k))))

-- The symbols of a chunk, the foremost first.
unfoldable pub symbols_in : ℕ → ℕ → List ℕ
symbols_in zero chunk = []
symbols_in (suc k) chunk = chunk / 4 ^ k % 4 ∷ symbols_in k chunk

-- The symbols of the first `k` packets, with zeros where there is none.
unfoldable symbols_of : ℕ → List TccPacketInfo → List ℕ
symbols_of zero packets = []
symbols_of (suc k) [] = 0 ∷ symbols_of k []
symbols_of (suc k) (p ∷ packets) = symbol p.status ∷ symbols_of k packets

value_of-nil : (k : ℕ) → value_of k [] ≡ 0
value_of-nil zero = refl
value_of-nil (suc k) = refl

sum_empty : (c w : ℕ) → c * (w * 4) + 0 ≡ (c * 4 + 0) * w + 0
sum_empty c w = grind arith

top_symbol : (k c s v : ℕ) → s < 4 → v < 4 ^ k → ((c * 4 + s) * 4 ^ k + v) / 4 ^ k % 4 ≡ s
top_symbol k c s v h e =
    ap (λ n. n % 4)
      (mul-add-div_right {m = 4 ^ k} (one-le-pow k 4 (omega arith)) (c * 4 + s) v
        ∙ ap (λ n. c * 4 + s + n) (div-eq_of_lt e))
    ∙ omega arith

symbols_in-value :
    (k c : ℕ) (packets : List TccPacketInfo)
    → symbols_in k (c * 4 ^ k + value_of k packets) ≡ symbols_of k packets
unfolding symbols_in symbols_of
symbols_in-value zero c packets = refl
symbols_in-value (suc k) c [] =
    let same : c * 4 ^ suc k + 0 ≡ (c * 4 + 0) * 4 ^ k + value_of k [] =
      ap (λ n. c * n + 0) (pow-suc 4 k)
      ∙ (sum_empty c (4 ^ k) ∙ ap (λ n. (c * 4 + 0) * 4 ^ k + n) (sym (value_of-nil k))) in
    ap (symbols_in (suc k)) same
    ∙ ap₂ (λ a b. a ∷ b) (top_symbol k c 0 (value_of k []) (omega arith) (value_small k []))
        (symbols_in-value k (c * 4 + 0) [])
symbols_in-value (suc k) c (p ∷ packets) =
    let same : c * 4 ^ suc k + (symbol p.status * 4 ^ k + value_of k packets)
        ≡ (c * 4 + symbol p.status) * 4 ^ k + value_of k packets =
      ap (λ n. c * n + (symbol p.status * 4 ^ k + value_of k packets)) (pow-suc 4 k)
      ∙ sym (sum_again c (symbol p.status) (4 ^ k) (value_of k packets)) in
    ap (symbols_in (suc k)) same
    ∙ ap₂ (λ a b. a ∷ b)
        (top_symbol k c (symbol p.status) (value_of k packets) (symbol_small p.status)
          (value_small k packets))
        (symbols_in-value k (c * 4 + symbol p.status) packets)

abbrev pub statuses : List TccPacketInfo → List ℕ
statuses packets = map (λ (p : TccPacketInfo). symbol p.status) packets

take_symbols :
    (k : ℕ) (packets : List TccPacketInfo) (others : List ℕ)
    → take (length (drop k packets)) others ≡ statuses (drop k packets)
    → take (length packets) (symbols_of k packets ++ others) ≡ statuses packets
unfolding symbols_of
take_symbols zero packets others h = h
take_symbols (suc k) [] others h = refl
take_symbols (suc k) (p ∷ packets) others h =
    ap (λ t. symbol p.status ∷ t) (take_symbols k packets others h)

-- The symbols of the chunks at the start of a buffer. The two bits in front say that a chunk holds
-- seven symbols of two bits.
unfoldable pub read_symbols : Binary → ℕ → List ℕ → List ℕ
read_symbols bin zero buf = []
read_symbols bin (suc n) buf =
    if peek16 bin buf / 2 ^ 14 == 3
    then symbols_in 7 (peek16 bin buf) ++ read_symbols bin n (drop 2 buf)
    else []

-- A chunk has room for seven packets.
abbrev pub chunk_count : List TccPacketInfo → ℕ
chunk_count packets = (length packets + 6) / 7

chunk_count-cons :
    (p : TccPacketInfo) (packets : List TccPacketInfo)
    → chunk_count (p ∷ packets) ≡ suc (chunk_count (drop 7 (p ∷ packets)))
chunk_count-cons p packets = omega (arith, length-drop 7 (p ∷ packets))

module _ {bin : Binary} (be : IsBigEndian bin) where
  read_first :
      (n c : ℕ) (behind : List ℕ)
      → c < 2 ^ 16
      → (c / 2 ^ 14 == 3) ≡ true
      → read_symbols bin (suc n) (bin.write16 c ++ behind)
        ≡ symbols_in 7 c ++ read_symbols bin n behind
  unfolding read_symbols
  read_first n c behind h top =
      ap₂
        (λ (a : ℕ) (b : List ℕ).
          if a / 2 ^ 14 == 3 then symbols_in 7 a ++ read_symbols bin n b else [])
        (peek16-write16 be c behind h) (drop-write16 be c behind)
      ∙ rw top refl

  drop_first :
      (n c : ℕ) (behind : List ℕ) → drop (2 * suc n) (bin.write16 c ++ behind) ≡ drop (2 * n) behind
  drop_first n c behind =
      ap (λ m. drop m (bin.write16 c ++ behind)) (two_more n)
      ∙ ap (λ bytes. drop (suc (suc (2 * n))) (bytes ++ behind)) (be.write16_lem c)
    where
      two_more : (n : ℕ) → 2 * suc n ≡ suc (suc (2 * n))
      two_more n = omega arith

  one_round :
      (fuel : ℕ) (p : TccPacketInfo) (packets : List TccPacketInfo) (behind : List ℕ)
      → chunks_loop bin (suc fuel) (p ∷ packets) ++ behind
        ≡ bin.write16 (3 * 4 ^ 7 + value_of 7 (p ∷ packets))
          ++ (chunks_loop bin fuel (drop 7 (p ∷ packets)) ++ behind)
  unfolding chunks_loop
  one_round fuel p packets behind =
      ap (λ (c : ℕ × List TccPacketInfo). (bin.write16 c.0 ++ chunks_loop bin fuel c.1) ++ behind)
        (chunk_loop-value 7 3 (p ∷ packets))
      ∙ append_assoc (bin.write16 (3 * 4 ^ 7 + value_of 7 (p ∷ packets))) _ behind

  chunk_fits : (packets : List TccPacketInfo) → 3 * 4 ^ 7 + value_of 7 packets < 2 ^ 16
  chunk_fits packets = omega (arith, value_small 7 packets)

  chunk_top :
      (packets : List TccPacketInfo) → ((3 * 4 ^ 7 + value_of 7 packets) / 2 ^ 14 == 3) ≡ true
  chunk_top packets = (==_iff _ 3).1 (omega (arith, value_small 7 packets))

  -- The chunks give the symbols of all packets, and what stands behind them is left.
  pub read_chunks :
      (fuel : ℕ) (packets : List TccPacketInfo) (behind : List ℕ)
      → length packets ≤ fuel
      → (take
            (length packets)
            (read_symbols bin (chunk_count packets) (chunks_loop bin fuel packets ++ behind))
          ≡ statuses packets)
        × (drop (2 * chunk_count packets) (chunks_loop bin fuel packets ++ behind) ≡ behind)
  unfolding chunks_loop read_symbols
  read_chunks zero [] behind h = (refl, refl)
  read_chunks zero (p ∷ packets) behind h = absurd (omega arith)
  read_chunks (suc fuel) [] behind h = (refl, refl)
  read_chunks (suc fuel) (p ∷ packets) behind h =
      let rest : List TccPacketInfo = drop 7 (p ∷ packets) in
      let chunk : ℕ = 3 * 4 ^ 7 + value_of 7 (p ∷ packets) in
      let later : (take (length rest)
              (read_symbols bin (chunk_count rest) (chunks_loop bin fuel rest ++ behind))
            ≡ statuses rest)
          × (drop (2 * chunk_count rest) (chunks_loop bin fuel rest ++ behind) ≡ behind) =
        read_chunks fuel rest behind (omega (arith, length-drop 7 (p ∷ packets))) in
      (
        ap₂ (λ n buf. take (length (p ∷ packets)) (read_symbols bin n buf))
              (chunk_count-cons p packets) (one_round fuel p packets behind)
            ∙ (ap (take (length (p ∷ packets))) (
                  read_first (chunk_count rest) chunk (chunks_loop bin fuel rest ++ behind)
                    (chunk_fits (p ∷ packets)) (chunk_top (p ∷ packets)))
                ∙ (ap
                      (λ t. take (length (p ∷ packets)) (
                        t
                        ++ read_symbols bin (chunk_count rest)
                            (chunks_loop bin fuel rest ++ behind)))
                      (symbols_in-value 7 3 (p ∷ packets))
                    ∙ take_symbols 7 (p ∷ packets) _ later.0)),
        ap₂ (λ n buf. drop (2 * n) buf) (chunk_count-cons p packets)
              (one_round fuel p packets behind)
            ∙ (drop_first (chunk_count rest) chunk (chunks_loop bin fuel rest ++ behind) ∙ later.1),
      )
