-- ===== src/Stats/Extended.antt =====
-- The extended number and the counts of a stream whose packets arrive in order.
use asio_rtc.Common.{
  ℕ, ◌+◌, ◌-◌, ◌%◌, ◌^◌, ◌≤◌, ◌<◌, ◌≡◌, refl, ap, ◌∙◌, true, inl, inr, Bool-cases, ltb, ltb→lt,
  ltb→le, lt→ltb, le→ltb, ◌==◌, List, [], ◌∷◌, length, arith,
}
use mathlib.Core.Path.{subst}
use asio_rtc.Stats.{
  SsrcContext, ssrc_context, set_base, advance_max, expected, count_packet, update_jitter,
  set_times, track_packet, extended_max,
}

-- The highest packet so far has the true number `e`, of which 16 bits are sent; `n` packets came.
pub record IsAt (c : SsrcContext) (first e n : ℕ) : Type 0 where
  pub set : c.base_seq_set ≡ true
  pub base : c.base_seq ≡ first
  pub total : c.cycles + c.max_seq ≡ e
  pub whole_cycles : c.cycles % 0x10000 ≡ 0
  pub short : c.max_seq < 0x10000
  pub count : c.packets_received ≡ n
  pub below : first ≤ e
  pub span : c.packets_expected ≡ e - first + 1

-- The part of the state that the counts need.
advance_max_total :
    (c : SsrcContext) (e e' : ℕ)
    → c.cycles + c.max_seq ≡ e
    → c.cycles % 0x10000 ≡ 0
    → c.max_seq < 0x10000
    → e ≤ e'
    → e' < e + 0x8000
    → e' < 2 ^ 63
    → ((advance_max (e' % 0x10000) c).cycles + (advance_max (e' % 0x10000) c).max_seq ≡ e')
      × ((advance_max (e' % 0x10000) c).cycles % 0x10000 ≡ 0)
      × ((advance_max (e' % 0x10000) c).max_seq < 0x10000)
unfolding advance_max
advance_max_total c e e' t w s lo hi top = elim (Bool-cases (ltb (e' % 0x10000) c.max_seq)) [
  | inr above ↦
      let far : c.max_seq ≤ e' % 0x10000 = ltb→le _ _ above in
      rw above (omega arith, w, omega arith)
  | inl below ↦
      let near : e' % 0x10000 < c.max_seq = ltb→lt _ _ below in
      let wrapped : ltb 0x8000 (c.max_seq - e' % 0x10000) ≡ true = lt→ltb _ _ (omega arith) in
      rw (below, wrapped) (omega arith, omega arith, omega arith)
]

update_jitter-IsAt :
    (arr ts : ℕ) (c : SsrcContext) (first e n : ℕ)
    → IsAt c first e n
    → IsAt (update_jitter arr ts c) first e n
unfolding update_jitter
update_jitter-IsAt arr ts c first e n h = elim (Bool-cases (c.last_arrival_ts == 0)) [
  | inl unset ↦ rw unset h
  | inr known ↦ rw known (record {
    set = h.set;
    base = h.base;
    total = h.total;
    whole_cycles = h.whole_cycles;
    short = h.short;
    count = h.count;
    below = h.below;
    span = h.span;
  })
]

set_times-IsAt :
    (arr ts : ℕ) (c : SsrcContext) (first e n : ℕ)
    → IsAt c first e n
    → IsAt (set_times arr ts c) first e n
unfolding set_times
set_times-IsAt arr ts c first e n h = record {
  set = h.set;
  base = h.base;
  total = h.total;
  whole_cycles = h.whole_cycles;
  short = h.short;
  count = h.count;
  below = h.below;
  span = h.span;
}

-- `advance_max` changes neither the base nor the count.
advance_max_rest :
    (seq : ℕ) (c : SsrcContext)
    → ((advance_max seq c).base_seq_set ≡ c.base_seq_set)
      × ((advance_max seq c).base_seq ≡ c.base_seq)
      × ((advance_max seq c).packets_received ≡ c.packets_received)
unfolding advance_max
advance_max_rest seq c = elim (Bool-cases (ltb seq c.max_seq)) [
  | inr above ↦ rw above (refl, refl, refl)
  | inl below ↦ elim (Bool-cases (ltb 0x8000 (c.max_seq - seq))) [
    | inl wrapped ↦ rw (below, wrapped) (refl, refl, refl)
    | inr late ↦ rw (below, late) (refl, refl, refl)
  ]
]

expected_lem :
    (cycles max_seq base e : ℕ)
    → cycles + max_seq ≡ e
    → base ≤ e
    → e < 2 ^ 63
    → expected cycles max_seq base ≡ e - base + 1
unfolding expected
expected_lem cycles max_seq base e t b h = omega arith

-- The counts after one more packet, on the state that `advance_max` gives.
count_packet-IsAt :
    (c : SsrcContext) (first e n : ℕ)
    → c.base_seq_set ≡ true
    → c.base_seq ≡ first
    → c.cycles + c.max_seq ≡ e
    → c.cycles % 0x10000 ≡ 0
    → c.max_seq < 0x10000
    → c.packets_received ≡ n
    → first ≤ e
    → e < 2 ^ 63
    → n < 2 ^ 63
    → IsAt (count_packet c) first e (n + 1)
unfolding count_packet
count_packet-IsAt c first e n s b t w m r f h k = record {
  set = s;
  base = b;
  total = t;
  whole_cycles = w;
  short = m;
  count = omega arith;
  below = f;
  span = ap (expected c.cycles c.max_seq) b ∙ expected_lem c.cycles c.max_seq first e t f h;
}

set_base_kept : (seq : ℕ) (c : SsrcContext) → c.base_seq_set ≡ true → set_base seq c ≡ c
unfolding set_base
set_base_kept seq c h = rw h refl

-- The next packet in order, less than half of the number space ahead.
pub track_packet-IsAt :
    (c : SsrcContext) (first e n e' now_us rtp_ts : ℕ)
    → IsAt c first e n
    → e ≤ e'
    → e' < e + 0x8000
    → e' < 2 ^ 63
    → n < 2 ^ 63
    → IsAt (track_packet now_us (e' % 0x10000) rtp_ts c) first e' (n + 1)
unfolding track_packet
track_packet-IsAt c first e n e' now_us rtp_ts h lo hi top few =
    let total : ((advance_max (e' % 0x10000) c).cycles + (advance_max (e' % 0x10000) c).max_seq
          ≡ e')
        × ((advance_max (e' % 0x10000) c).cycles % 0x10000 ≡ 0)
        × ((advance_max (e' % 0x10000) c).max_seq < 0x10000) =
      advance_max_total c e e' h.total h.whole_cycles h.short lo hi top in
    let before : first ≤ e = h.below in
    rw (set_base_kept (e' % 0x10000) c h.set) (
      set_times-IsAt _ rtp_ts _ first e' (n + 1) (
        update_jitter-IsAt _ rtp_ts _ first e' (n + 1) (
          count_packet-IsAt (advance_max (e' % 0x10000) c) first e' n
            ((advance_max_rest (e' % 0x10000) c).0 ∙ h.set)
            ((advance_max_rest (e' % 0x10000) c).1 ∙ h.base) total.0 total.1 total.2
            ((advance_max_rest (e' % 0x10000) c).2 ∙ h.count) (omega arith) top few)))

advance_max_first :
    (c : SsrcContext) (first : ℕ)
    → c.max_seq ≡ 0
    → advance_max first c ≡ (record c { max_seq = first })
unfolding advance_max
advance_max_first c first e = rw (advance_max, le→ltb first c.max_seq (omega arith)) refl

-- The first packet.
pub track_first-IsAt :
    (ssrc first now_us rtp_ts : ℕ)
    → first < 0x10000
    → IsAt (track_packet now_us first rtp_ts (ssrc_context ssrc)) first first 1
unfolding track_packet set_base ssrc_context
track_first-IsAt ssrc first now_us rtp_ts h =
    rw (advance_max_first (set_base first (ssrc_context ssrc)) first refl) (
      set_times-IsAt _ rtp_ts _ first first 1 (
        update_jitter-IsAt _ rtp_ts _ first first 1 (
          count_packet-IsAt (record (set_base first (ssrc_context ssrc)) { max_seq = first }) first
            first 0 refl refl (omega arith) refl h refl (omega arith) (omega arith) (omega arith))))

-- A packet as it arrives: its true number, the time and its timestamp.
abbrev pub Arrival : Type 0
Arrival = ℕ × ℕ × ℕ

unfoldable pub track_all : List Arrival → SsrcContext → SsrcContext
track_all [] c = c
track_all ((e, now_us, rtp_ts) ∷ ps) c = track_all ps (track_packet now_us (e % 0x10000) rtp_ts c)

-- Each packet's true number is not below that of the one before, and less than half of the number
-- space ahead of it.
abbrev pub AreInOrder : ℕ → List Arrival → Type 0
AreInOrder e [] = e < 2 ^ 63
AreInOrder e (p ∷ ps) = (e ≤ p.0) × (p.0 < e + 0x8000) × (p.0 < 2 ^ 63) × AreInOrder p.0 ps

abbrev pub last_number : ℕ → List Arrival → ℕ
last_number e [] = e
last_number e (p ∷ ps) = last_number p.0 ps

track_all-IsAt :
    (ps : List Arrival) (c : SsrcContext) (first e n : ℕ)
    → IsAt c first e n
    → AreInOrder e ps
    → n + length ps < 2 ^ 63
    → IsAt (track_all ps c) first (last_number e ps) (n + length ps)
unfolding track_all
track_all-IsAt [] c first e n h o few = subst (IsAt c first e) (omega arith) h
track_all-IsAt (p ∷ ps) c first e n h o few =
    subst (IsAt _ first (last_number p.0 ps)) (omega arith) (
      track_all-IsAt ps (track_packet p.1 (p.0 % 0x10000) p.2 c) first p.0 (n + 1)
        (track_packet-IsAt c first e n p.0 p.1 p.2 h o.0 o.1 o.2 (omega arith)) o.3 (omega arith))

-- After a first packet and others that arrive in order, with gaps of less than half of the number
-- space and the 16-bit numbers wrapping round as often as they may, the numbers expected are those
-- from the first to the last true number, the packets received are as many as arrived, and the
-- extended highest number is the last true number in 32 bits.
pub track_all_counts :
    (ssrc first now_us rtp_ts : ℕ) (ps : List Arrival)
    → first < 0x10000
    → AreInOrder first ps
    → length ps < 2 ^ 62
    → ((track_all ps (track_packet now_us first rtp_ts (ssrc_context ssrc))).packets_expected
        ≡ last_number first ps - first + 1)
      × ((track_all ps (track_packet now_us first rtp_ts (ssrc_context ssrc))).packets_received
          ≡ 1 + length ps)
      × (extended_max (track_all ps (track_packet now_us first rtp_ts (ssrc_context ssrc)))
          ≡ last_number first ps % 2 ^ 32)
unfolding extended_max
track_all_counts ssrc first now_us rtp_ts ps h o few =
    let end : IsAt (track_all ps (track_packet now_us first rtp_ts (ssrc_context ssrc))) first
        (last_number first ps) (1 + length ps) =
      track_all-IsAt ps _ first first 1 (track_first-IsAt ssrc first now_us rtp_ts h) o
        (omega arith) in
    (end.span, end.count, ap (λ t. t % 2 ^ 32) end.total)
