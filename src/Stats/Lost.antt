-- ===== src/Stats/Lost.antt =====
-- The fraction of lost packets in a report.
use asio_rtc.Common.{
  ℕ, zero, suc, ◌⊎◌, ◌+◌, ◌-◌, ◌*◌, ◌/◌, ◌%◌, ◌^◌, ◌≤◌, ◌<◌, ◌≡◌, refl, sym, ap, ◌∙◌, false, inl,
  inr, leb, ◌==◌, arith,
}
use native.Mathlib.Nat.{div-mul-le_self, lt-div-mul-add, div-lt_iff_lt-mul, mul-div_cancel}
use mathlib.Core.Path.{subst, ap₂}
use asio_rtc.Stats.{SsrcContext, fraction, fraction_lost}

-- `f` is `256 * lost / expected`, rounded down.
abbrev pub IsRatio : ℕ → ℕ → ℕ → Type 0
IsRatio f lost total = (f * total ≤ lost * 256) × (lost * 256 < f * total + total) × (f < 256)

IsRatio-div : (lost total : ℕ) → 0 < total → lost < total → IsRatio (lost * 256 / total) lost total
IsRatio-div lost total p h = (
  div-mul-le_self (lost * 256) total,
  lt-div-mul-add {a = lost * 256} p,
  (div-lt_iff_lt-mul {x = lost * 256} p).1 (omega arith),
)

fraction_less : (ei ri : ℕ) → ri < ei → fraction ei ri ≡ (ei - ri) * 256 / ei % 2 ^ 8
unfolding fraction
fraction_less ei ri h = rw (not_zero ei ri h, not_less ei ri h) refl
  where
    not_zero : (ei ri : ℕ) → ri < ei → (ei == 0) ≡ false
    not_zero ei ri h = ground arith

    not_less : (ei ri : ℕ) → ri < ei → leb ei ri ≡ false
    not_less ei ri h = ground arith

fraction_some : (ei ri : ℕ) → 0 < ri → ri < ei → IsRatio (fraction ei ri) (ei - ri) ei
fraction_some ei ri p h =
    let ratio : IsRatio ((ei - ri) * 256 / ei) (ei - ri) ei =
      IsRatio-div (ei - ri) ei (omega arith) (omega arith) in
    subst (λ f. IsRatio f (ei - ri) ei) (sym (fraction_less ei ri h ∙ small _ ratio.2)) ratio
  where
    small : (q : ℕ) → q < 256 → q % 2 ^ 8 ≡ q
    small q e = omega arith

fraction_none : (ei ri : ℕ) → ei ≤ ri → fraction ei ri ≡ 0
unfolding fraction
fraction_none ei ri h = ground arith

fraction_all : (ei : ℕ) → 0 < ei → fraction ei 0 ≡ 0
fraction_all ei p =
    fraction_less ei 0 p
    ∙ ap (λ q. q % 2 ^ 8) (ap (λ t. t / ei) (omega arith) ∙ mul-div_cancel 256 p)

fraction_no_packet : (e : ℕ) → fraction e 0 ≡ 0
fraction_no_packet zero = fraction_none 0 0 (omega arith)
fraction_no_packet (suc e) = fraction_all (suc e) (omega arith)

-- With `e` numbers expected and `r` packets received since the last report.
fraction_lost_lem :
    (c : SsrcContext) (e r : ℕ)
    → c.packets_expected ≡ c.expected_prior + e
    → c.packets_received ≡ c.received_prior + r
    → fraction_lost c ≡ fraction e r
unfolding fraction_lost
fraction_lost_lem c e r he hr =
    ap₂ fraction (ap (λ t. t - c.expected_prior) he ∙ omega arith)
      (ap (λ t. t - c.received_prior) hr ∙ omega arith)

-- If, since the last report, some packets arrived and some numbers are missing, the fraction is 256
-- times the missing numbers by the expected ones, rounded down, and below 256.
pub fraction_lost-IsRatio :
    (c : SsrcContext) (e r : ℕ)
    → c.packets_expected ≡ c.expected_prior + e
    → c.packets_received ≡ c.received_prior + r
    → 0 < r
    → r < e
    → IsRatio (fraction_lost c) (e - r) e
fraction_lost-IsRatio c e r he hr p h =
    subst (λ f. IsRatio f (e - r) e) (sym (fraction_lost_lem c e r he hr)) (fraction_some e r p h)

-- The fraction is 0 if, since the last report, at least as many packets arrived as numbers are
-- expected, and also if none arrived at all.
pub fraction_lost_zero :
    (c : SsrcContext) (e r : ℕ)
    → c.packets_expected ≡ c.expected_prior + e
    → c.packets_received ≡ c.received_prior + r
    → (e ≤ r) ⊎ (r ≡ 0)
    → fraction_lost c ≡ 0
fraction_lost_zero c e r he hr (inl h) = fraction_lost_lem c e r he hr ∙ fraction_none e r h
fraction_lost_zero c e r he hr (inr z) =
    fraction_lost_lem c e r he hr ∙ (ap (fraction e) z ∙ fraction_no_packet e)
