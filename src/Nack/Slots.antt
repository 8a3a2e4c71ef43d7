-- ===== src/Nack/Slots.antt =====
-- The ring of slots: numbers less than a window apart have slots of their own, if the size of the
-- history divides 2 ^ 16, so that the ring goes on across the wrap of the numbers.
use asio_rtc.Common.{
  ℕ, ◌+◌, ◌-◌, ◌%◌, ◌^◌, ◌≤◌, ◌<◌, u16, ◌≡◌, ◌≢◌, ◌∙◌, sym, List, length, get_or-set_self,
  get_or-set_ne, arith,
}
use native.Mathlib.Nat.{
  mod-add-mod, mod-eq_of_lt, mod-eq-sub-mod, mod-lt, mod-mod_of_dvd, dvd_of_mod-eq-zero,
}
use native.Mathlib.Decide.{dec_lt}
use asio_rtc.Nack.{NackInfo, fresh, sub16, slot, put, get_index}

-- Fewer than `h` steps do not lead round a ring of `h`.
step-mod-ne : (a k h : ℕ) → 0 < k → k < h → (a + k) % h ≢ a % h
step-mod-ne a k h hk kh = rw (← mod-add-mod) (elim (dec_lt (a % h + k) h) [
  | yes p ↦ omega (arith, mod-eq_of_lt p)
  | no p ↦ omega (
    arith,
    mod-lt a {m = h} (omega arith),
    mod-eq-sub-mod {n = a % h + k} {m = h} (omega arith),
    mod-eq_of_lt {n = a % h + k - h} {m = h} (omega (arith, mod-lt a {m = h} (omega arith))),
  )
])

module _ (h : ℕ) (divides : 2 ^ 16 % h ≡ 0) where
  index_lem : (a : ℕ) → get_index h (a % 2 ^ 16) ≡ a % h
  index_lem a = mod-mod_of_dvd h a (dvd_of_mod-eq-zero h divides)

  -- Two numbers counted down from `highest`, less than `h` apart.
  pub down-ne :
      (highest i j : ℕ)
      → i < j
      → j < i + h
      → j ≤ 2 ^ 16
      → get_index h (sub16 highest i) ≢ get_index h (sub16 highest j)
  down-ne highest i j lt near small e =
      step-mod-ne (highest + 2 ^ 16 - j) (j - i) h (omega arith) (omega arith) (
        let same : highest + 2 ^ 16 - j + (j - i) ≡ highest + 2 ^ 16 - i = omega arith in
        rw same (sym (index_lem (highest + 2 ^ 16 - i)) ∙ e ∙ index_lem (highest + 2 ^ 16 - j)))

  -- Two numbers counted up from `highest`.
  pub up-ne :
      (highest i j : ℕ)
      → i < j
      → j < i + h
      → get_index h (u16 (highest + i)) ≢ get_index h (u16 (highest + j))
  up-ne highest i j lt near e = step-mod-ne (highest + i) (j - i) h (omega arith) (omega arith) (
      let same : highest + i + (j - i) ≡ highest + j = omega arith in
      rw same (sym (index_lem (highest + j)) ∙ sym e ∙ index_lem (highest + i)))

module _ (h : ℕ) where
  pub slot-put_self :
      (buffer : List NackInfo) (seq : ℕ) (info : NackInfo)
      → 0 < h
      → length buffer ≡ h
      → slot h (put h buffer seq info) seq ≡ info
  slot-put_self buffer seq info p e =
      get_or-set_self buffer (get_index h seq) info fresh (omega (arith, mod-lt seq {m = h} p))

  pub slot-put_ne :
      (buffer : List NackInfo) (seq other : ℕ) (info : NackInfo)
      → get_index h seq ≢ get_index h other
      → slot h (put h buffer seq info) other ≡ slot h buffer other
  slot-put_ne buffer seq other info ne =
      get_or-set_ne buffer (get_index h seq) (get_index h other) info fresh ne
