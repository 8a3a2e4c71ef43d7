-- ===== src/H264/Fragments.antt =====
-- The rounds of the loop that cuts a unit into fragments.
use asio_rtc.Common.{
  ℕ, zero, suc, ◌≤◌, ◌<◌, ◌≡◌, refl, min, Bool, true, false, leb, ◌==◌, List, [], ◌∷◌, length, take,
  drop, take-all, drop-all, arith,
}
use asio_rtc.H264.{fu_header, fragments}

pub fragments_none : (fuel : ℕ) (first : Bool) (ind t : ℕ) → fragments fuel first ind t [] ≡ []
unfolding fragments
fragments_none zero first ind t = refl
fragments_none (suc fuel) first ind t = refl

pub fragments_last :
    (fuel : ℕ) (first : Bool) (ind t : ℕ) (rest : List ℕ)
    → 0 < length rest
    → length rest ≤ 1198
    → fragments (suc fuel) first ind t rest ≡ (ind ∷ fu_header first true t ∷ rest) ∷ []
unfolding fragments
fragments_last fuel first ind t rest h h' = ground (
  arith,
  fragments_none fuel false ind t,
  take-all (min (length rest) 1198) rest,
  drop-all (min (length rest) 1198) rest,
)

pub fragments_more :
    (fuel : ℕ) (first : Bool) (ind t : ℕ) (rest : List ℕ)
    → 1198 < length rest
    → fragments (suc fuel) first ind t rest
      ≡ (ind ∷ fu_header first false t ∷ take 1198 rest)
        ∷ fragments fuel false ind t (drop 1198 rest)
unfolding fragments
fragments_more fuel first ind t rest h =
    let size : min (length rest) 1198 ≡ 1198 = omega arith in
    let long : (length rest == 0) ≡ false = ground arith in
    let open_end : leb (length rest) 1198 ≡ false = ground arith in simp (size, long, open_end)
