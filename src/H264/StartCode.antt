-- ===== src/H264/StartCode.antt =====
-- Where a start code is found in a stream of well-formed NAL units.
use asio_rtc.Common.{
  ℕ, zero, suc, ◌<◌, ◌≢◌, ◌≡◌, refl, ap, ◌∙◌, none, some, List, [], ◌∷◌, ◌++◌, length, take-append,
  drop-append, arith,
}
use asio_rtc.H264.{start_code, behind, find_start_code, pack_nal, pack_loop}

-- No start code begins in the unit, and its last byte is not zero.
unfoldable pub IsClean : List ℕ → Type 0
IsClean [] = Unit
IsClean (a ∷ []) = a ≢ 0
IsClean (a ∷ b ∷ []) = b ≢ 0
IsClean (a ∷ b ∷ c ∷ rest) = (a ≡ 0 → b ≡ 0 → 1 < c) × IsClean (b ∷ c ∷ rest)

-- The units behind start codes of three bytes.
unfoldable pub annex_b : List (List ℕ) → List ℕ
annex_b [] = []
annex_b (nal ∷ nals) = 0 ∷ 0 ∷ 1 ∷ nal ++ annex_b nals

inside_unit :
    (a b c : ℕ) (rest : List ℕ) → (a ≡ 0 → b ≡ 0 → 1 < c) → start_code (a ∷ b ∷ c ∷ rest) ≡ 0
unfolding start_code
inside_unit a b c rest h = ground arith

skip_byte :
    (a : ℕ) (rest : List ℕ)
    → start_code (a ∷ rest) ≡ 0
    → find_start_code (a ∷ rest) ≡ behind (find_start_code rest)
unfolding find_start_code
skip_byte a rest e = rw e

code_at_once : (rest : List ℕ) → find_start_code (0 ∷ 0 ∷ 1 ∷ rest) ≡ some (0, 3)
unfolding find_start_code start_code
code_at_once rest = refl

-- The code behind a well-formed unit is found at the unit's end.
pub find_start_code_next :
    (nal rest : List ℕ)
    → IsClean nal
    → find_start_code (nal ++ (0 ∷ 0 ∷ 1 ∷ rest)) ≡ some (length nal, 3)
unfolding IsClean
find_start_code_next [] rest h = code_at_once rest
find_start_code_next (a ∷ []) rest h = simp (
  skip_byte a (0 ∷ 0 ∷ 1 ∷ rest) (inside_unit a 0 0 (1 ∷ rest) (λ e. absurd (h e))),
  code_at_once rest,
)
find_start_code_next (a ∷ b ∷ []) rest h = simp (
  skip_byte a (b ∷ 0 ∷ 0 ∷ 1 ∷ rest) (inside_unit a b 0 (0 ∷ 1 ∷ rest) (λ e e'. absurd (h e'))),
  find_start_code_next (b ∷ []) rest h,
)
find_start_code_next (a ∷ b ∷ c ∷ r) rest h = simp (
  skip_byte a (b ∷ c ∷ r ++ (0 ∷ 0 ∷ 1 ∷ rest)) (inside_unit a b c (r ++ (0 ∷ 0 ∷ 1 ∷ rest)) h.0),
  find_start_code_next (b ∷ c ∷ r) rest h.1,
)

-- There is no code in a well-formed unit.
pub find_start_code_last : (nal : List ℕ) → IsClean nal → find_start_code nal ≡ none
unfolding IsClean find_start_code start_code
find_start_code_last [] h = refl
find_start_code_last (a ∷ []) h = refl
find_start_code_last (a ∷ b ∷ []) h = refl
find_start_code_last (a ∷ b ∷ c ∷ r) h =
    skip_byte a (b ∷ c ∷ r) (inside_unit a b c r h.0)
    ∙ ap behind (find_start_code_last (b ∷ c ∷ r) h.1)

pub pack_loop_done : (fuel : ℕ) → pack_loop fuel [] ≡ []
unfolding pack_loop find_start_code
pack_loop_done zero = refl
pack_loop_done (suc fuel) = refl

pub pack_loop_last :
    (fuel : ℕ) (nal : List ℕ) → IsClean nal → pack_loop (suc fuel) (0 ∷ 0 ∷ 1 ∷ nal) ≡ pack_nal nal
unfolding pack_loop find_start_code pack_nal start_code
pack_loop_last fuel nal h = simp (find_start_code_last nal h)

pub pack_loop_next :
    (fuel : ℕ) (nal rest : List ℕ)
    → IsClean nal
    → pack_loop (suc fuel) (0 ∷ 0 ∷ 1 ∷ nal ++ (0 ∷ 0 ∷ 1 ∷ rest))
      ≡ pack_nal nal ++ pack_loop fuel (0 ∷ 0 ∷ 1 ∷ rest)
unfolding pack_loop find_start_code pack_nal start_code
pack_loop_next fuel nal rest h = simp (
  find_start_code_next nal rest h,
  take-append (length nal) nal (0 ∷ 0 ∷ 1 ∷ rest) refl,
  drop-append (length nal) nal (0 ∷ 0 ∷ 1 ∷ rest) refl,
)
