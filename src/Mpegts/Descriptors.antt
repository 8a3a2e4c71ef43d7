-- ===== src/Mpegts/Descriptors.antt =====
-- The descriptors of a stream: what their length must be for the reads to stay in the buffer.
use asio_rtc.Common.{
  ℕ, zero, suc, ◌+◌, ◌-◌, ◌≤◌, ◌≡◌, refl, inl, inr, false, ◌&&◌, ltb, leb, ◌==◌, Bool-cases, Option,
  some, List, length, length-drop, drop, byte_at, le→ltb, ltb→le, leb→le, arith,
}
use asio_rtc.Sdp.Codec.{MediaFormat}
use asio_rtc.Mpegts.{MediaKind}
use asio_rtc.Mpegts.Psi.{descriptors}

-- A result, and so no read behind the buffer.
pub record IsDefined {ℓ} {A : Type ℓ} (o : Option A) : Type ℓ where
  pub value : A
  pub value_lem : o ≡ some value

-- A registration is read in its four bytes only if it has four.
registration_inside :
    (rest : List ℕ) (left : ℕ)
    → left ≤ length rest
    → 2 + byte_at rest 1 ≤ left
    → byte_at rest 0 == 0x05 && leb 4 (byte_at rest 1) && ltb (length rest) 6 ≡ false
registration_inside rest left h k = elim (Bool-cases (byte_at rest 0 == 0x05)) [
  | inr e ↦ rw e refl
  | inl e ↦ rw e (elim (Bool-cases (leb 4 (byte_at rest 1))) [
    | inr f ↦ rw f refl
    | inl f ↦
        let long : 4 ≤ byte_at rest 1 = leb→le _ _ f in
        rw (f, le→ltb (length rest) 6 (omega arith)) refl
  ])
]

-- Descriptors whose stated length ends inside the buffer are read inside the buffer, whatever they
-- hold.
pub descriptors_inside :
    (fuel left : ℕ) (rest : List ℕ) (known : MediaFormat × MediaKind)
    → left ≤ length rest
    → IsDefined (descriptors fuel left rest known)
unfolding descriptors
descriptors_inside zero left rest known h = record { value = known; value_lem = refl }
descriptors_inside (suc fuel) left rest known h = elim (Bool-cases (leb 2 left)) [
  | inr e ↦ rw (descriptors, e) (record { value = known; value_lem = refl })
  | inl e ↦
      let two : 2 ≤ left = leb→le 2 left e in
      rw (descriptors, e)
        (rw (le→ltb (length rest) 2 (omega arith))
          (elim (Bool-cases (ltb left (2 + byte_at rest 1))) [
            | inl f ↦ rw f (record { value = known; value_lem = refl })
            | inr f ↦
                let fits : 2 + byte_at rest 1 ≤ left = ltb→le _ _ f in
                rw f (
                  rw (registration_inside rest left h fits) (
                    descriptors_inside fuel (left - (2 + byte_at rest 1))
                      (drop (2 + byte_at rest 1) rest) _
                      (omega (arith, length-drop (2 + byte_at rest 1) rest))))
          ]))
]
