-- ===== src/Rtp/Padding.antt =====
-- The padding: what `write_to` appends is what `parse` takes off.
use asio_rtc.Common.{
  ℕ, zero, suc, ◌+◌, ◌-◌, ◌%◌, ◌^◌, ◌≤◌, ◌<◌, ◌≡◌, refl, ap, ◌∙◌, ◌==◌, if◌then◌else◌, some, List,
  [], ◌∷◌, ◌++◌, length, length-append, length-replicate, take, take-append, replicate, byte_at,
  arith, append_assoc, append-nil,
}
use asio_rtc.Rtp.{strip_padding, write_padding}

byte_at-append : (xs ys : List ℕ) (i : ℕ) → i ≡ length xs → byte_at (xs ++ ys) i ≡ byte_at ys 0
byte_at-append [] ys zero e = refl
byte_at-append [] ys (suc i) e = absurd (omega arith)
byte_at-append (x ∷ xs) ys zero e = absurd (omega arith)
byte_at-append (x ∷ xs) ys (suc i) e = byte_at-append xs ys i (omega arith)

pub strip_padding-absent : (body : List ℕ) → strip_padding 0 body ≡ some body
unfolding strip_padding
strip_padding-absent [] = refl
strip_padding-absent (b ∷ bs) = refl

strip_padding_of_last :
    (xs : List ℕ) (pad : ℕ)
    → byte_at xs (length xs - 1) ≡ pad
    → 1 ≤ pad
    → pad ≤ length xs
    → strip_padding 1 xs ≡ some (take (length xs - pad) xs)
unfolding strip_padding
strip_padding_of_last [] pad e h k = absurd (omega arith)
strip_padding_of_last (x ∷ xs) pad e h k = rw e (ground arith)

-- `pad` bytes, the last of which says how many, are taken off.
strip_padding-present :
    (body : List ℕ) (pad : ℕ)
    → 1 ≤ pad
    → strip_padding 1 (body ++ (replicate (pad - 1) 0 ++ (pad ∷ []))) ≡ some body
strip_padding-present body pad h = rw (← append_assoc) (
    strip_padding_of_last (front ++ (pad ∷ [])) pad
      (byte_at-append front (pad ∷ []) _ (omega (arith, sizes))) h (omega (arith, sizes))
    ∙ ap some (rw (sizes.0, append_assoc) (take-append _ body _ (omega arith))))
  where
    front : List ℕ
    front = body ++ replicate (pad - 1) 0

    sizes :
        (length (front ++ (pad ∷ [])) ≡ length body + pad) × (length front + 1 ≡ length body + pad)
    sizes = ground (
      arith,
      length-append front (pad ∷ []),
      length-append body (replicate (pad - 1) 0),
      length-replicate (pad - 1) (zero),
    )

pub write_padding-absent : (serialized written : ℕ) → write_padding 0 serialized written ≡ []
unfolding write_padding
write_padding-absent serialized written = refl

pub write_padding-present :
    (written pad : ℕ)
    → 1 ≤ pad
    → pad ≤ 4
    → write_padding 1 (written + pad) written ≡ replicate (pad - 1) 0 ++ (pad ∷ [])
unfolding write_padding
write_padding-present written pad h k =
    let count : (written + pad + 2 ^ 64 - written) % 2 ^ 64 ≡ pad = omega arith in
    let small : pad % 2 ^ 8 ≡ pad = omega arith in rw (count, small) (ground arith)

-- Whatever the flag, stripping takes off just the bytes that were appended.
pub strip_padding-write_padding :
    (padding written pad : ℕ) (body : List ℕ)
    → padding < 2
    → 1 ≤ pad
    → pad ≤ 4
    → strip_padding padding
        (body ++ write_padding padding (written + (if padding == 0 then 0 else pad)) written)
      ≡ some body
strip_padding-write_padding zero written pad body h p q =
    rw (write_padding-absent, append-nil) (strip_padding-absent body)
strip_padding-write_padding (suc zero) written pad body h p q =
    rw (write_padding-present written pad p q) (strip_padding-present body pad p)
strip_padding-write_padding (suc (suc n)) written pad body h p q = absurd (omega arith)

pub length-write_padding :
    (padding written pad : ℕ)
    → padding < 2
    → 1 ≤ pad
    → pad ≤ 4
    → length (write_padding padding (written + (if padding == 0 then 0 else pad)) written)
      ≡ (if padding == 0 then 0 else pad)
length-write_padding zero written pad h p q = rw write_padding-absent
length-write_padding (suc zero) written pad h p q = rw (write_padding-present written pad p q) (
    omega (
      arith,
      length-append (replicate (pad - 1) (zero)) (pad ∷ []),
      length-replicate (pad - 1) (zero),
    ))
length-write_padding (suc (suc n)) written pad h p q = absurd (omega arith)
