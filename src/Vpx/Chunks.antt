-- ===== src/Vpx/Chunks.antt =====
-- The payloads of a frame: their size, and the frame behind their descriptors.
use asio_rtc.Common.{
  ℕ, zero, suc, ◌+◌, ◌-◌, ◌≤◌, ◌<◌, ◌≡◌, refl, sym, ap, ◌∙◌, min, Bool, true, false, none, some,
  ltb, ◌==◌, if◌then◌else◌, List, [], ◌∷◌, ◌++◌, length, length-append, length-take, length-drop,
  take, drop, drop-append, take-append-drop, All, arith,
}
use asio_rtc.Vpx.{
  VpxPayloadDescriptor, bytes, picture_id_bytes, tl0picidx_bytes, tk_bytes, chunks, vpx_pack,
}

-- The descriptor of a packetizer: a picture number and nothing else optional.
abbrev pub picture : Bool → ℕ → VpxPayloadDescriptor
picture first id = record {
  partition_start = first;
  partition_id = 0;
  picture_id = some id;
  tl0picidx = none;
  tid = none;
  keyidx = none;
}

abbrev pub descriptor_size : ℕ → ℕ
descriptor_size id = if ltb id 128 then 3 else 4

length-bytes : (first : Bool) (id : ℕ) → length (bytes (picture first id)) ≡ descriptor_size id
unfolding bytes picture_id_bytes tl0picidx_bytes tk_bytes
length-bytes first id = ground arith

-- The payloads without what stands before the frame's bytes.
unfoldable pub join : ℕ → List (List ℕ) → List ℕ
join n [] = []
join n (p ∷ ps) = drop n p ++ join n ps

abbrev pub Fits : List ℕ → Type 0
Fits p = length p ≤ 1200

chunks_none : (fuel : ℕ) (d : VpxPayloadDescriptor) → chunks fuel d [] ≡ []
unfolding chunks
chunks_none zero d = refl
chunks_none (suc fuel) d = refl

-- One round, with the number of bytes that it takes.
chunks_more :
    (fuel : ℕ) (first : Bool) (id : ℕ) (rest : List ℕ)
    → 0 < length rest
    → (n : ℕ) × (0 < n)
      × (n + descriptor_size id ≤ 1200)
      × (chunks (suc fuel) (picture first id) rest
          ≡ (bytes (picture first id) ++ take n rest)
            ∷ chunks fuel (picture false id) (drop n rest))
unfolding chunks
chunks_more fuel first id rest h =
    let some_left : (length rest == 0) ≡ false = ground arith in
    (
      min (length rest) (1200 - length (bytes (picture first id))),
      ground (arith, length-bytes first id),
      ground (arith, length-bytes first id),
      simp some_left,
    )

chunks-join :
    (fuel : ℕ) (first : Bool) (id : ℕ) (rest : List ℕ)
    → length rest ≤ fuel
    → (join (descriptor_size id) (chunks fuel (picture first id) rest) ≡ rest)
      × All Fits (chunks fuel (picture first id) rest)
unfolding join
chunks-join fuel first id [] h = rw (chunks_none fuel (picture first id)) (refl, tt)
chunks-join zero first id (b ∷ bs) h = absurd (omega arith)
chunks-join (suc fuel) first id (b ∷ bs) h =
    let (n, progress, room, e) = chunks_more fuel first id (b ∷ bs) (omega arith) in
    let later =
      chunks-join fuel false id (drop n (b ∷ bs)) (omega (arith, length-drop n (b ∷ bs))) in
    rw e (
      rw
          (drop-append (descriptor_size id) (bytes (picture first id)) (take n (b ∷ bs))
            (sym (length-bytes first id)))
          (ap (λ t. take n (b ∷ bs) ++ t) later.0 ∙ take-append-drop n (b ∷ bs)),
      (
        omega (
          arith,
          length-append (bytes (picture first id)) (take n (b ∷ bs)),
          length-bytes first id,
          length-take n (b ∷ bs),
        ),
        later.1,
      ),
    )

-- For any frame: no payload has more than 1200 bytes, and the payloads without their descriptors,
-- one behind the other, are the frame. A descriptor has three bytes if the picture number is below
-- 128, and four otherwise.
pub vpx_pack-join :
    (picture_id : ℕ) (frame : List ℕ) (timestamp : ℕ)
    → (join (descriptor_size picture_id) (vpx_pack picture_id frame timestamp).0.0 ≡ frame)
      × All Fits (vpx_pack picture_id frame timestamp).0.0
unfolding vpx_pack
vpx_pack-join picture_id frame timestamp =
    chunks-join (length frame) true picture_id frame (omega arith)
