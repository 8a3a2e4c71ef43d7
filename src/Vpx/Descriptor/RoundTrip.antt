-- ===== src/Vpx/Descriptor/RoundTrip.antt =====
-- A descriptor that was written is read back.
use asio_rtc.Common.{
  ℕ, true, false, not, ◌+◌, ◌*◌, ◌/◌, ◌%◌, ◌^◌, ◌<◌, ◌≡◌, refl, ap, u8, ◌<<<◌, ◌>>>◌, bit_and,
  bit_or, Bool, inl, inr, Bool-cases, ◌==◌, ◌||◌, if◌then◌else◌, Option, none, some, List, ◌∷◌,
  ◌++◌, length, length-append, append_assoc, arith,
}
use asio_rtc.Common.Bits.{bit_or-eq-add, bit_and-mask}
use asio_rtc.Vpx.{
  VpxPayloadDescriptor, is_some, bytes, first_octet, extension_octet, picture_id_bytes,
  tl0picidx_bytes, tk_bytes,
}
use asio_rtc.Vpx.Descriptor.{read_extension, parse}
use asio_rtc.Vpx.Descriptor.Fields.{
  flags-Flagged, FitsIn, TidFits, read_picture_id-bytes, read_tl0picidx-bytes, read_tk-bytes,
}

-- The first byte, with and without the extension bit.
octet_sum :
    (s : Bool) (i : ℕ)
    → i < 16
    → u8 (bit_or ((if s then 1 else 0) <<< 4) (bit_and i 0xf)) ≡ (if s then 16 else 0) + i
octet_sum true i h =
    rw (bit_and-mask 4 i, bit_or-eq-add 4 1 (i % 2 ^ 4) (omega arith)) (omega arith)
octet_sum false i h =
    rw (bit_and-mask 4 i, bit_or-eq-add 4 0 (i % 2 ^ 4) (omega arith)) (omega arith)

-- What the parser reads of a first byte `o`, `x` being 1 with an extension.
octet_read :
    (x : ℕ) (s : Bool) (i : ℕ)
    → x < 2
    → i < 16
    → (bit_and ((x * 128 + ((if s then 16 else 0) + i)) >>> 7) 1 ≡ x)
      × (not (bit_and ((x * 128 + ((if s then 16 else 0) + i)) >>> 4) 1 == 0) ≡ s)
      × (bit_and (x * 128 + ((if s then 16 else 0) + i)) 0xf ≡ i)
octet_read x true i hx hi =
    rw
      (
        bit_and-mask 1 ((x * 128 + (16 + i)) / 2 ^ 7),
        bit_and-mask 1 ((x * 128 + (16 + i)) / 2 ^ 4),
        bit_and-mask 4 (x * 128 + (16 + i)),
      )
      (ground arith)
octet_read x false i hx hi =
    rw
      (
        bit_and-mask 1 ((x * 128 + (0 + i)) / 2 ^ 7),
        bit_and-mask 1 ((x * 128 + (0 + i)) / 2 ^ 4),
        bit_and-mask 4 (x * 128 + (0 + i)),
      )
      (ground arith)

octet_alone :
    (o : ℕ) (s : Bool) (i : ℕ)
    → o ≡ (if s then 16 else 0) + i
    → i < 16
    → (bit_and (o >>> 7) 1 ≡ 0) × (not (bit_and (o >>> 4) 1 == 0) ≡ s) × (bit_and o 0xf ≡ i)
octet_alone o s i e hi =
    let shape : o ≡ 0 * 128 + ((if s then 16 else 0) + i) = omega (arith, e) in
    rw shape (octet_read 0 s i (omega arith) hi)

pub record IsValid (d : VpxPayloadDescriptor) : Type 0 where
  pub id_fits : d.partition_id < 16
  pub picture_fits : FitsIn (2 ^ 15) d.picture_id
  pub tid_fits : TidFits d.tid
  pub keyidx_fits : FitsIn 32 d.keyidx

-- The descriptor with its optional fields empty.
abbrev start : Bool → ℕ → VpxPayloadDescriptor
start s i = record {
  partition_start = s;
  partition_id = i;
  picture_id = none;
  tl0picidx = none;
  tid = none;
  keyidx = none;
}

read_extension-bytes :
    (d : VpxPayloadDescriptor) (rest : List ℕ)
    → IsValid d
    → read_extension (start d.partition_start d.partition_id) 1 (
        extension_octet d
        ∷ (picture_id_bytes d.picture_id
            ++ (tl0picidx_bytes d.tl0picidx ++ (tk_bytes d.tid d.keyidx ++ rest))))
      ≡ (
        d,
        some (
          2
              + length (picture_id_bytes d.picture_id)
              + length (tl0picidx_bytes d.tl0picidx)
              + length (tk_bytes d.tid d.keyidx),
          rest,
        ),
      )
unfolding read_extension extension_octet
read_extension-bytes d rest v =
    let f =
      flags-Flagged (is_some d.picture_id) (is_some d.tl0picidx) (is_some d.tid)
        (is_some d.keyidx) in
    simp
      (
        read_picture_id-bytes _ d.picture_id (start d.partition_start d.partition_id) 2
            (tl0picidx_bytes d.tl0picidx ++ (tk_bytes d.tid d.keyidx ++ rest)) f.0 refl
            v.picture_fits,
        read_tl0picidx-bytes _ d.tl0picidx
            (record (start d.partition_start d.partition_id) { picture_id = d.picture_id }) _
            (tk_bytes d.tid d.keyidx ++ rest) f.1 refl,
        read_tk-bytes _ d.tid d.keyidx
            (record (start d.partition_start d.partition_id) {
              picture_id = d.picture_id;
              tl0picidx = d.tl0picidx;
            })
            _ rest f.2 f.3 f.4 refl refl v.tid_fits v.keyidx_fits,
      )
      refl

absent : {A : Type 0} (o : Option A) → is_some o ≡ false → o ≡ none
absent none e = refl
absent (some a) e = grind arith

start_alone :
    (d : VpxPayloadDescriptor)
    → (is_some d.picture_id || (is_some d.tl0picidx || (is_some d.tid || is_some d.keyidx))) ≡ false
    → start d.partition_start d.partition_id ≡ d
start_alone d e = ground (
  arith,
  absent d.picture_id (ground (arith, e)),
  absent d.tl0picidx (ground (arith, e)),
  absent d.tid (ground (arith, e)),
  absent d.keyidx (ground (arith, e)),
)

-- A descriptor whose fields fit their bits (a picture number below 2^15, a layer below 4 with a flag
-- below 2, a key index below 32, a partition below 16), whichever of the optional ones it has, is
-- parsed back from its bytes, and just these are consumed, whatever stands behind them.
pub vpx_parse-bytes :
    (d : VpxPayloadDescriptor) (rest : List ℕ)
    → IsValid d
    → parse (bytes d ++ rest) ≡ (d, length (bytes d))
unfolding parse bytes first_octet
vpx_parse-bytes d rest v =
    elim (Bool-cases
      (is_some d.picture_id || (is_some d.tl0picidx || (is_some d.tid || is_some d.keyidx)))) [
        | inl e ↦
            let octet : ℕ = (if d.partition_start then 16 else 0) + d.partition_id in
            let bit : bit_or 0x80 octet ≡ 1 * 128 + octet =
              bit_or-eq-add 7 1 octet (ground (arith, v.id_fits)) in
            let back = octet_read 1 d.partition_start d.partition_id (omega arith) v.id_fits in
            simp
              (
                e,
                octet_sum d.partition_start d.partition_id v.id_fits,
                bit,
                back.0,
                back.1,
                back.2,
                append_assoc,
                read_extension-bytes d rest v,
              )
              (ap (λ (n : ℕ). (d, n))
                (omega (
                  arith,
                  length-append (picture_id_bytes d.picture_id)
                      (tl0picidx_bytes d.tl0picidx ++ tk_bytes d.tid d.keyidx),
                  length-append (tl0picidx_bytes d.tl0picidx) (tk_bytes d.tid d.keyidx),
                )))
        | inr e ↦
            let octet : ℕ = (if d.partition_start then 16 else 0) + d.partition_id in
            let back = octet_alone octet d.partition_start d.partition_id refl v.id_fits in
            simp (e, octet_sum d.partition_start d.partition_id v.id_fits, back.0, back.1, back.2)
              (ap (λ (x : VpxPayloadDescriptor). (x, 1)) (start_alone d e))
      ]
