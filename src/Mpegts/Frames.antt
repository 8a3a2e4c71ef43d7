-- ===== src/Mpegts/Frames.antt =====
-- An elementary stream's unit, cut into packets, comes out as one frame.
use asio_rtc.Common.{
  ℕ, suc, ◌+◌, ◌*◌, ◌/◌, ◌%◌, ◌^◌, ◌≤◌, ◌<◌, ◌≡◌, refl, ap, inl, inr, u32, true, false, ◌&&◌, ◌||◌,
  ltb, leb, ◌==◌, Bool-cases, List, [], ◌∷◌, ◌++◌, append_assoc, append-nil, length, length-append,
  drop, byte_at, lt→ltb, le→ltb, drop-append, ◌∙◌, arith,
}
use asio_rtc.Mpegts.Stamp.{first_bits, first_mark, marked_bits, mark, joined_pts, digits_of}
use asio_rtc.Mpegts.{MediaKind, MediaFrame, StreamState, max_pes_buffer, push_frame}
use asio_rtc.Mpegts.Pes.{
  frame_of, take_pes, append_pes, continue_pes, start_code_offset, stream_kind, has_pts_field,
  valid_pts, read_pts, set_pts, start_bytes, start_pes, parse_pes,
}

-- The five bytes of a time stamp of 33 bits.
unfoldable pub pts_bytes : ℕ → List ℕ
pts_bytes pts =
    (0x21 + pts / 2 ^ 30 % 8 * 2)
    ∷ (pts / 2 ^ 22 % 256)
    ∷ (pts / 2 ^ 15 % 128 * 2 + 1)
    ∷ (pts / 2 ^ 7 % 256)
    ∷ (pts % 128 * 2 + 1)
    ∷ []

-- A header with a time stamp and `extra` further bytes, and the first bytes of the unit.
unfoldable pub pes_start : ℕ → ℕ → List ℕ → List ℕ → List ℕ
pes_start stream_id pts extra bytes =
    0
    ∷ 0
    ∷ 1
    ∷ stream_id
    ∷ 0
    ∷ 0
    ∷ 0x80
    ∷ 0x80
    ∷ (5 + length extra)
    ∷ (pts_bytes pts ++ (extra ++ bytes))

-- The packets that follow on the same stream.
unfoldable pub continue_all : List (List ℕ) → StreamState → StreamState
continue_all [] st = st
continue_all (payload ∷ payloads) st = continue_all payloads (parse_pes payload false st []).0

unfoldable pub join : List (List ℕ) → List ℕ
join [] = []
join (payload ∷ payloads) = payload ++ join payloads

append_pes-below :
    (bytes : List ℕ) (st : StreamState)
    → length st.pes_buffer + length bytes ≤ max_pes_buffer
    → append_pes bytes st ≡ record st { pes_buffer = st.pes_buffer ++ bytes }
unfolding append_pes
append_pes-below bytes st h = rw (append_pes, le→ltb max_pes_buffer _ h) refl

continue_all-join :
    (payloads : List (List ℕ)) (st : StreamState)
    → 0 < length st.pes_buffer
    → length st.pes_buffer + length (join payloads) ≤ max_pes_buffer
    → continue_all payloads st ≡ record st { pes_buffer = st.pes_buffer ++ join payloads }
unfolding continue_all join parse_pes continue_pes
continue_all-join [] st h l = rw append-nil refl
continue_all-join (payload ∷ payloads) st h l = elim (Bool-cases (length st.pes_buffer == 0)) [
  | inl e ↦ absurd (ground (arith, e))
  | inr e ↦
      let whole : length (payload ++ join payloads) ≡ length payload + length (join payloads) =
        length-append payload (join payloads) in
      let grown : length (st.pes_buffer ++ payload) ≡ length st.pes_buffer + length payload =
        length-append st.pes_buffer payload in
      rw (continue_pes, e)
        (rw (append_pes-below payload st (omega arith)) (
          rw (← append_assoc st.pes_buffer payload (join payloads)) (
            continue_all-join payloads (record st { pes_buffer = st.pes_buffer ++ payload })
              (omega arith) (omega arith))))
]

read_fields :
    (hdr : List ℕ) (t y s z w : ℕ)
    → byte_at hdr 9 ≡ 0x21 + t * 2
    → byte_at hdr 10 ≡ y
    → byte_at hdr 11 ≡ s * 2 + 1
    → byte_at hdr 12 ≡ z
    → byte_at hdr 13 ≡ w * 2 + 1
    → t < 8
    → y < 256
    → s < 128
    → z < 256
    → w < 128
    → read_pts hdr ≡ u32 (t * 2 ^ 30 + (y * 2 ^ 22 + (s * 2 ^ 15 + (z * 2 ^ 7 + w))))
unfolding read_pts
read_fields hdr t y s z w e9 e10 e11 e12 e13 ht hy hs hz hw =
    rw (e9, e10, e11, e12, e13, first_bits t ht, marked_bits s hs, marked_bits w hw)
      (ap u32 (joined_pts t y s z w hy hs hz hw))

-- A time stamp is read modulo the 32 bits that are kept of it.
read_pts-pes_start :
    (stream_id pts : ℕ) (extra bytes : List ℕ)
    → pts < 2 ^ 33
    → read_pts (pes_start stream_id pts extra bytes) ≡ u32 pts
unfolding pes_start pts_bytes
read_pts-pes_start stream_id pts extra bytes h =
    read_fields (pes_start stream_id pts extra bytes) (pts / 2 ^ 30 % 8) (pts / 2 ^ 22 % 256)
      (pts / 2 ^ 15 % 128) (pts / 2 ^ 7 % 256) (pts % 128) refl refl refl refl refl (omega arith)
      (omega arith) (omega arith) (omega arith) (omega arith)
    ∙ ap u32 (digits_of pts h)

has_pts-pes_start :
    (stream_id pts : ℕ) (extra bytes : List ℕ)
    → has_pts_field (pes_start stream_id pts extra bytes)
        && valid_pts (pes_start stream_id pts extra bytes)
      ≡ true
unfolding has_pts_field valid_pts pes_start pts_bytes
has_pts-pes_start stream_id pts extra bytes =
    rw (first_mark (pts / 2 ^ 30 % 8) (omega arith), mark (pts / 2 ^ 15 % 128), mark (pts % 128))
      (ground arith)

start_code_offset_lem :
    (stream_id pts : ℕ) (extra bytes : List ℕ)
    → start_code_offset (pes_start stream_id pts extra bytes) ≡ 0
unfolding start_code_offset pes_start
start_code_offset_lem stream_id pts extra bytes = ground arith

length-pes_start :
    (stream_id pts : ℕ) (extra bytes : List ℕ)
    → length (pes_start stream_id pts extra bytes) ≡ 14 + (length extra + length bytes)
unfolding pes_start pts_bytes
length-pes_start stream_id pts extra bytes = omega (arith, length-append extra bytes)

drop-pes_start :
    (stream_id pts : ℕ) (extra bytes : List ℕ)
    → drop
        (9 + byte_at (pes_start stream_id pts extra bytes) 8)
        (pes_start stream_id pts extra bytes)
      ≡ bytes
unfolding pes_start pts_bytes
drop-pes_start stream_id pts extra bytes =
    let e : 9 + (5 + length extra)
        ≡ suc (
            suc (
              suc
                (suc (suc (suc (suc (suc (suc (suc (suc (suc (suc (suc (length extra)))))))))))))) =
      omega arith in
    rw e (drop-append (length extra) extra bytes refl)

start_bytes-pes_start :
    (stream_id pts : ℕ) (extra bytes : List ℕ) (st : StreamState)
    → st.pes_buffer ≡ []
    → 0 < length bytes
    → length bytes ≤ max_pes_buffer
    → start_bytes (pes_start stream_id pts extra bytes) st ≡ record st { pes_buffer = bytes }
unfolding start_bytes
start_bytes-pes_start stream_id pts extra bytes st empty some_byte few =
    let hdr = pes_start stream_id pts extra bytes in
    let starts : byte_at hdr 8 ≡ 5 + length extra = unfold pes_start in refl in
    let inside : 9 + byte_at hdr 8 < length hdr =
      omega (arith, starts, length-pes_start stream_id pts extra bytes) in
    rw (lt→ltb (9 + byte_at hdr 8) (length hdr) inside, drop-pes_start stream_id pts extra bytes)
      (append_pes-below bytes st (rw empty (omega arith)) ∙ rw empty refl)

-- The state behind the header of a unit, where no unit was being collected.
start_pes-pes_start :
    (stream_id pts : ℕ) (extra bytes : List ℕ) (st : StreamState) (queue : List MediaFrame)
    → pts < 2 ^ 33
    → st.pes_buffer ≡ []
    → 0 < length bytes
    → length bytes ≤ max_pes_buffer
    → parse_pes (pes_start stream_id pts extra bytes) true st queue ≡ (
      record st {
        kind = stream_kind stream_id st.kind;
        pes_buffer = bytes;
        current_pts = u32 pts;
        has_pts = true;
      },
      queue,
    )
unfolding parse_pes start_pes take_pes set_pts start_bytes
start_pes-pes_start stream_id pts extra bytes st queue h empty some_byte few =
    let hdr = pes_start stream_id pts extra bytes in
    let stream_id_lem : byte_at hdr 3 ≡ stream_id = unfold pes_start in refl in
    let long : ltb (length hdr) 9 ≡ false =
      le→ltb (length hdr) 9 (omega (arith, length-pes_start stream_id pts extra bytes)) in
    rw (start_code_offset_lem stream_id pts extra bytes, long)
      (rw
        (
          empty,
          has_pts-pes_start stream_id pts extra bytes,
          read_pts-pes_start stream_id pts extra bytes h,
          stream_id_lem,
        )
        (ap (λ s. (s, queue))
          (start_bytes-pes_start stream_id pts extra bytes
            (record st {
              kind = stream_kind stream_id st.kind;
              pes_buffer = [];
              current_pts = u32 pts;
              has_pts = true;
            })
            refl some_byte few)))

stream_kind_again : (id : ℕ) (k : MediaKind) → stream_kind id (stream_kind id k) ≡ stream_kind id k
unfolding stream_kind
stream_kind_again id k =
    elim (Bool-cases ((leb 0xc0 id && leb id 0xdf) || id == 0xbd || id == 0xbf)) [
      | inl e ↦ rw (stream_kind, e) refl
      | inr e ↦ elim (Bool-cases (leb 0xe0 id && leb id 0xef)) [
        | inl f ↦ rw (stream_kind, e, f) refl
        | inr f ↦ rw (stream_kind, e, f) refl
      ]
    ]

-- The frame that a new header hands over.
ended_frame :
    (stream_id pts : ℕ) (extra bytes : List ℕ) (st : StreamState) (queue : List MediaFrame)
    → 0 < length st.pes_buffer
    → (parse_pes (pes_start stream_id pts extra bytes) true st queue).1
      ≡ push_frame (frame_of (record st { kind = stream_kind stream_id st.kind })) queue
unfolding parse_pes start_pes take_pes
ended_frame stream_id pts extra bytes st queue some_byte =
    let hdr = pes_start stream_id pts extra bytes in
    let stream_id_lem : byte_at hdr 3 ≡ stream_id = unfold pes_start in refl in
    let long : ltb (length hdr) 9 ≡ false =
      le→ltb (length hdr) 9 (omega (arith, length-pes_start stream_id pts extra bytes)) in
    elim (Bool-cases (length st.pes_buffer == 0)) [
      | inl e ↦ absurd (ground (arith, e))
      | inr e ↦
          rw (start_code_offset_lem stream_id pts extra bytes, long, e) (rw stream_id_lem refl)
    ]

-- A unit that starts with a header with a time stamp of 33 bits, goes on over any number of packets
-- of its stream, and is followed by a header of the same stream, comes out as one frame: of its
-- bytes in order, with the low 32 bits of its time stamp. The stream collected nothing before, and
-- the unit has a byte in its first packet and 4 MiB at most.
pub parse_pes_frame :
    (id pts : ℕ) (extra bytes : List ℕ) (payloads : List (List ℕ)) (st : StreamState)
    (queue later : List MediaFrame) (pts' : ℕ) (extra' bytes' : List ℕ)
    → pts < 2 ^ 33
    → st.pes_buffer ≡ []
    → 0 < length bytes
    → length bytes + length (join payloads) ≤ max_pes_buffer
    → (parse_pes
        (pes_start id pts' extra' bytes')
        true
        (continue_all payloads (parse_pes (pes_start id pts extra bytes) true st queue).0)
        later).1
      ≡ push_frame
          (record {
            kind = stream_kind id st.kind;
            format = st.format;
            timestamp = u32 pts;
            content = bytes ++ join payloads;
          })
          later
parse_pes_frame id pts extra bytes payloads st queue later pts' extra' bytes' h empty some_byte
      few =
    let opened = record st {
      kind = stream_kind id st.kind;
      pes_buffer = bytes;
      current_pts = u32 pts;
      has_pts = true;
    } in
    let whole : length (bytes ++ join payloads) ≡ length bytes + length (join payloads) =
      length-append bytes (join payloads) in
    rw (start_pes-pes_start id pts extra bytes st queue h empty some_byte (omega arith)) (
      rw (continue_all-join payloads opened some_byte few) (
        ended_frame id pts' extra' bytes' _ later (omega arith)
        ∙ unfold frame_of in rw (stream_kind_again id st.kind) refl))
