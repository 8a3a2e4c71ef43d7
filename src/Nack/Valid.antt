-- ===== src/Nack/Valid.antt =====
-- The invariant of the generator, kept by all its operations.
use asio_rtc.Common.{
  ℕ, zero, suc, ◌+◌, ◌-◌, ◌^◌, ◌≤◌, ◌<◌, u16, ◌≡◌, ◌∙◌, refl, List, [], ◌∷◌, length, length-set,
  length-replicate, get_or, set, replicate, All, arith, leb, Bool-cases, inl, inr, ◌⊎◌,
}
use asio_rtc.Common.Int.{pos, leb_ℤ}
use asio_rtc.Nack.Scan.{length-scan}
use asio_rtc.Nack.{
  seq_distance, NackInfo, NackGenerator, fresh, sub16, get_index, nack_generator, mark_received,
  clear_missing, slide_window, receive_new, receive_old, receive_first, receive_packet, scan_slot,
  scan, window_span, get_nacks, update_rtt,
}

-- No slot has been asked for more than `m` times.
abbrev pub AllWithin : ℕ → List NackInfo → Type 0
AllWithin m buffer = All (λ (i : NackInfo). i.retry_count ≤ m) buffer

-- The ring has a slot for each number of the history, the numbers are 16 bits wide, the lowest is
-- less than a history below the highest, and no retry count passes the limit.
pub record IsValid (g : NackGenerator) : Type 0 where
  pub size : length g.buffer ≡ g.history_size
  pub nonempty : 0 < g.history_size
  pub small : g.history_size ≤ 2 ^ 14
  pub retries_fit : g.max_retries < 2 ^ 8
  pub highest_fits : g.highest_seq < 2 ^ 16
  pub lowest_fits : g.lowest_seq < 2 ^ 16
  pub near : sub16 g.highest_seq g.lowest_seq < g.history_size
  pub tries : AllWithin g.max_retries g.buffer

AllWithin-replicate : (n m : ℕ) → AllWithin m (replicate n fresh)
AllWithin-replicate zero m = tt
AllWithin-replicate (suc n) m = (omega arith, AllWithin-replicate n m)

AllWithin-set :
    (m i : ℕ) (buffer : List NackInfo) (info : NackInfo)
    → AllWithin m buffer
    → info.retry_count ≤ m
    → AllWithin m (set buffer i info)
AllWithin-set m i [] info a h = tt
AllWithin-set m zero (x ∷ xs) info a h = (h, a.1)
AllWithin-set m (suc i) (x ∷ xs) info a h = (a.0, AllWithin-set m i xs info a.1 h)

AllWithin-get_or :
    (m i : ℕ) (buffer : List NackInfo)
    → AllWithin m buffer
    → (get_or buffer i fresh).retry_count ≤ m
AllWithin-get_or m i [] a = omega arith
AllWithin-get_or m zero (x ∷ xs) a = a.0
AllWithin-get_or m (suc i) (x ∷ xs) a = AllWithin-get_or m i xs a.1

pub length-mark_received :
    (h seq : ℕ) (buffer : List NackInfo) → length (mark_received h buffer seq) ≡ length buffer
unfolding mark_received
length-mark_received h seq buffer = length-set buffer _ _

mark_received-AllWithin :
    (h m seq : ℕ) (buffer : List NackInfo)
    → AllWithin m buffer
    → AllWithin m (mark_received h buffer seq)
unfolding mark_received
mark_received-AllWithin h m seq buffer a =
    AllWithin-set m (get_index h seq) buffer _ a (AllWithin-get_or m (get_index h seq) buffer a)

pub length-clear_missing :
    (h n i highest : ℕ) (buffer : List NackInfo)
    → length (clear_missing h n i highest buffer) ≡ length buffer
unfolding clear_missing
length-clear_missing h zero i highest buffer = refl
length-clear_missing h (suc n) i highest buffer =
    length-clear_missing h n (i + 1) highest _ ∙ length-set buffer _ _

clear_missing-AllWithin :
    (h m n i highest : ℕ) (buffer : List NackInfo)
    → AllWithin m buffer
    → AllWithin m (clear_missing h n i highest buffer)
unfolding clear_missing
clear_missing-AllWithin h m zero i highest buffer a = a
clear_missing-AllWithin h m (suc n) i highest buffer a =
    clear_missing-AllWithin h m n (i + 1) highest _ (AllWithin-set m _ buffer fresh a (omega arith))

scan_slot_within :
    (m b t : ℕ) (info : NackInfo)
    → m < 2 ^ 8
    → info.retry_count ≤ m
    → (scan_slot m b t info).0.retry_count ≤ m
unfolding scan_slot
scan_slot_within m b t info h a = ground arith

scan-AllWithin :
    (h m b t highest n i : ℕ) (buffer : List NackInfo)
    → m < 2 ^ 8
    → AllWithin m buffer
    → AllWithin m (scan h m b t highest n i buffer).0
unfolding scan
scan-AllWithin h m b t highest zero i buffer fits a = a
scan-AllWithin h m b t highest (suc n) i buffer fits a =
    scan-AllWithin h m b t highest n (i + 1) _ fits
      (AllWithin-set m _ buffer _ a (scan_slot_within m b t _ fits (AllWithin-get_or m _ buffer a)))

-- A new generator satisfies the invariant.
pub nack_generator-IsValid :
    (h m rtt delay : ℕ) → 0 < h → h ≤ 2 ^ 14 → m < 2 ^ 8 → IsValid (nack_generator h m rtt delay)
unfolding nack_generator
nack_generator-IsValid h m rtt delay nonempty small fits = record {
  size = length-replicate h fresh;
  nonempty = nonempty;
  small = small;
  retries_fit = fits;
  highest_fits = omega arith;
  lowest_fits = omega arith;
  near = omega arith;
  tries = AllWithin-replicate h m;
}

-- Once the lowest is less than half the range below the highest, sliding brings it near.
slide_window_near :
    (g : NackGenerator)
    → 0 < g.history_size
    → g.history_size ≤ 2 ^ 14
    → g.highest_seq < 2 ^ 16
    → g.lowest_seq < 2 ^ 16
    → sub16 g.highest_seq g.lowest_seq < 2 ^ 15
    → (sub16 (slide_window g).highest_seq (slide_window g).lowest_seq
        < (slide_window g).history_size)
      × ((slide_window g).lowest_seq < 2 ^ 16)
unfolding slide_window
slide_window_near g p q r s t = ground arith

slide_window_keeps :
    (g : NackGenerator)
    → ((slide_window g).buffer ≡ g.buffer)
      × ((slide_window g).history_size ≡ g.history_size)
      × ((slide_window g).max_retries ≡ g.max_retries)
      × ((slide_window g).highest_seq ≡ g.highest_seq)
unfolding slide_window
slide_window_keeps g = ground arith

-- What `receive_new` hands to the window test.
abbrev advanced : NackGenerator → ℕ → ℕ → List NackInfo → NackGenerator
advanced g seq lowest buffer = record g { buffer = buffer; lowest_seq = lowest; highest_seq = seq }

slide_window-IsValid :
    (g : NackGenerator) (seq lowest : ℕ) (buffer : List NackInfo)
    → IsValid g
    → seq < 2 ^ 16
    → lowest < 2 ^ 16
    → sub16 seq lowest < 2 ^ 15
    → length buffer ≡ g.history_size
    → AllWithin g.max_retries buffer
    → IsValid (slide_window (advanced g seq lowest buffer))
slide_window-IsValid g seq lowest buffer v hs hl near size a =
    let (e1, e2, e3, e4) = slide_window_keeps (advanced g seq lowest buffer) in
    let (n1, n2) = slide_window_near (advanced g seq lowest buffer) v.nonempty v.small hs hl near in
    record {
      size = rw (e1, e2) size;
      nonempty = rw e2 v.nonempty;
      small = rw e2 v.small;
      retries_fit = rw e3 v.retries_fit;
      highest_fits = rw e4 hs;
      lowest_fits = n2;
      near = n1;
      tries = rw (e1, e3) a;
    }

receive_new-IsValid :
    (g : NackGenerator) (seq : ℕ)
    → IsValid g
    → seq < 2 ^ 16
    → sub16 seq g.highest_seq < 2 ^ 15
    → IsValid (receive_new g seq (sub16 seq g.highest_seq))
unfolding receive_new
receive_new-IsValid g seq v hs near =
    let h = g.history_size in
    let m = g.max_retries in
    let diff = sub16 seq g.highest_seq in
    elim (Bool-cases (leb h diff)) [
      | inl far ↦ rw far (
          slide_window-IsValid g seq (sub16 seq (u16 (h - 1))) _ v hs (omega arith)
            (omega (arith, v.small)) (length-mark_received h seq _ ∙ length-replicate h fresh)
            (mark_received-AllWithin h m seq _ (AllWithin-replicate h m)))
      | inr close ↦ rw close (
          slide_window-IsValid g seq g.lowest_seq _ v hs v.lowest_fits
            (ground (arith, v.near, v.small, v.highest_fits, v.lowest_fits))
            (length-mark_received h seq _ ∙ length-clear_missing h _ 1 g.highest_seq _ ∙ v.size)
            (mark_received-AllWithin h m seq _
              (clear_missing-AllWithin h m _ 1 g.highest_seq _ v.tries)))
    ]

buffer-IsValid :
    (g : NackGenerator) (buffer : List NackInfo)
    → IsValid g
    → length buffer ≡ g.history_size
    → AllWithin g.max_retries buffer
    → IsValid (record g { buffer = buffer })
buffer-IsValid g buffer v size a = record {
  size = size;
  nonempty = v.nonempty;
  small = v.small;
  retries_fit = v.retries_fit;
  highest_fits = v.highest_fits;
  lowest_fits = v.lowest_fits;
  near = v.near;
  tries = a;
}

receive_first-IsValid :
    (g : NackGenerator) (seq : ℕ) → IsValid g → seq < 2 ^ 16 → IsValid (receive_first g seq)
unfolding receive_first
receive_first-IsValid g seq v hs = record {
  size = length-mark_received g.history_size seq g.buffer ∙ v.size;
  nonempty = v.nonempty;
  small = v.small;
  retries_fit = v.retries_fit;
  highest_fits = hs;
  lowest_fits = hs;
  near = omega (arith, v.nonempty);
  tries = mark_received-AllWithin g.history_size g.max_retries seq g.buffer v.tries;
}

receive_old-IsValid : (g : NackGenerator) (seq : ℕ) → IsValid g → IsValid (receive_old g seq)
unfolding receive_old
receive_old-IsValid g seq v = ground (
  arith,
  v,
  buffer-IsValid g (mark_received g.history_size g.buffer seq) v
      (length-mark_received g.history_size seq g.buffer ∙ v.size)
      (mark_received-AllWithin g.history_size g.max_retries seq g.buffer v.tries),
)

-- The three ways through `receive_packet`, by the signed distance from the highest number.
pub receive_packet_cases :
    (g : NackGenerator) (seq : ℕ)
    → (receive_packet g seq ≡ receive_first g seq)
      ⊎ (receive_packet g seq ≡ receive_old g seq)
      ⊎ ((receive_packet g seq ≡ receive_new g seq (sub16 seq g.highest_seq))
          × (sub16 seq g.highest_seq < 2 ^ 15))
unfolding receive_packet
receive_packet_cases g seq = elim (Bool-cases g.initialized) [
  | inl run ↦ elim (Bool-cases (leb_ℤ (seq_distance g.highest_seq seq) (pos 0))) [
    | inl old ↦ inr (inl (ground arith))
    | inr new ↦ inr (inr (ground arith, ground arith))
  ]
  | inr idle ↦ inl (ground arith)
]

-- Recording any packet keeps the invariant.
pub receive_packet-IsValid :
    (g : NackGenerator) (seq : ℕ) → IsValid g → seq < 2 ^ 16 → IsValid (receive_packet g seq)
receive_packet-IsValid g seq v hs = elim (receive_packet_cases g seq) [
  | inl first ↦ rw first (receive_first-IsValid g seq v hs)
  | inr (inl old) ↦ rw old (receive_old-IsValid g seq v)
  | inr (inr (new, near)) ↦ rw new (receive_new-IsValid g seq v hs near)
]

get_nacks_cases :
    (g : NackGenerator) (now : ℕ)
    → ((get_nacks g now).0 ≡ g)
      ⊎ ((get_nacks g now).0 ≡ record g {
        buffer =
            (scan g.history_size g.max_retries
              (g.rtt_ms + 20)
              now
              g.highest_seq
              (window_span g - 1)
              1
              g.buffer).0;
      })
unfolding get_nacks
get_nacks_cases g now = elim (Bool-cases g.initialized) [
  | inl run ↦ inr (ground arith)
  | inr idle ↦ inl (ground arith)
]

-- So does asking for the missing packets.
pub get_nacks-IsValid : (g : NackGenerator) (now : ℕ) → IsValid g → IsValid (get_nacks g now).0
get_nacks-IsValid g now v = elim (get_nacks_cases g now) [
  | inl idle ↦ rw idle v
  | inr scanned ↦ rw scanned (
      buffer-IsValid g _ v
        (length-scan g.history_size g.max_retries (g.rtt_ms + 20) now g.highest_seq
            (window_span g - 1) 1 g.buffer
          ∙ v.size)
        (scan-AllWithin g.history_size g.max_retries (g.rtt_ms + 20) now g.highest_seq
          (window_span g - 1) 1 g.buffer v.retries_fit v.tries))
]

pub update_rtt-IsValid : (g : NackGenerator) (rtt : ℕ) → IsValid g → IsValid (update_rtt g rtt)
unfolding update_rtt
update_rtt-IsValid g rtt v = record {
  size = v.size;
  nonempty = v.nonempty;
  small = v.small;
  retries_fit = v.retries_fit;
  highest_fits = v.highest_fits;
  lowest_fits = v.lowest_fits;
  near = v.near;
  tries = v.tries;
}
