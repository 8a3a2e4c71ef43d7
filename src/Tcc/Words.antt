-- ===== src/Tcc/Words.antt =====
-- Both packets are whole words, and the length field says how many.
use asio_rtc.Common.{
  ℕ, zero, suc, ◌+◌, ◌-◌, ◌*◌, ◌/◌, ◌%◌, ◌^◌, ◌<◌, ◌≡◌, refl, ap, ◌∙◌, u16, List, [], ◌∷◌, ◌++◌,
  length, length-append, length-replicate, drop, replicate, arith,
}
use asio_rtc.Binary.{Binary, IsBigEndian, peek16}
use asio_rtc.Binary.Laws.{peek16-write16, length-write16-append, length-write32-append}
use asio_rtc.Tcc.{
  SdesChunk, TransportCcFeedback, filling, sdes_body, sdes_bytes, fci_bytes, counted_padding,
  build_transport_cc,
}

-- The packet is whole words, as many as its length field says, plus one.
pub record IsWhole (bin : Binary) (packet : List ℕ) : Type 0 where
  pub words : length packet % 4 ≡ 0
  pub field : (peek16 bin (drop 2 packet) + 1) * 4 ≡ length packet

length-filling : (size : ℕ) → (size + length (filling size)) % 4 ≡ 0
unfolding filling
length-filling size = omega (arith, length-replicate {A = ℕ} ((4 - size % 4) % 4) 0)

length-counted_padding : (bin : Binary) (n : ℕ) → length (counted_padding bin n) ≡ n
unfolding counted_padding
length-counted_padding bin zero = refl
length-counted_padding bin (suc n) =
    length-append (replicate n 0) (suc n ∷ []) ∙ omega (arith, length-replicate {A = ℕ} n 0)

module _ {bin : Binary} (be : IsBigEndian bin) where
  -- A packet with two bytes, a length field and whole words behind it.
  words-IsWhole :
      (a b n : ℕ) (rest : List ℕ)
      → n ≡ 4 + length rest
      → n % 4 ≡ 0
      → n < 2 ^ 18
      → IsWhole bin (a ∷ b ∷ (bin.write16 (u16 (n / 4 - 1)) ++ rest))
  words-IsWhole a b n rest e h small =
      let fits : u16 (n / 4 - 1) < 2 ^ 16 = omega arith in
      let size : length (bin.write16 (u16 (n / 4 - 1)) ++ rest) ≡ 2 + length rest =
        length-write16-append be (u16 (n / 4 - 1)) rest in
      record {
        words = omega arith;
        field = ap (λ v. (v + 1) * 4) (peek16-write16 be (u16 (n / 4 - 1)) rest fits) ∙ omega arith;
      }

  sdes_body_whole : (c : SdesChunk) → length (sdes_body bin c) % 4 ≡ 0
  unfolding sdes_body
  sdes_body_whole c = ap (λ n. n % 4) (length-append _ (filling _)) ∙ length-filling _

  -- The SDES packet is whole words, and its length field says how many, whatever the length of the
  -- name, up to the size that the field can hold.
  pub sdes_bytes-IsWhole :
      (c : SdesChunk) → length (sdes_body bin c) < 2 ^ 18 - 4 → IsWhole bin (sdes_bytes bin c)
  unfolding sdes_bytes
  sdes_bytes-IsWhole c h =
      let whole : length (sdes_body bin c) % 4 ≡ 0 = sdes_body_whole c in
      words-IsWhole _ 202 (4 + length (sdes_body bin c)) (sdes_body bin c) refl (omega arith)
        (omega arith)

  fci_size : (fb : TransportCcFeedback) → length (fci_bytes bin fb) ≡ 8 + length fb.packet_chunks
  unfolding fci_bytes
  fci_size fb = rw (be.write16_lem fb.base_seq, be.write16_lem fb.status_count) (omega arith)

  body_size :
      (fb : TransportCcFeedback)
      → length (bin.write32 fb.sender_ssrc ++ (bin.write32 fb.media_ssrc ++ fci_bytes bin fb))
        ≡ 16 + length fb.packet_chunks
  body_size fb =
      length-write32-append be fb.sender_ssrc _
      ∙ (ap (λ n. 4 + n)
            (length-write32-append be fb.media_ssrc (fci_bytes bin fb)
              ∙ ap (λ n. 4 + n) (fci_size fb))
          ∙ omega arith)

  padded :
      (a b : ℕ) (body : List ℕ)
      → length body < 2 ^ 18 - 8
      → IsWhole bin (
          a
          ∷ b
          ∷ (bin.write16 (u16 ((4 + length body + (4 - (4 + length body) % 4) % 4) / 4 - 1))
              ++ (body ++ counted_padding bin ((4 - (4 + length body) % 4) % 4))))
  padded a b body h =
      let pad : length (body ++ counted_padding bin ((4 - (4 + length body) % 4) % 4))
          ≡ length body + (4 - (4 + length body) % 4) % 4 =
        length-append body _
        ∙ ap (λ n. length body + n)
            (length-counted_padding bin ((4 - (4 + length body) % 4) % 4)) in
      words-IsWhole a b (4 + length body + (4 - (4 + length body) % 4) % 4)
        (body ++ counted_padding bin ((4 - (4 + length body) % 4) % 4)) (omega arith) (omega arith)
        (omega arith)

  -- The transport-wide feedback packet is whole words, and its length field says how many, whatever
  -- the length of the status chunks, up to the size that the field can hold.
  pub build_transport_cc-IsWhole :
      (fb : TransportCcFeedback)
      → length fb.packet_chunks < 2 ^ 17
      → IsWhole bin (build_transport_cc bin fb)
  unfolding build_transport_cc
  build_transport_cc-IsWhole fb h = padded _ 205 _ (omega (arith, body_size fb))
