-- ===== src/Twcc/Elements.antt =====
-- The walk over header extensions reads what stands there.
use asio_rtc.Common.{
  ℕ, zero, suc, ◌+◌, ◌-◌, ◌*◌, ◌≤◌, ◌<◌, ◌≡◌, refl, ap, ◌∙◌, bit_and, ◌>>>◌, le→ltb, List, [], ◌∷◌,
  ◌++◌, length, length-append, take-append, drop-append, All, arith,
}
use asio_rtc.Common.Bits.{bit_and-mask}
use asio_rtc.Twcc.{RtpExtElement, ext_elements}

-- An element on the wire: identifier and length less one in four bits each, then the bytes.
unfoldable pub element_bytes : RtpExtElement → List ℕ
element_bytes e = (e.id * 16 + (e.length - 1)) ∷ e.content

unfoldable pub elements_bytes : List RtpExtElement → List ℕ
elements_bytes [] = []
elements_bytes (e ∷ elements) = element_bytes e ++ elements_bytes elements

pub record IsElement (e : RtpExtElement) : Type 0 where
  pub id_short : e.id < 16
  pub not_nothing : 0 < e.length
  pub at_most : e.length ≤ 16
  pub size : length e.content ≡ e.length

size_bits : (id n : ℕ) → 0 < n → n ≤ 16 → bit_and (id * 16 + (n - 1)) 0xf + 1 ≡ n
size_bits id n p h = ap (λ v. v + 1) (bit_and-mask 4 (id * 16 + (n - 1))) ∙ omega arith

id_bits : (id n : ℕ) → id < 16 → 0 < n → n ≤ 16 → bit_and ((id * 16 + (n - 1)) >>> 4) 0xf ≡ id
id_bits id n i p h = bit_and-mask 4 ((id * 16 + (n - 1)) >>> 4) ∙ omega arith

pub one_element :
    (fuel : ℕ) (e : RtpExtElement) (buf : List ℕ)
    → IsElement e
    → ext_elements (suc fuel) (element_bytes e ++ buf) ≡ e ∷ ext_elements fuel buf
unfolding ext_elements element_bytes
one_element fuel e buf h =
    rw
      (
        ext_elements,
        size_bits e.id e.length h.not_nothing h.at_most,
        id_bits e.id e.length h.id_short h.not_nothing h.at_most,
        le→ltb (length (e.content ++ buf)) e.length
            (omega (arith, length-append e.content buf, h.size)),
        take-append e.length e.content buf (omega (arith, h.size)),
        drop-append e.length e.content buf (omega (arith, h.size)),
      )
      refl

-- Extension elements with identifiers below 16 and 1 to 16 bytes each, one behind the other, are read
-- as the same elements.
pub ext_elements-elements_bytes :
    (fuel : ℕ) (elements : List RtpExtElement)
    → All IsElement elements
    → length (elements_bytes elements) ≤ fuel
    → ext_elements fuel (elements_bytes elements) ≡ elements
unfolding ext_elements elements_bytes element_bytes
ext_elements-elements_bytes zero [] h e = refl
ext_elements-elements_bytes (suc fuel) [] h e = refl
ext_elements-elements_bytes zero (x ∷ elements) h e = absurd (omega arith)
ext_elements-elements_bytes (suc fuel) (x ∷ elements) h e =
    one_element fuel x (elements_bytes elements) h.0
    ∙ ap (λ t. x ∷ t)
        (ext_elements-elements_bytes fuel elements h.1
          (omega (arith, length-append x.content (elements_bytes elements))))
