-- ===== src/Cbf/Bytes.antt =====
-- Integers and section headers in memory.
use native.Mathlib.Nat.{pow-succ'}
use cyc_flow.Base.{
  ℕ, zero, suc, ◌+◌, ◌-◌, ◌/◌, ◌^◌, ◌≤◌, ◌<◌, ◌≡◌, refl, ap, sym, ◌∙◌, inl, inr, true, ◌==◌,
  Bool-cases, List, [], ◌∷◌, ◌++◌, length, get_or, take, slice, replicate, length-append,
  length-replicate, get_or-append_right, take-front, drop-front, take-all, append_assoc, arith,
}
use cyc_flow.Text.{Text, strncpy}
use cyc_flow.Text.Fields.{lacks}
use cyc_flow.Chunk.{Byte}
use cyc_flow.Cbf.{SectionHeader, bytes_of, value_of, name_bytes, header_bytes, header_of}

pub length-bytes_of : (n k : ℕ) → length (bytes_of n k) ≡ n
unfolding bytes_of
length-bytes_of zero k = refl
length-bytes_of (suc n) k = ap suc (length-bytes_of n (k / 256))

pub value_of-bytes_of : (n k : ℕ) → k < 256 ^ n → value_of (bytes_of n k) ≡ k
unfolding value_of bytes_of
value_of-bytes_of zero k h = omega arith
value_of-bytes_of (suc n) k h =
    omega (arith, value_of-bytes_of n (k / 256) (omega (arith, pow-succ' 256 n, h)))

-- A name of at most `n` bytes, none of them NUL.
strncpy-padded :
    (n m : ℕ) (s : Text) → lacks 0 s ≡ true → length s ≤ n → strncpy n (s ++ replicate m 0) ≡ s
unfolding strncpy lacks
strncpy-padded zero m [] h p = refl
strncpy-padded zero m (c ∷ s) h p = absurd (omega arith)
strncpy-padded (suc n) zero [] h p = refl
strncpy-padded (suc n) (suc m) [] h p = refl
strncpy-padded (suc n) m (c ∷ s) h p = elim (Bool-cases (c == 0)) [
  | inl e ↦ absurd (ground (arith, e, h))
  | inr e ↦ rw e (ap (λ t. c ∷ t) (strncpy-padded n m s (ground (arith, h)) (omega arith)))
]

pub lacks-strncpy : (n : ℕ) (s : Text) → lacks 0 (strncpy n s) ≡ true
unfolding strncpy lacks
lacks-strncpy zero s = refl
lacks-strncpy (suc n) [] = refl
lacks-strncpy (suc n) (c ∷ s) = elim (Bool-cases (c == 0)) [
  | inl e ↦ rw e refl
  | inr e ↦ rw e (ground (arith, e, lacks-strncpy n s))
]

pub length-strncpy : (n : ℕ) (s : Text) → length (strncpy n s) ≤ n
unfolding strncpy
length-strncpy zero s = omega arith
length-strncpy (suc n) [] = omega arith
length-strncpy (suc n) (c ∷ s) = elim (Bool-cases (c == 0)) [
  | inl e ↦ rw e (omega arith)
  | inr e ↦ rw e (omega (arith, length-strncpy n s))
]

length-name_bytes : (n : ℕ) (s : Text) → length s ≤ n → length (name_bytes n s) ≡ n
unfolding name_bytes
length-name_bytes n s h = omega (
  arith,
  length-append s (replicate (n - length s) 0),
  length-replicate {A = ℕ} (n - length s) 0,
  h,
)

-- A header that memory can hold.
pub record IsHeader (h : SectionHeader) : Type 0 where
  pub marker_small : h.marker < 2 ^ 32
  pub name_short : length h.name ≤ 11
  pub name_text : lacks 0 h.name ≡ true
  pub body_small : h.body_length < 2 ^ 64

pub length-header_bytes : (h : SectionHeader) → IsHeader h → length (header_bytes h) ≡ 24
unfolding header_bytes
length-header_bytes h i = omega (
  arith,
  length-append (bytes_of 4 h.marker) (h.type ∷ name_bytes 11 h.name ++ bytes_of 8 h.body_length),
  length-bytes_of 4 h.marker,
  length-append (name_bytes 11 h.name) (bytes_of 8 h.body_length),
  length-name_bytes 11 h.name i.name_short,
  length-bytes_of 8 h.body_length,
)

-- A section header comes back from its 24 bytes in memory. (The marker has 32 bits, the name at
-- most 11 bytes, none of them NUL, and the length 64 bits.)
pub header_of-header_bytes : (h : SectionHeader) → IsHeader h → header_of (header_bytes h) ≡ h
unfolding header_of header_bytes
header_of-header_bytes h i =
    ap
      (λ m. made m (get_or whole 4 0) (strncpy 11 (slice 5 11 whole)) (value_of (slice 16 8 whole)))
      marker_back
    ∙ ap (λ t. made h.marker t (strncpy 11 (slice 5 11 whole)) (value_of (slice 16 8 whole)))
        type_back
    ∙ ap (λ n. made h.marker h.type n (value_of (slice 16 8 whole))) name_back
    ∙ ap (made h.marker h.type h.name) length_back
  where
    made : ℕ → ℕ → Text → ℕ → SectionHeader
    made marker type name length = record {
      marker = marker;
      type = type;
      name = name;
      body_length = length;
    }

    marker : List Byte
    marker = bytes_of 4 h.marker

    name : List Byte
    name = name_bytes 11 h.name

    size : List Byte
    size = bytes_of 8 h.body_length

    whole : List Byte
    whole = marker ++ (h.type ∷ name ++ size)

    marker_back : value_of (take 4 whole) ≡ h.marker
    marker_back =
        ap value_of (take-front 4 marker (h.type ∷ name ++ size) (length-bytes_of 4 h.marker))
        ∙ value_of-bytes_of 4 h.marker i.marker_small

    type_back : get_or whole 4 0 ≡ h.type
    type_back =
        let e : 4 ≡ length marker + 0 = omega (arith, length-bytes_of 4 h.marker) in
        ap (λ k. get_or whole k 0) e ∙ get_or-append_right marker (h.type ∷ name ++ size) 0 0

    name_back : strncpy 11 (slice 5 11 whole) ≡ h.name
    name_back =
        ap (λ bytes. strncpy 11 (slice 5 11 bytes))
          (sym (append_assoc marker (h.type ∷ []) (name ++ size)))
        ∙ ap (λ bytes. strncpy 11 (take 11 bytes))
            (drop-front 5 (marker ++ (h.type ∷ [])) (name ++ size)
              (omega (arith, length-append marker (h.type ∷ []), length-bytes_of 4 h.marker)))
        ∙ ap (strncpy 11) (take-front 11 name size (length-name_bytes 11 h.name i.name_short))
        ∙ (unfold name_bytes in
            strncpy-padded 11 (11 - length h.name) h.name i.name_text i.name_short)

    length_back : value_of (slice 16 8 whole) ≡ h.body_length
    length_back =
        ap (λ bytes. value_of (slice 16 8 bytes)) (sym (append_assoc marker (h.type ∷ name) size))
        ∙ ap (λ bytes. value_of (take 8 bytes))
            (drop-front 16 (marker ++ (h.type ∷ name)) size (
              omega (
                arith,
                length-append marker (h.type ∷ name),
                length-bytes_of 4 h.marker,
                length-name_bytes 11 h.name i.name_short,
              )))
        ∙ ap value_of (take-all 8 size (omega (arith, length-bytes_of 8 h.body_length)))
        ∙ value_of-bytes_of 8 h.body_length i.body_small

-- A header's memory before its length field.
abbrev pub header_front : SectionHeader → List Byte
header_front h = bytes_of 4 h.marker ++ (h.type ∷ name_bytes 11 h.name)

pub header_bytes-front :
    (h : SectionHeader) → header_bytes h ≡ header_front h ++ bytes_of 8 h.body_length
unfolding header_bytes
header_bytes-front h =
    sym (
      append_assoc (bytes_of 4 h.marker) (h.type ∷ name_bytes 11 h.name) (bytes_of 8 h.body_length))

pub length-header_front : (h : SectionHeader) → IsHeader h → length (header_front h) ≡ 16
length-header_front h i = omega (
  arith,
  length-append (bytes_of 4 h.marker) (h.type ∷ name_bytes 11 h.name),
  length-bytes_of 4 h.marker,
  length-name_bytes 11 h.name i.name_short,
)
