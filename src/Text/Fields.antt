-- ===== src/Text/Fields.antt =====
-- std::getline over a stream: a text cut at a separator.
use cyc_flow.Base.{
  ℕ, ◌<◌, ◌≡◌, ap, inl, inr, Bool, true, ◌&&◌, ◌==◌, not, if◌then◌else◌, Bool-cases, List, length,
  [], ◌∷◌, ◌++◌, arith,
}
use cyc_flow.Text.{Text}

abbrev pub onto : ℕ → List Text → List Text
onto c [] = (c ∷ []) ∷ []
onto c (s ∷ rest) = (c ∷ s) ∷ rest

-- The texts that `std::getline(stream, text, sep)` gives until it fails: no empty one after a last separator.
unfoldable pub fields : ℕ → Text → List Text
fields sep [] = []
fields sep (c ∷ s) = let rest = fields sep s in if c == sep then [] ∷ rest else onto c rest

-- `sep` is written between the texts.
unfoldable pub join : ℕ → List Text → Text
join sep [] = []
join sep (s ∷ []) = s
join sep (s ∷ t ∷ rest) = s ++ sep ∷ join sep (t ∷ rest)

unfoldable pub lacks : ℕ → Text → Bool
lacks sep [] = true
lacks sep (c ∷ s) = not (c == sep) && lacks sep s

pub lacks-append :
    (sep : ℕ) (s t : Text) → lacks sep s ≡ true → lacks sep t ≡ true → lacks sep (s ++ t) ≡ true
unfolding lacks
lacks-append sep [] t h k = k
lacks-append sep (c ∷ s) t h k = ground (arith, lacks-append sep s t)

pub fields-sep :
    (sep : ℕ) (s t : Text) → lacks sep s ≡ true → fields sep (s ++ sep ∷ t) ≡ s ∷ fields sep t
unfolding fields lacks
fields-sep sep [] t h = ground arith
fields-sep sep (c ∷ s) t h = elim (Bool-cases (c == sep)) [
  | inl e ↦ absurd (ground (arith, e, h))
  | inr e ↦ rw e (ap (onto c) (fields-sep sep s t (ground (arith, e, h))))
]

fields-last : (sep c : ℕ) (s : Text) → lacks sep (c ∷ s) ≡ true → fields sep (c ∷ s) ≡ (c ∷ s) ∷ []
unfolding fields lacks
fields-last sep c [] h = ground (arith, h)
fields-last sep c (d ∷ s) h = elim (Bool-cases (c == sep)) [
  | inl e ↦ absurd (ground (arith, e, h))
  | inr e ↦ rw e (ap (onto c) (fields-last sep d s (ground (arith, e, h))))
]

pub fields-whole : (sep : ℕ) (s : Text) → 0 < length s → lacks sep s ≡ true → fields sep s ≡ s ∷ []
fields-whole sep [] p h = absurd (omega arith)
fields-whole sep (c ∷ s) p h = fields-last sep c s h
