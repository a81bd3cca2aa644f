-- ===== src/Wire/Escapes.antt =====
-- Values as they are encoded, and back.
use decentralized_cloud.Base.{
  ℕ, ◌≡◌, refl, sym, ◌∙◌, ap, Bool, true, false, ◌||◌, [], ◌∷◌, ◌++◌, Text, nat_beq, is_empty,
  codes, if◌then◌else◌, arith, inl, inr, Bool-cases,
}
use decentralized_cloud.Wire.{Boost, encode_value, decode_value}

-- Whether a text begins with another.
abbrev pub starts_with : Text → Text → Bool
starts_with [] s = true
starts_with (c ∷ f) [] = false
starts_with (c ∷ f) (d ∷ s) = if nat_beq c d then starts_with f s else false

abbrev pub has_char : ℕ → Text → Bool
has_char c [] = false
has_char c (d ∷ s) = nat_beq d c || has_char c s

-- What the program relies on: `replace_all` goes from left to right and replaces each occurrence of a
-- search text that is not empty; `split` cuts at each delimiter.
pub record Documented (boost : Boost) : Type 0 where
  pub replace_nothing : (f t : Text) → boost.replace_all [] f t ≡ []
  pub replace_found :
      (f t s : Text)
      → is_empty f ≡ false
      → boost.replace_all (f ++ s) f t ≡ t ++ boost.replace_all s f t
  pub replace_other :
      (f t : Text) (c : ℕ) (s : Text)
      → starts_with f (c ∷ s) ≡ false
      → boost.replace_all (c ∷ s) f t ≡ c ∷ boost.replace_all s f t
  pub split_none : (s : Text) (d : ℕ) → has_char d s ≡ false → boost.split s d ≡ s ∷ []
  pub split_first :
      (s t : Text) (d : ℕ) → has_char d s ≡ false → boost.split (s ++ d ∷ t) d ≡ s ∷ boost.split t d

-- With `:` encoded, and with `|` encoded.
abbrev colons : Text → Text
colons [] = []
colons (c ∷ s) = if nat_beq c b':' then b'%' ∷ b'3' ∷ b'A' ∷ colons s else c ∷ colons s

abbrev bars : Text → Text
bars [] = []
bars (c ∷ s) = if nat_beq c b'|' then b'%' ∷ b'7' ∷ b'C' ∷ bars s else c ∷ bars s

-- Both.
abbrev pub escaped : Text → Text
escaped [] = []
escaped (c ∷ s) =
    if nat_beq c b':'
    then b'%' ∷ b'3' ∷ b'A' ∷ escaped s
    else if nat_beq c b'|'
    then b'%' ∷ b'7' ∷ b'C' ∷ escaped s
    else c ∷ escaped s

escaped-append : (s t : Text) → escaped (s ++ t) ≡ escaped s ++ escaped t
escaped-append [] t = refl
escaped-append (c ∷ s) t = ground (arith, escaped-append s t)

module _ (boost : Boost) (law : Documented boost) where
  replace_char :
      (d : ℕ) (t : Text) (c : ℕ) (s : Text)
      → boost.replace_all (c ∷ s) (d ∷ []) t ≡ (
          if nat_beq c d
          then t ++ boost.replace_all s (d ∷ []) t
          else c ∷ boost.replace_all s (d ∷ []) t)
  replace_char d t c s = elim (Bool-cases (nat_beq c d)) [
    | inl equal ↦ ground (arith, law.replace_found (d ∷ []) t s refl)
    | inr apart ↦ ground (arith, law.replace_other (d ∷ []) t c s)
  ]

  replace-colons : (v : Text) → boost.replace_all v (b':' ∷ []) (codes "%3A") ≡ colons v
  replace-colons [] = law.replace_nothing _ _
  replace-colons (c ∷ v) = ground (arith, replace_char b':' (codes "%3A") c v, replace-colons v)

  replace-bars : (v : Text) → boost.replace_all v (b'|' ∷ []) (codes "%7C") ≡ bars v
  replace-bars [] = law.replace_nothing _ _
  replace-bars (c ∷ v) = ground (arith, replace_char b'|' (codes "%7C") c v, replace-bars v)

  bars-colons : (v : Text) → bars (colons v) ≡ escaped v
  bars-colons [] = refl
  bars-colons (c ∷ v) = ground (arith, bars-colons v)

  pub encode_value-escaped : (v : Text) → encode_value boost v ≡ escaped v
  unfolding encode_value
  encode_value-escaped v =
      ap (λ t. boost.replace_all t (b'|' ∷ []) (codes "%7C")) (replace-colons v)
      ∙ replace-bars (colons v)
      ∙ bars-colons v

  -- The first pass back.
  unescape-colons :
      (v : Text)
      → has_char b'%' v ≡ false
      → boost.replace_all (escaped v) (codes "%3A") (b':' ∷ []) ≡ bars v
  unescape-colons [] h = law.replace_nothing _ _
  unescape-colons (c ∷ v) h = ground (
    arith,
    unescape-colons v,
    law.replace_found (codes "%3A") (b':' ∷ []) (escaped v) refl,
    law.replace_other (codes "%3A") (b':' ∷ []) b'%' (b'7' ∷ b'C' ∷ escaped v) refl,
    law.replace_other (codes "%3A") (b':' ∷ []) b'7' (b'C' ∷ escaped v) refl,
    law.replace_other (codes "%3A") (b':' ∷ []) b'C' (escaped v) refl,
    law.replace_other (codes "%3A") (b':' ∷ []) c (escaped v),
  )

  unescape-bars :
      (v : Text)
      → has_char b'%' v ≡ false
      → boost.replace_all (bars v) (codes "%7C") (b'|' ∷ []) ≡ v
  unescape-bars [] h = law.replace_nothing _ _
  unescape-bars (c ∷ v) h = ground (
    arith,
    unescape-bars v,
    law.replace_found (codes "%7C") (b'|' ∷ []) (bars v) refl,
    law.replace_other (codes "%7C") (b'|' ∷ []) c (bars v),
  )

  -- A value without a percent sign comes back as it was sent.
  pub decode_value-encode_value :
      (v : Text) → has_char b'%' v ≡ false → decode_value boost (encode_value boost v) ≡ v
  unfolding decode_value
  decode_value-encode_value v h =
      ap (decode_value boost) (encode_value-escaped v)
      ∙ ap (λ t. boost.replace_all t (codes "%7C") (b'|' ∷ [])) (unescape-colons v h)
      ∙ unescape-bars v h

  -- No delimiter is left in an encoded value.
  pub encode_value-clean :
      (v : Text)
      → (has_char b':' (encode_value boost v) ≡ false)
        × (has_char b'|' (encode_value boost v) ≡ false)
  encode_value-clean v = rw (encode_value-escaped v) (clean v)
    where
      clean : (v : Text) → (has_char b':' (escaped v) ≡ false) × (has_char b'|' (escaped v) ≡ false)
      clean [] = (refl, refl)
      clean (c ∷ v) = ground (arith, clean v)

  -- A colon and the three characters that stand for it are sent as the same text, so that no reader can
  -- tell the two values apart.
  encode_value-collides :
      (s t : Text)
      → encode_value boost (s ++ codes ":" ++ t) ≡ encode_value boost (s ++ codes "%3A" ++ t)
  encode_value-collides s t =
      encode_value-escaped (s ++ codes ":" ++ t)
      ∙ ground (
        arith,
        escaped-append (s ++ codes ":") t,
        escaped-append s (codes ":"),
        escaped-append (s ++ codes "%3A") t,
        escaped-append s (codes "%3A"),
      )
      ∙ sym (encode_value-escaped (s ++ codes "%3A" ++ t))
