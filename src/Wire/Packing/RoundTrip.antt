-- ===== src/Wire/Packing/RoundTrip.antt =====
-- What comes back of a text that was compressed.
use decentralized_cloud.Base.{
  ℕ, ◌^◌, ◌≤◌, ◌≡◌, refl, sym, ◌∙◌, ap, some, false, List, [], ◌∷◌, ◌++◌, Text, nat_beq,
  if◌then◌else◌, length, map, arith, All, Bool-cases, inl, inr,
}
use decentralized_cloud.Base.Decimal.{to_string}
use decentralized_cloud.Wire.{Boost, remove_null_terminators}
use decentralized_cloud.Wire.Escapes.{Documented, has_char}
use decentralized_cloud.Wire.Plain.{has_char-append}
use decentralized_cloud.Wire.Splits.{separated, split-separated, split_text}
use decentralized_cloud.Wire.Packing.{
  Zlib, unpacked, thrown, add_header, compress_string, put_zeros, unpack_parts, decompress_string,
}
use decentralized_cloud.Wire.Packing.Places.{
  places, headers_of, take_zeros_lem, headers_of-separated, to_string-ne, to_string-clean,
  numbers_clean, put_zeros-places, places_none, places_some, rejoin-separated,
}

-- The underscores of the text come together again.
unpack_parts-split :
    (boost : Boost) (law : Documented boost) (zlib : Zlib) (headers text : Text)
    → has_char b'_' headers ≡ false
    → decompress_string boost zlib (headers ++ b'_' ∷ text)
      ≡ put_zeros zlib (boost.split headers b',') text
unfolding decompress_string unpack_parts
unpack_parts-split boost law zlib headers text clean =
    let (p, ps, whole, first, others) = split_text b'_' text in
    ap (λ t. unpack_parts boost zlib (boost.split (headers ++ b'_' ∷ t) b'_')) (sym whole)
    ∙ ap (unpack_parts boost zlib)
        (split-separated boost law b'_' headers (p ∷ ps) clean (first, others))
    ∙ ap (put_zeros zlib (boost.split headers b',')) (rejoin-separated ps p ∙ whole)

-- The headers of one place or more, as they are split.
split-headers :
    (boost : Boost) (law : Documented boost) (m : ℕ) (ns : List ℕ)
    → boost.split (headers_of [] (m ∷ ns)) b',' ≡ map to_string (m ∷ ns)
unfolding headers_of add_header
split-headers boost law m ns =
    ap (λ t. boost.split t b',') (headers_of-separated (to_string m) ns (to_string-ne m []))
    ∙ split-separated boost law b',' (to_string m) (map to_string ns) (to_string-clean b',' m refl)
        (numbers_clean b',' ns refl)

separated-clean :
    (c d : ℕ) (ps : List Text)
    → nat_beq d c ≡ false
    → All (λ q. has_char c q ≡ false) ps
    → has_char c (separated d ps) ≡ false
separated-clean c d [] apart all = refl
separated-clean c d (p ∷ ps) apart all =
    ground (arith, has_char-append c p (separated d ps), separated-clean c d ps apart all.1, all.0)

headers_clean : (m : ℕ) (ns : List ℕ) → has_char b'_' (headers_of [] (m ∷ ns)) ≡ false
unfolding headers_of add_header
headers_clean m ns =
    ap (has_char b'_') (headers_of-separated (to_string m) ns (to_string-ne m []))
    ∙ ground (
      arith,
      has_char-append b'_' (to_string m) (separated b',' (map to_string ns)),
      to_string-clean b'_' m refl,
      separated-clean b'_' b',' (map to_string ns) refl (numbers_clean b'_' ns refl),
    )

-- No header is no number.
no_header :
    (boost : Boost) (law : Documented boost) (zlib : Zlib) (text : Text)
    → decompress_string boost zlib (b'_' ∷ text) ≡ thrown
unfolding put_zeros
no_header boost law zlib text =
    unpack_parts-split boost law zlib [] text refl
    ∙ ap (λ ps. put_zeros zlib ps text) (law.split_none [] b',' refl)

-- The headers of a text that may have no zeros.
put_headers :
    (boost : Boost) (law : Documented boost) (zlib : Zlib) (s : Text)
    → length s ≤ 2 ^ 31
    → decompress_string boost zlib (headers_of [] (places 0 s) ++ b'_' ∷ remove_null_terminators s)
      ≡ (if has_char 0 s then put_zeros zlib [] s else thrown)
unfolding headers_of
put_headers boost law zlib s small = elim (Bool-cases (has_char 0 s)) [
  | inl there ↦
      let (m, ns, e) = places_some 0 s there in
      let headers = headers_of [] (m ∷ ns) in
      rw there (
        ap
          (λ ps.
            decompress_string boost zlib (headers_of [] ps ++ b'_' ∷ remove_null_terminators s))
          e
        ∙ unpack_parts-split boost law zlib headers (remove_null_terminators s) (headers_clean m ns)
        ∙ ap (λ ps. put_zeros zlib ps (remove_null_terminators s))
            (split-headers boost law m ns ∙ ap (map to_string) (sym e))
        ∙ put_zeros-places zlib 0 s [] refl (omega arith))
  | inr missing ↦ rw missing (
      ap (λ ps. decompress_string boost zlib (headers_of [] ps ++ b'_' ∷ remove_null_terminators s))
        (places_none 0 s missing)
      ∙ no_header boost law zlib (remove_null_terminators s))
]

put_zeros-end :
    (zlib : Zlib) (s text : Text)
    → zlib.decompress s ≡ some text
    → put_zeros zlib [] s ≡ unpacked text
unfolding put_zeros
put_zeros-end zlib s text e = rw (e, put_zeros) refl

-- A text is unpacked to what was packed, which is the text without its zeros, if the compressed text
-- has a zero and is no longer than an `int` counts; if it has none, unpacking throws.
pub decompress_string-compress_string :
    (boost : Boost) (law : Documented boost) (zlib : Zlib) (text : Text)
    → ((t : Text) → zlib.decompress (zlib.compress t) ≡ some t)
    → length (zlib.compress (remove_null_terminators text)) ≤ 2 ^ 31
    → decompress_string boost zlib (compress_string zlib text) ≡ (
        if has_char 0 (zlib.compress (remove_null_terminators text))
        then unpacked (remove_null_terminators text)
        else thrown)
unfolding compress_string put_zeros
decompress_string-compress_string boost law zlib text inverse small =
    let s = zlib.compress (remove_null_terminators text) in
    ap (λ p. decompress_string boost zlib (p.0 ++ b'_' ∷ p.1)) (take_zeros_lem 0 s [])
    ∙ put_headers boost law zlib s small
    ∙ ap (λ r. if has_char 0 s then r else thrown)
        (put_zeros-end zlib s (remove_null_terminators text)
          (inverse (remove_null_terminators text)))
