-- ===== src/Wire/Packing.antt =====
-- `compressString` and `decompressString` of BlockChainCommon/functions.cpp: a compressed text without
-- its zeros, behind a list of the places where they stood. zlib and `boost::split` are parameters.
pub mod Places
pub mod RoundTrip
use decentralized_cloud.Base.{
  ℕ, zero, suc, ◌+◌, ◌-◌, ◌^◌, Option, none, some, Bool, true, false, List, [], ◌∷◌, ◌++◌, Text,
  nat_beq, leb, is_empty, codes, if◌then◌else◌, length, take, drop,
}
use decentralized_cloud.Base.Decimal.{skip_spaces, to_string}
use decentralized_cloud.Wire.{Boost, remove_null_terminators}
use decentralized_cloud.Wire.Inbox.{Signed, leading, read_sign}

-- The filters `zlib_compressor(9)` and `zlib_decompressor()`; `none` is the exception for a text that
-- is no zlib stream.
pub record Zlib : Type 0 where
  pub compress : Text → Text
  pub decompress : Text → Option Text

-- A text, an exception, or an access past the end of a vector or a text, which has no defined result.
pub data Unpacked : Type 0 where
  unpacked : Text → Unpacked
  thrown : Unpacked
  past_end : Unpacked

-- The place of a zero behind those before it.
unfoldable pub add_header : Text → ℕ → Text
unfolding to_string
add_header headers position =
    (if is_empty headers then [] else headers ++ b',' ∷ []) ++ to_string position

-- The loop over the compressed text: the headers, and the text without zeros.
unfoldable pub take_zeros : ℕ → Text → Text → Text × Text
unfolding add_header
take_zeros position [] headers = (headers, [])
take_zeros position (c ∷ s) headers = elim (nat_beq c 0) [
  | true ↦ take_zeros (position + 1) s (add_header headers position)
  | false ↦ let (h, t) = take_zeros (position + 1) s headers in (h, c ∷ t)
]

unfoldable pub compress_string : Zlib → Text → Text
unfolding take_zeros remove_null_terminators
compress_string zlib text =
    let (headers, rest) = take_zeros 0 (zlib.compress (remove_null_terminators text)) [] in
    headers ++ b'_' ∷ rest

-- `std::stoi`, which throws without a digit and past 32 bits.
unfoldable pub stoi : Text → Option Signed
unfolding skip_spaces read_sign leading
stoi text =
    let (minus, s) = read_sign (skip_spaces text) in
    elim (leading s) [
      | none ↦ none
      | some n ↦ if leb n (if minus then 2 ^ 31 else 2 ^ 31 - 1) then some (minus, n) else none
    ]

-- `insert(begin() + position, '\0')`, which has no defined result past the end or before the start.
unfoldable pub insert_zero : Signed → Text → Option Text
insert_zero (minus, n) s =
    if leb n (if minus then 0 else length s) then some (take n s ++ 0 ∷ drop n s) else none

-- The parts behind the first underscore, with the underscores that stood between them.
unfoldable pub rejoin : List Text → Text → Text
rejoin [] s = s
rejoin (p ∷ ps) s = rejoin ps (s ++ b'_' ∷ p)

-- The loop over the places, then zlib.
unfoldable pub put_zeros : Zlib → List Text → Text → Unpacked
unfolding stoi insert_zero
put_zeros zlib [] s = elim (zlib.decompress s) [ none ↦ thrown | some text ↦ unpacked text ]
put_zeros zlib (place ∷ places) s = elim (stoi place) [
  | none ↦ thrown
  | some n ↦ elim (insert_zero n s) [ none ↦ past_end | some s' ↦ put_zeros zlib places s' ]
]

unfoldable pub unpack_parts : Boost → Zlib → List Text → Unpacked
unfolding put_zeros rejoin
unpack_parts boost zlib [] = past_end
unpack_parts boost zlib (headers ∷ []) = past_end
unpack_parts boost zlib (headers ∷ body ∷ more) =
    put_zeros zlib (boost.split headers b',') (rejoin more body)

unfoldable pub decompress_string : Boost → Zlib → Text → Unpacked
unfolding unpack_parts
decompress_string boost zlib text = unpack_parts boost zlib (boost.split text b'_')
