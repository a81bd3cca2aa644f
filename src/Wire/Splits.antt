-- ===== src/Wire/Splits.antt =====
-- A text as the parts that `boost::split` cuts it into.
use mathlib.Core.List.{append_assoc, append-nil}
use decentralized_cloud.Base.{
  ℕ, ◌≡◌, refl, sym, ◌∙◌, ap, Bool, true, false, List, [], ◌∷◌, ◌++◌, Text, nat_beq, arith, All,
}
use decentralized_cloud.Wire.{Boost}
use decentralized_cloud.Wire.Escapes.{Documented, has_char}

-- Each part with a delimiter before it.
abbrev pub separated : ℕ → List Text → Text
separated d [] = []
separated d (part ∷ parts) = d ∷ part ++ separated d parts

pub separated-append :
    (d : ℕ) (ps qs : List Text) → separated d (ps ++ qs) ≡ separated d ps ++ separated d qs
separated-append d [] qs = refl
separated-append d (p ∷ ps) qs =
    ap (λ t. d ∷ p ++ t) (separated-append d ps qs)
    ∙ ap (λ t. d ∷ t) (sym (append_assoc p (separated d ps) (separated d qs)))

pub split-separated :
    (boost : Boost) (law : Documented boost) (d : ℕ) (p : Text) (ps : List Text)
    → has_char d p ≡ false
    → All (λ q. has_char d q ≡ false) ps
    → boost.split (p ++ separated d ps) d ≡ p ∷ ps
split-separated boost law d p [] clean all =
    ap (λ t. boost.split t d) (append-nil p) ∙ law.split_none p d clean
split-separated boost law d p (q ∷ ps) clean all =
    law.split_first p (q ++ separated d ps) d clean
    ∙ ap (λ r. p ∷ r) (split-separated boost law d q ps all.0 all.1)

-- Every text is made of such parts.
abbrev InParts : ℕ → Text → Type 0
InParts d s =
    (p : Text) × (ps : List Text) × (p ++ separated d ps ≡ s)
    × (has_char d p ≡ false)
    × All (λ q. has_char d q ≡ false) ps

split_text_step :
    (d c : ℕ) (s : Text) (b : Bool) → nat_beq c d ≡ b → InParts d s → InParts d (c ∷ s)
split_text_step d c s true e (p, ps, whole, clean, all) =
    ([], p ∷ ps, ground arith, refl, (clean, all))
split_text_step d c s false e (p, ps, whole, clean, all) =
    (c ∷ p, ps, ap (λ t. c ∷ t) whole, ground arith, all)

pub split_text : (d : ℕ) (s : Text) → InParts d s
split_text d [] = ([], [], refl, refl, tt)
split_text d (c ∷ s) = split_text_step d c s (nat_beq c d) refl (split_text d s)
