-- ===== src/Base/Text.antt =====
-- JavaScript strings as their UTF-16 code units, and the string methods that the dashboard calls.
use Prim.Native.Nat.{ℕ, ◌+◌}
use Prim.Native.Char.{code}
use Prim.Native.String.{String}
use mathlib.Core.Path.{◌≡◌, refl}
use mathlib.Core.Logic.{◌↔◌}
use mathlib.Core.Bool.{Bool, true, false, ◌&&◌, ◌||◌}
use mathlib.Core.List.{List, [], ◌∷◌, map, reverse}
use mathlib.Core.Option.{Option, none, some}
use native.Mathlib.Omega.{arith}
use mathlib.Core.Logic.{◌≢◌}
use proxy_pool_architect.Base.Tests.{ltb, leb, nat_beq, if◌then◌else◌, Equality, nat_eq}

abbrev pub Text : Type 0
Text = List ℕ

-- The code units of a literal, whose characters all lie in the basic plane.
abbrev pub codes : String → Text
codes String.[] = []
codes (String.◌∷◌ c s) = code c ∷ codes s

abbrev pub text_beq : Text → Text → Bool
text_beq [] [] = true
text_beq [] (d ∷ t) = false
text_beq (c ∷ s) [] = false
text_beq (c ∷ s) (d ∷ t) = nat_beq c d && text_beq s t

pub text_beq_iff : (s t : Text) → (text_beq s t ≡ true) ↔ (s ≡ t)
text_beq_iff [] [] = (λ _. refl, λ _. refl)
text_beq_iff [] (d ∷ t) = (λ h. cc, λ h. cc)
text_beq_iff (c ∷ s) [] = (λ h. cc, λ h. cc)
text_beq_iff (c ∷ s) (d ∷ t) = ground (arith, text_beq_iff s t)

instance abbrev pub text_eq : Equality Text
text_eq = record { agree = text_beq; agree_iff = text_beq_iff }

-- `items.includes(s)`
abbrev pub has : Text → List Text → Bool
has s [] = false
has s (t ∷ ts) = text_beq t s || has s ts

-- A string is falsy when it is empty.
abbrev pub truthy : Text → Bool
truthy [] = false
truthy (c ∷ s) = true

-- `value` where it is a non-empty string, as `value || null` reads it
abbrev pub non_empty : Option Text → Option Text
non_empty none = none
non_empty (some s) = if truthy s then some s else none

abbrev pub starts_with : Text → Text → Bool
starts_with [] t = true
starts_with (c ∷ s) [] = false
starts_with (c ∷ s) (d ∷ t) = nat_beq c d && starts_with s t

-- `text.includes(needle)`
abbrev pub includes : Text → Text → Bool
includes needle [] = starts_with needle []
includes needle (c ∷ s) = starts_with needle (c ∷ s) || includes needle s

-- Case folding of the letters A to Z; every other code unit is kept.
abbrev pub to_lower : Text → Text
to_lower = map (λ c. if leb b'A' c && leb c b'Z' then c + 32 else c)

-- The white space that `trim` and `\s` know.
abbrev pub is_space : ℕ → Bool
is_space c =
    (leb 9 c && leb c 13)
    || (nat_beq c 32
        || (nat_beq c 160
            || (nat_beq c 5760
                || ((leb 8192 c && leb c 8202)
                    || (nat_beq c 8232
                        || (nat_beq c 8233
                            || (nat_beq c 8239
                                || (nat_beq c 8287 || (nat_beq c 12288 || nat_beq c 65279)))))))))

abbrev pub trim_start : Text → Text
trim_start [] = []
trim_start (c ∷ s) = if is_space c then trim_start s else c ∷ s

abbrev pub trim : Text → Text
trim s = reverse (trim_start (reverse (trim_start s)))

-- `a < b` in the order of `Array.prototype.sort` without a comparator
abbrev pub text_ltb : Text → Text → Bool
text_ltb s [] = false
text_ltb [] (d ∷ t) = true
text_ltb (c ∷ s) (d ∷ t) = ltb c d || (nat_beq c d && text_ltb s t)

pub text_ltb_asymm : (s t : Text) → text_ltb s t ≡ true → text_ltb t s ≡ false
text_ltb_asymm [] [] h = refl
text_ltb_asymm [] (d ∷ t) h = refl
text_ltb_asymm (c ∷ s) [] h = cc
text_ltb_asymm (c ∷ s) (d ∷ t) h = ground (arith, text_ltb_asymm s t)

pub text_ltb_trans :
    (s t u : Text) → text_ltb t s ≡ false → text_ltb u t ≡ false → text_ltb u s ≡ false
text_ltb_trans [] t [] h k = refl
text_ltb_trans [] [] (e ∷ u) h k = refl
text_ltb_trans [] (d ∷ t) (e ∷ u) h k = refl
text_ltb_trans (c ∷ s) [] u h k = cc
text_ltb_trans (c ∷ s) (d ∷ t) [] h k = cc
text_ltb_trans (c ∷ s) (d ∷ t) (e ∷ u) h k = ground (arith, text_ltb_trans s t u)

pub text_beq-ne : (s t : Text) → text_beq s t ≡ false → s ≢ t
text_beq-ne s t differ same = let equal = (text_beq_iff s t).1 same in absurd (cc)
