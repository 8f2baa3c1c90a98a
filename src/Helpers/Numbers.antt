-- ===== src/Helpers/Numbers.antt =====
-- src/common/utils/helpers.ts: `clamp`, `simpleHash` and `maskString`. A text is the list of its
-- UTF-16 code units.
use backend_gateway.Base.{
  ℕ, zero, suc, ◌+◌, ◌-◌, ◌*◌, ◌%◌, max, List, [], ◌∷◌, ◌++◌, ltb, leb, length, take, drop,
  if◌then◌else◌,
}

abbrev pub min : ℕ → ℕ → ℕ
min a b = if leb a b then a else b

-- `clamp` for numbers that are not negative.
unfoldable pub clamp : ℕ → ℕ → ℕ → ℕ
clamp value low high = min (max value low) high

abbrev pub two_32 : ℕ
two_32 = 4294967296

abbrev pub two_31 : ℕ
two_31 = 2147483648

-- One step of the loop, on the residue of the signed number modulo 2^32: `hash << 5` wraps, and so
-- does `hash & hash` after the difference and the sum.
unfoldable pub hash_step : ℕ → ℕ → ℕ
hash_step hash char = ((hash * 32) % two_32 + (two_32 - hash) + char) % two_32

unfoldable pub hash_from : ℕ → List ℕ → ℕ
unfolding hash_step
hash_from hash [] = hash
hash_from hash (c ∷ cs) = hash_from (hash_step hash c) cs

-- `Math.abs` of the signed number with a residue.
abbrev pub abs_32 : ℕ → ℕ
abs_32 hash = if ltb hash two_31 then hash else two_32 - hash

unfoldable pub simple_hash : List ℕ → ℕ
unfolding hash_from
simple_hash str = abs_32 (hash_from 0 str)

abbrev pub repeat {ℓ} : {A : Type ℓ} → A → ℕ → List A
repeat a zero = []
repeat a (suc n) = a ∷ repeat a n

-- `star` is the code unit of '*'.
unfoldable pub mask_string : ℕ → ℕ → ℕ → List ℕ → List ℕ
mask_string star visible_start visible_end str =
    if leb (length str) (visible_start + visible_end)
    then str
    else take visible_start str
      ++ (repeat star (max (length str - visible_start - visible_end) 3)
          ++ drop (length str - visible_end) str)
