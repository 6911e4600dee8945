-- ===== src/Base/Text.antt =====
-- Searches in byte strings. A position in a text is the text behind it. No source file.
use Prim.Native.Nat.{ℕ, zero, suc, ◌+◌, ◌≤◌, ◌<◌}
use mathlib.Core.Path.{◌≡◌, refl, ap}
use mathlib.Core.Logic.{inl, inr}
use mathlib.Core.Bool.{Bool, true, false, ◌&&◌, not}
use mathlib.Core.List.{[], ◌∷◌, ◌++◌}
use mathlib.Core.Option.{Option, none, some}
use native.Mathlib.Omega.{arith}
use bb_monitor.Base.Tests.{◌==◌, Option-cases}
use bb_monitor.Base.Lists.{length, take, drop}
use bb_monitor.Base.Strings.{Bytes}

-- `find(c)`: the text before the first `c`, and the text behind it.
unfoldable pub cut : ℕ → Bytes → Option (Bytes × Bytes)
cut c [] = none
cut c (x ∷ s) = elim (x == c) [
  | true ↦ some ([], s)
  | false ↦ elim (cut c s) [ none ↦ none | some (before, rest) ↦ some (x ∷ before, rest) ]
]

-- `find_first_not_of(" ")`, as what stands from there on; a text without other bytes leaves nothing.
unfoldable pub drop_all : ℕ → Bytes → Bytes
drop_all c [] = []
drop_all c (x ∷ s) = elim (x == c) [ true ↦ drop_all c s | false ↦ x ∷ s ]

-- `s.substr(0, s.find(c))`, where nothing found is the whole text.
abbrev pub until : ℕ → Bytes → Bytes
until c s = elim (cut c s) [ none ↦ s | some (before, rest) ↦ before ]

abbrev pub is_free_of : ℕ → Bytes → Bool
is_free_of c [] = true
is_free_of c (x ∷ xs) = not (x == c) && is_free_of c xs

pub is_free_of-append :
    (c : ℕ) (xs ys : Bytes) → is_free_of c (xs ++ ys) ≡ (is_free_of c xs && is_free_of c ys)
is_free_of-append c [] ys = refl
is_free_of-append c (x ∷ xs) ys = ground (arith, is_free_of-append c xs ys)

pub is_free_of-drop :
    (c n : ℕ) (xs : Bytes) → is_free_of c xs ≡ true → is_free_of c (drop n xs) ≡ true
is_free_of-drop c zero xs h = h
is_free_of-drop c (suc n) [] h = refl
is_free_of-drop c (suc n) (x ∷ xs) h = is_free_of-drop c n xs (ground arith)

pub take-append : (n : ℕ) (xs ys : Bytes) → n ≤ length xs → take n (xs ++ ys) ≡ take n xs
take-append zero xs ys h = refl
take-append (suc n) [] ys h = absurd (omega (arith, h))
take-append (suc n) (x ∷ xs) ys h = ap (λ zs. x ∷ zs) (take-append n xs ys (omega (arith, h)))

pub take_all : (n : ℕ) (xs : Bytes) → length xs ≤ n → take n xs ≡ xs
take_all zero [] h = refl
take_all zero (x ∷ xs) h = absurd (omega (arith, h))
take_all (suc n) [] h = refl
take_all (suc n) (x ∷ xs) h = ap (λ zs. x ∷ zs) (take_all n xs (omega (arith, h)))

pub drop-append : (n : ℕ) (xs ys : Bytes) → n ≤ length xs → drop n (xs ++ ys) ≡ drop n xs ++ ys
drop-append zero xs ys h = refl
drop-append (suc n) [] ys h = absurd (omega (arith, h))
drop-append (suc n) (x ∷ xs) ys h = drop-append n xs ys (omega (arith, h))

pub cut-free : (c : ℕ) (s : Bytes) → is_free_of c s ≡ true → cut c s ≡ none
unfolding cut
cut-free c [] h = refl
cut-free c (x ∷ s) h = ground (arith, h, cut-free c s)

pub cut-append :
    (c : ℕ) (s rest : Bytes) → is_free_of c s ≡ true → cut c (s ++ c ∷ rest) ≡ some (s, rest)
unfolding cut
cut-append c [] rest h = ground arith
cut-append c (x ∷ s) rest h = ground (arith, h, cut-append c s rest)

-- What `cut` finds makes up the text.
pub cut-some :
    (c : ℕ) (s before rest : Bytes)
    → cut c s ≡ some (before, rest)
    → (s ≡ before ++ c ∷ rest) × (is_free_of c before ≡ true)
unfolding cut
cut-some c [] before rest h = cc h
cut-some c (x ∷ s) before rest h = elim (Option-cases (cut c s)) [
  | inl e ↦ ground arith
  | inr ((b, r), e) ↦ ground (arith, e, cut-some c s b r e)
]

pub length-cut :
    (c : ℕ) (s before rest : Bytes)
    → cut c s ≡ some (before, rest)
    → length before + length rest < length s
unfolding cut
length-cut c [] before rest h = cc h
length-cut c (x ∷ s) before rest h = elim (Option-cases (cut c s)) [
  | inl e ↦ ground arith
  | inr ((b, r), e) ↦ ground (arith, e, length-cut c s b r e)
]
