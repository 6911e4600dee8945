-- ===== src/LogProxy/Buffer.antt =====
-- The buffer of a session of the log proxy (main.cpp): writes, searches and C strings.
use bb_monitor.Base.{
  ℕ, zero, suc, ◌+◌, ◌≤◌, ◌<◌, ◌≡◌, refl, ◌∙◌, true, none, some, [], ◌∷◌, ◌++◌, Bytes, length, take,
  drop, arith, length-take, length-drop, length-append, Option-cases, inl, inr,
}
use bb_monitor.Base.Text.{is_free_of, take-append, take_all}
use bb_monitor.LogProxy.{memchr, c_string, overwrite}

pub c_string-append :
    (xs ys s : Bytes)
    → is_free_of 0 xs ≡ true
    → c_string (xs ++ ys) ≡ some s
    → (r : Bytes) × (s ≡ xs ++ r)
c_string-append [] ys s h k = (s, refl)
c_string-append (zero ∷ xs) ys s h k = cc h
c_string-append (suc x ∷ xs) ys s h k = elim (Option-cases (c_string (xs ++ ys))) [
  | inl e ↦ absurd (ground arith)
  | inr (t, e) ↦
      let (r, same) = c_string-append xs ys t (ground arith) e in (r, ground (arith, same))
]

pub memchr-none : (c : ℕ) (xs : Bytes) → memchr c xs ≡ none → is_free_of c xs ≡ true
memchr-none c [] h = refl
memchr-none c (x ∷ xs) h = ground (arith, memchr-none c xs)

pub memchr-some :
    (c : ℕ) (xs : Bytes) (i : ℕ)
    → memchr c xs ≡ some i
    → (xs ≡ take i xs ++ c ∷ drop (suc i) xs) × (is_free_of c (take i xs) ≡ true) × (i < length xs)
memchr-some c [] i h = cc h
memchr-some c (x ∷ xs) i h = elim (Option-cases (memchr c xs)) [
  | inl e ↦ ground arith
  | inr (j, e) ↦ ground (arith, memchr-some c xs j e)
]

pub length-overwrite :
    (n : ℕ) (bs buffer : Bytes)
    → n + length bs ≤ length buffer
    → length (overwrite n bs buffer) ≡ length buffer
length-overwrite n bs buffer h = omega (
  arith,
  h,
  length-append (take n buffer ++ bs) (drop (n + length bs) buffer),
  length-append (take n buffer) bs,
  length-take n buffer,
  length-drop (n + length bs) buffer,
)

pub length-written :
    (n : ℕ) (bs buffer : Bytes)
    → n + length bs ≤ length buffer
    → length (take n buffer ++ bs) ≡ n + length bs
length-written n bs buffer h =
    omega (arith, h, length-append (take n buffer) bs, length-take n buffer)

-- What stands in the array up to the end of the bytes written.
pub take-overwrite :
    (n : ℕ) (bs buffer : Bytes)
    → n + length bs ≤ length buffer
    → take (n + length bs) (overwrite n bs buffer) ≡ take n buffer ++ bs
take-overwrite n bs buffer h =
    let size = length-written n bs buffer h in
    take-append (n + length bs) (take n buffer ++ bs) (drop (n + length bs) buffer)
      (omega (arith, size))
    ∙ take_all (n + length bs) (take n buffer ++ bs) (omega (arith, size))
