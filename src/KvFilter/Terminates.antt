-- ===== src/KvFilter/Terminates.antt =====
-- The loop of kv_filter.cpp ends: a text has fewer rounds than bytes, and one to find the end.
use bb_monitor.Base.{
  ℕ, zero, suc, ◌<◌, ◌≡◌, some, List, [], ◌∷◌, ◌++◌, Bytes, length, arith, Option-cases, inl, inr,
}
use bb_monitor.KvFilter.{Kv, KvFilter, find_first_of, match_from}

pub find_first_of-length :
    (separators s : Bytes) (before : Bytes) (c : ℕ) (rest : Bytes)
    → find_first_of separators s ≡ some (before, c, rest)
    → length rest < length s
unfolding find_first_of
find_first_of-length separators [] before c rest h = cc
find_first_of-length separators (x ∷ s) before c rest h =
    elim (Option-cases (find_first_of separators s)) [
      | inl e ↦ ground arith
      | inr ((b, d, r), e) ↦ ground (arith, find_first_of-length separators s b d r e)
    ]

-- Any two bounds above the length of the text give the same pairs.
pub match_from_enough :
    (f : KvFilter) (n m : ℕ) (s : Bytes) (result : List Kv)
    → length s < n
    → length s < m
    → match_from f n s result ≡ match_from f m s result
unfolding match_from
match_from_enough f zero m s result h k = absurd (omega (arith, h))
match_from_enough f (suc n) zero s result h k = absurd (omega (arith, k))
match_from_enough f (suc n) (suc m) s result h k =
    elim (Option-cases (find_first_of f.separators s)) [
      | inl e ↦ ground (arith, e)
      | inr ((first, c, rest), e) ↦
          let shorter = find_first_of-length f.separators s first c rest e in
          elim (Option-cases (find_first_of f.separators rest)) [
            | inl g ↦
                let skip =
                  match_from_enough f n m rest result (omega (arith, h, shorter))
                    (omega (arith, k, shorter)) in
                ground (arith, e, g, skip)
            | inr ((second, d, rest'), g) ↦
                let shorter' = find_first_of-length f.separators rest second d rest' g in
                let skip =
                  match_from_enough f n m rest result (omega (arith, h, shorter))
                    (omega (arith, k, shorter)) in
                let next =
                  match_from_enough f n m rest'
                    (result ++ record { key = first; val = second } ∷ [])
                    (omega (arith, h, shorter, shorter')) (omega (arith, k, shorter, shorter')) in
                ground (arith, e, g, skip, next)
          ]
    ]
