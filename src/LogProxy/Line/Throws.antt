-- ===== src/LogProxy/Line/Throws.antt =====
-- Lines on which `handle_line` of the log proxy (main.cpp) throws.
use bb_monitor.Base.{
  ◌≡◌, refl, Bool, true, ◌&&◌, [], ◌∷◌, ◌++◌, Bytes, codes, ℤ, ◌≤◌, length, arith,
}
use bb_monitor.Base.Text.{cut-append, is_free_of}
use bb_monitor.LogProxy.Line.{out_of_range, search_for, handle_labels, handle_line}

-- Six words, each with the space behind it.
abbrev pub six_words : Bytes → Bytes → Bytes → Bytes → Bytes → Bytes → Bytes → Bytes
six_words u v w x y z rest =
    u ++ 32 ∷ (v ++ 32 ∷ (w ++ 32 ∷ (x ++ 32 ∷ (y ++ 32 ∷ (z ++ 32 ∷ rest)))))

abbrev pub all_words : Bytes → Bytes → Bytes → Bytes → Bytes → Bytes → Bytes → Bool
all_words t u v w x y z =
    is_free_of 32 t
    && (is_free_of 32 u
        && (is_free_of 32 v
            && (is_free_of 32 w && (is_free_of 32 x && (is_free_of 32 y && is_free_of 32 z)))))

handle_labels-cut_off :
    (log_id : Bytes → Bytes) (now : ℤ) (host source s : Bytes)
    → length s ≤ 1
    → handle_labels log_id now host source (codes "[dd ddsource" ++ s) ≡ out_of_range
unfolding handle_labels search_for
handle_labels-cut_off log_id now host source [] k = refl
handle_labels-cut_off log_id now host source (a ∷ []) k = refl
handle_labels-cut_off log_id now host source (a ∷ (b ∷ s)) k = absurd (omega (arith, k))

-- A line of seven words without spaces in them, "[dd ddsource" and at most one byte more makes
-- `substr` throw `std::out_of_range`.
pub handle_line-cut_off :
    (log_id : Bytes → Bytes) (now : ℤ) (t u v w x y z s : Bytes)
    → all_words t u v w x y z ≡ true
    → length s ≤ 1
    → handle_line log_id now (t ++ 32 ∷ six_words u v w x y z (codes "[dd ddsource" ++ s))
      ≡ out_of_range
unfolding handle_line
handle_line-cut_off log_id now t u v w x y z s h k =
    let rest = codes "[dd ddsource" ++ s in
    let behind_5 = y ++ 32 ∷ (z ++ 32 ∷ rest) in
    let behind_4 = x ++ 32 ∷ behind_5 in
    let behind_3 = w ++ 32 ∷ behind_4 in
    let behind_2 = v ++ 32 ∷ behind_3 in
    ground (
      arith,
      cut-append 32 t (u ++ 32 ∷ behind_2) (ground (arith, h)),
      cut-append 32 u behind_2 (ground (arith, h)),
      cut-append 32 v behind_3 (ground (arith, h)),
      cut-append 32 w behind_4 (ground (arith, h)),
      cut-append 32 x behind_5 (ground (arith, h)),
      cut-append 32 y (z ++ 32 ∷ rest) (ground (arith, h)),
      cut-append 32 z rest (ground (arith, h)),
      handle_labels-cut_off log_id now w x s k,
    )
