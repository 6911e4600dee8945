-- ===== src/Prometheus/Sorted.antt =====
-- `std::sort` of labels by their keys (prometheus_utils.cpp, avro_prometheus_utils.cpp): what it promises,
-- and that this fixes its result where no two keys are equal.
use mathlib.Core.List.{Perm, perm_middle}
use mathlib.Core.List.Perm
use mathlib.Core.Path.{subst}
use bb_monitor.Base.{
  ◌≡◌, refl, sym, ap, ◌∙◌, Bool, true, false, ◌&&◌, not, List, [], ◌∷◌, ◌++◌, Bytes, arith, inl,
  inr, Bool-cases, append-nil, append_assoc,
}
use bb_monitor.Messages.{Label}
use bb_monitor.Prometheus.{bytes_lt}

pub bytes_lt_asymm : (a b : Bytes) → bytes_lt a b ≡ true → bytes_lt b a ≡ false
bytes_lt_asymm [] [] h = refl
bytes_lt_asymm [] (y ∷ ys) h = refl
bytes_lt_asymm (x ∷ xs) [] h = cc h
bytes_lt_asymm (x ∷ xs) (y ∷ ys) h = ground (arith, bytes_lt_asymm xs ys)

pub bytes_lt_trans :
    (a b c : Bytes) → bytes_lt a b ≡ true → bytes_lt b c ≡ true → bytes_lt a c ≡ true
bytes_lt_trans [] [] c h k = k
bytes_lt_trans [] (y ∷ ys) [] h k = cc k
bytes_lt_trans [] (y ∷ ys) (z ∷ zs) h k = refl
bytes_lt_trans (x ∷ xs) [] c h k = cc h
bytes_lt_trans (x ∷ xs) (y ∷ ys) [] h k = cc k
bytes_lt_trans (x ∷ xs) (y ∷ ys) (z ∷ zs) h k = ground (arith, h, k, bytes_lt_trans xs ys zs)

-- What is not smaller than something not smaller is not smaller.
pub bytes_lt_cotrans :
    (a b c : Bytes) → bytes_lt a b ≡ false → bytes_lt b c ≡ false → bytes_lt a c ≡ false
bytes_lt_cotrans [] [] c h k = k
bytes_lt_cotrans [] (y ∷ ys) c h k = cc h
bytes_lt_cotrans (x ∷ xs) b [] h k = refl
bytes_lt_cotrans (x ∷ xs) [] (z ∷ zs) h k = cc k
bytes_lt_cotrans (x ∷ xs) (y ∷ ys) (z ∷ zs) h k = ground (arith, h, k, bytes_lt_cotrans xs ys zs)

-- No label has a smaller key than the one before it.
abbrev pub is_sorted : List Label → Bool
is_sorted [] = true
is_sorted (l ∷ []) = true
is_sorted (l ∷ (m ∷ ms)) = not (bytes_lt m.key l.key) && is_sorted (m ∷ ms)

-- What `std::sort` promises: the labels in some order, sorted by their keys. The order of labels with
-- equal keys is left open.
pub record IsSort (sort : List Label → List Label) : Type 0 where
  pub sorted : (ls : List Label) → is_sorted (sort ls) ≡ true
  pub rearranged : (ls : List Label) → Perm (sort ls) ls

-- Insertion, as one sort that keeps the promise.
unfoldable pub insert_label : Label → List Label → List Label
insert_label l [] = l ∷ []
insert_label l (m ∷ ms) = elim (bytes_lt l.key m.key) [
  | true ↦ l ∷ (m ∷ ms)
  | false ↦ m ∷ insert_label l ms
]

unfoldable pub insert_labels : List Label → List Label → List Label
insert_labels [] sorted = sorted
insert_labels (l ∷ ls) sorted = insert_labels ls (insert_label l sorted)

abbrev pub insertion_sort : List Label → List Label
insertion_sort ls = insert_labels ls []

insert_label-is_sorted :
    (l : Label) (ms : List Label) → is_sorted ms ≡ true → is_sorted (insert_label l ms) ≡ true
unfolding insert_label
insert_label-is_sorted l [] h = refl
insert_label-is_sorted l (m ∷ []) h = ground (arith, bytes_lt_asymm l.key m.key)
insert_label-is_sorted l (m ∷ (n ∷ ns)) h = ground (
  arith,
  h,
  bytes_lt_asymm l.key m.key,
  bytes_lt_asymm l.key n.key,
  insert_label-is_sorted l (n ∷ ns),
)

insert_labels-is_sorted :
    (ls sorted : List Label) → is_sorted sorted ≡ true → is_sorted (insert_labels ls sorted) ≡ true
unfolding insert_labels
insert_labels-is_sorted [] sorted h = h
insert_labels-is_sorted (l ∷ ls) sorted h =
    insert_labels-is_sorted ls (insert_label l sorted) (insert_label-is_sorted l sorted h)

insert_label-Perm : (l : Label) (ms : List Label) → Perm (insert_label l ms) (l ∷ ms)
unfolding insert_label
insert_label-Perm l [] = Perm.rfl
insert_label-Perm l (m ∷ ms) = elim (Bool-cases (bytes_lt l.key m.key)) [
  | inl e ↦ rw (e, insert_label) Perm.rfl
  | inr e ↦
      rw (e, insert_label) (Perm.trans (Perm.cons m (insert_label-Perm l ms)) (Perm.swap l m ms))
]

insert_labels-Perm : (ls sorted : List Label) → Perm (insert_labels ls sorted) (ls ++ sorted)
unfolding insert_labels
insert_labels-Perm [] sorted = Perm.rfl
insert_labels-Perm (l ∷ ls) sorted =
    Perm.trans (insert_labels-Perm ls (insert_label l sorted))
      (Perm.trans (Perm.append_left ls (insert_label-Perm l sorted)) (perm_middle ls sorted))

pub insertion_sort-IsSort : IsSort insertion_sort
insertion_sort-IsSort = record {
  sorted = λ ls. insert_labels-is_sorted ls [] refl;
  rearranged = λ ls. subst (Perm (insertion_sort ls)) (append-nil ls) (insert_labels-Perm ls []);
}

-- The first of sorted labels has no greater key than any of the others.
is_sorted-first :
    (m : Label) (xs : List Label) (l : Label) (ls : List Label)
    → is_sorted (m ∷ (xs ++ l ∷ ls)) ≡ true
    → bytes_lt l.key m.key ≡ false
is_sorted-first m [] l ls h = ground (arith, h)
is_sorted-first m (x ∷ xs) l ls h =
    bytes_lt_cotrans l.key x.key m.key (is_sorted-first x xs l ls (ground (arith, h)))
      (ground (arith, h))

is_sorted-tail : (m : Label) (ls : List Label) → is_sorted (m ∷ ls) ≡ true → is_sorted ls ≡ true
is_sorted-tail m [] h = refl
is_sorted-tail m (l ∷ ls) h = ground (arith, h)

insert_label-last :
    (l : Label) (ms ls : List Label)
    → is_sorted (ms ++ l ∷ ls) ≡ true
    → insert_label l ms ≡ ms ++ l ∷ []
unfolding insert_label
insert_label-last l [] ls h = refl
insert_label-last l (m ∷ ms) ls h =
    let behind = is_sorted-first m ms l ls h in
    let rest = insert_label-last l ms ls (is_sorted-tail m (ms ++ l ∷ ls) h) in
    ground (arith, behind, rest)

insert_labels-last :
    (ls ms : List Label) → is_sorted (ms ++ ls) ≡ true → insert_labels ls ms ≡ ms ++ ls
unfolding insert_labels
insert_labels-last [] ms h = sym (append-nil ms)
insert_labels-last (l ∷ ls) ms h =
    ap (insert_labels ls) (insert_label-last l ms ls h)
    ∙ insert_labels-last ls (ms ++ l ∷ []) (ap is_sorted (append_assoc ms (l ∷ []) ls) ∙ h)
    ∙ append_assoc ms (l ∷ []) ls

-- Insertion leaves sorted labels as they are.
pub insertion_sort-sorted : (ls : List Label) → is_sorted ls ≡ true → insertion_sort ls ≡ ls
insertion_sort-sorted ls h = insert_labels-last ls [] h
