-- ===== src/Prometheus/Reordered.antt =====
-- The order of the tags of a line (prometheus_utils.cpp) does not matter.
use mathlib.Core.List.{Perm, Permᴰ}
use mathlib.Core.List.Perm
use mathlib.Core.Logic.{∥∥₁_elim}
use bb_monitor.Base.{
  ◌≡◌, refl, sym, ap, ◌∙◌, Bool, true, ◌||◌, ◌&&◌, List, [], ◌∷◌, ◌++◌, Bytes, arith, Bool-cases,
  inl, inr,
}
use bb_monitor.Messages.{Label}
use bb_monitor.Prometheus.{bytes_lt, job_labels, parse_bb_metrics_labels}
use bb_monitor.Prometheus.Sorted.{
  bytes_lt_asymm, bytes_lt_trans, IsSort, insert_label, insert_labels, insertion_sort,
  insertion_sort-sorted,
}
use bb_monitor.Prometheus.Labels.{all_tags, render_tags, parse_labels-render}

insert_label-lt :
    (a b : Label) (ms : List Label)
    → bytes_lt a.key b.key ≡ true
    → insert_label a (insert_label b ms) ≡ insert_label b (insert_label a ms)
unfolding insert_label
insert_label-lt a b [] h = ground (arith, h, bytes_lt_asymm a.key b.key h)
insert_label-lt a b (m ∷ ms) h = elim (Bool-cases (bytes_lt b.key m.key)) [
  | inl e ↦ ground (arith, h, e, bytes_lt_asymm a.key b.key h, bytes_lt_trans a.key b.key m.key h e)
  | inr e ↦ elim (Bool-cases (bytes_lt a.key m.key)) [
    | inl f ↦ ground (arith, h, e, f, bytes_lt_asymm a.key b.key h)
    | inr f ↦ ground (arith, h, e, f, insert_label-lt a b ms h)
  ]
]

abbrev pub differ : Label → Label → Bool
differ a b = bytes_lt a.key b.key || bytes_lt b.key a.key

insert_label-insert_label :
    (a b : Label) (ms : List Label)
    → differ a b ≡ true
    → insert_label a (insert_label b ms) ≡ insert_label b (insert_label a ms)
insert_label-insert_label a b ms h = elim (Bool-cases (bytes_lt a.key b.key)) [
  | inl e ↦ insert_label-lt a b ms e
  | inr e ↦ sym (insert_label-lt b a ms (ground (arith, h, e)))
]

-- The label's key differs from those of the others.
abbrev pub differs_from : Label → List Label → Bool
differs_from a [] = true
differs_from a (l ∷ ls) = differ a l && differs_from a ls

-- No two labels have the same key.
abbrev pub all_differ : List Label → Bool
all_differ [] = true
all_differ (l ∷ ls) = differs_from l ls && all_differ ls

differs_from-Permᴰ :
    (a : Label) {ls ms : List Label} → Permᴰ ls ms → differs_from a ls ≡ differs_from a ms
differs_from-Permᴰ a Permᴰ.nil = refl
differs_from-Permᴰ a (Permᴰ.cons e d) = cc (e, differs_from-Permᴰ a d)
differs_from-Permᴰ a (Permᴰ.swap {a = x} {b = y} {l = l} e f) =
    and_swap (differ a x) (differ a y) (differs_from a l) ∙ cc (e, f)
  where
    and_swap : (p q r : Bool) → (p && (q && r)) ≡ (q && (p && r))
    and_swap p q r = ground arith
differs_from-Permᴰ a (Permᴰ.trans d e) = differs_from-Permᴰ a d ∙ differs_from-Permᴰ a e

all_differ-swap : (x y : Label) (l : List Label) → all_differ (x ∷ y ∷ l) ≡ all_differ (y ∷ x ∷ l)
all_differ-swap x y l = ground arith

all_differ-Permᴰ : {ls ms : List Label} → Permᴰ ls ms → all_differ ls ≡ all_differ ms
all_differ-Permᴰ Permᴰ.nil = refl
all_differ-Permᴰ (Permᴰ.cons {a = a} e d) = cc (e, differs_from-Permᴰ a d, all_differ-Permᴰ d)
all_differ-Permᴰ (Permᴰ.swap {a = x} {b = y} {l = l} e f) = all_differ-swap x y l ∙ cc (e, f)
all_differ-Permᴰ (Permᴰ.trans d e) = all_differ-Permᴰ d ∙ all_differ-Permᴰ e

insert_labels-Permᴰ :
    {ls ms : List Label} (sorted : List Label)
    → Permᴰ ls ms
    → all_differ ls ≡ true
    → insert_labels ls sorted ≡ insert_labels ms sorted
unfolding insert_labels
insert_labels-Permᴰ sorted Permᴰ.nil h = refl
insert_labels-Permᴰ sorted (Permᴰ.cons {a = a} {l₂ = ms} e d) h =
    insert_labels-Permᴰ (insert_label a sorted) d (ground (arith, h))
    ∙ ap (λ x. insert_labels ms (insert_label x sorted)) e
insert_labels-Permᴰ sorted (Permᴰ.swap {a = x} {b = y} {l = l} e f) h =
    ap (insert_labels l) (sym (insert_label-insert_label x y sorted (ground (arith, h))))
    ∙ cc (e, f)
insert_labels-Permᴰ sorted (Permᴰ.trans d e) h =
    insert_labels-Permᴰ sorted d h ∙ insert_labels-Permᴰ sorted e (sym (all_differ-Permᴰ d) ∙ h)

labels-IsSet : IsSet (List Label)
labels-IsSet = hlevel

insertion_sort-Perm :
    {ls ms : List Label} → Perm ls ms → all_differ ls ≡ true → insertion_sort ls ≡ insertion_sort ms
insertion_sort-Perm {ls} {ms} p h =
    ∥∥₁_elim p (labels-IsSet (insertion_sort ls) (insertion_sort ms))
      (λ d. insert_labels-Permᴰ [] d h)

module _ (sort : List Label → List Label) (law : IsSort sort) where
  -- Where no two keys are equal, there is one way to sort.
  sort-insertion_sort : (ls : List Label) → all_differ ls ≡ true → sort ls ≡ insertion_sort ls
  sort-insertion_sort ls h =
      sym (insertion_sort-sorted (sort ls) (law.sorted ls))
      ∙ sym (insertion_sort-Perm (Perm.symm (law.rearranged ls)) h)

  sort-Perm : {ls ms : List Label} → Perm ls ms → all_differ ls ≡ true → sort ls ≡ sort ms
  sort-Perm {ls} {ms} p h =
      let differ_too : all_differ ms ≡ true =
        ∥∥₁_elim p (hlevel) (λ d. sym (all_differ-Permᴰ d) ∙ h) in
      sort-insertion_sort ls h ∙ insertion_sort-Perm p h ∙ sym (sort-insertion_sort ms differ_too)

  -- Whatever `std::sort` does with labels of equal keys, two texts with the same quoted tags in
  -- different orders give the same labels, in the same order, if no two of the tags and of the labels
  -- that are added for job and instance have the same key. The keys of the tags are not empty and have
  -- no `=` and no comma; the values are not empty, do not start with a space, and have no quote and no
  -- comma.
  pub parse_bb_metrics_labels-Perm :
      (job_id instance_id : Bytes) (ls ms : List Label)
      → Perm ls ms
      → all_differ (ls ++ job_labels job_id instance_id) ≡ true
      → all_tags ls ≡ true
      → all_tags ms ≡ true
      → parse_bb_metrics_labels sort job_id instance_id (render_tags ls)
        ≡ parse_bb_metrics_labels sort job_id instance_id (render_tags ms)
  parse_bb_metrics_labels-Perm job_id instance_id ls ms p d h k =
      parse_labels-render sort job_id instance_id ls h
      ∙ sort-Perm (Perm.append_right (job_labels job_id instance_id) p) d
      ∙ sym (parse_labels-render sort job_id instance_id ms k)
