-- ===== src/Prometheus/Labels.antt =====
-- The tags between the braces of a line (prometheus_utils.cpp): what is cut out is too long from the
-- second tag on, and the labels are right all the same when each value has its quotes.
use bb_monitor.Base.{
  ℕ, zero, suc, ◌+◌, ◌<◌, ◌≤◌, ◌≡◌, ◌≢◌, refl, sym, ap, ◌∙◌, Bool, true, false, ◌&&◌, ◌||◌, not,
  none, some, List, [], ◌∷◌, ◌++◌, Bytes, length, take, length-append, arith, append_assoc,
  append-nil, ◌==◌,
}
use bb_monitor.Base.Text.{cut, cut-append, cut-free, is_free_of, is_free_of-append}
use bb_monitor.Messages.{Label}
use bb_monitor.Prometheus.{
  drop_quotes, parse_bb_metrics_label, push_named, tags_from, job_labels, parse_labels,
  parse_bb_metrics_labels,
}

-- A value that starts with neither quote nor space, and holds no quote and no comma.
abbrev pub is_value : Bytes → Bool
is_value [] = false
is_value (c ∷ v) = not (c == 34 || c == 32) && (is_free_of 34 (c ∷ v) && is_free_of 44 (c ∷ v))

-- A key that is not empty and holds neither `=` nor a comma.
abbrev pub is_key : Bytes → Bool
is_key [] = false
is_key (c ∷ k) = is_free_of 61 (c ∷ k) && is_free_of 44 (c ∷ k)

abbrev pub all_tags : List Label → Bool
all_tags [] = true
all_tags (l ∷ ls) = (is_key l.key && is_value l.value) && all_tags ls

-- key="value"
abbrev pub render_tag : Label → Bytes
render_tag l = l.key ++ 61 ∷ 34 ∷ (l.value ++ 34 ∷ [])

abbrev pub render_tags : List Label → Bytes
render_tags [] = []
render_tags (l ∷ []) = render_tag l
render_tags (l ∷ (m ∷ ms)) = render_tag l ++ 44 ∷ render_tags (m ∷ ms)

drop_quotes-value :
    (v rest : Bytes) → is_value v ≡ true → drop_quotes (34 ∷ (v ++ rest)) ≡ v ++ rest
unfolding drop_quotes
drop_quotes-value [] rest h = cc h
drop_quotes-value (c ∷ v) rest h = ground (arith, h)

key-equals : (k : Bytes) → is_key k ≡ true → is_free_of 61 k ≡ true
key-equals [] h = refl
key-equals (c ∷ k) h = ground (arith, h)

-- Behind the second quote of a tag nothing is read.
parse_bb_metrics_label-quoted :
    (key value more : Bytes)
    → is_key key ≡ true
    → is_value value ≡ true
    → parse_bb_metrics_label (key ++ 61 ∷ 34 ∷ (value ++ 34 ∷ more))
      ≡ record { key = key; value = value }
unfolding parse_bb_metrics_label
parse_bb_metrics_label-quoted key [] more h k = cc k
parse_bb_metrics_label-quoted key (c ∷ v) more h k = ground (
  arith,
  h,
  k,
  cut-append 61 key (34 ∷ (c ∷ (v ++ 34 ∷ more))) (key-equals key h),
  drop_quotes-value (c ∷ v) (34 ∷ more),
  cut-append 34 v more,
)

render_tag-append :
    (l : Label) (more : Bytes) → render_tag l ++ more ≡ l.key ++ 61 ∷ 34 ∷ (l.value ++ 34 ∷ more)
render_tag-append l more =
    append_assoc l.key (61 ∷ 34 ∷ (l.value ++ 34 ∷ [])) more
    ∙ ap (λ r. l.key ++ 61 ∷ 34 ∷ r) (append_assoc l.value (34 ∷ []) more)

parse_bb_metrics_label-render :
    (l : Label) (more : Bytes)
    → is_key l.key ≡ true
    → is_value l.value ≡ true
    → parse_bb_metrics_label (render_tag l ++ more) ≡ l
parse_bb_metrics_label-render l more h k =
    ap parse_bb_metrics_label (render_tag-append l more)
    ∙ parse_bb_metrics_label-quoted l.key l.value more h k

key-comma : (k : Bytes) → is_key k ≡ true → is_free_of 44 k ≡ true
key-comma [] h = refl
key-comma (c ∷ k) h = ground (arith, h)

value-comma : (v : Bytes) → is_value v ≡ true → is_free_of 44 v ≡ true
value-comma [] h = refl
value-comma (c ∷ v) h = ground (arith, h)

render_tag-comma :
    (l : Label)
    → is_key l.key ≡ true
    → is_value l.value ≡ true
    → is_free_of 44 (render_tag l) ≡ true
render_tag-comma l h k = ground (
  arith,
  is_free_of-append 44 l.key (61 ∷ 34 ∷ (l.value ++ 34 ∷ [])),
  is_free_of-append 44 l.value (34 ∷ []),
  key-comma l.key h,
  value-comma l.value k,
)

push_named-key :
    (ls : List Label) (l : Label) → is_key l.key ≡ true → push_named ls l ≡ ls ++ l ∷ []
push_named-key ls l h = ground (arith, h)

take-add : (n : ℕ) (xs ys : Bytes) → take (n + length xs) (xs ++ ys) ≡ xs ++ take n ys
take-add n [] ys = let e : n + 0 ≡ n = omega arith in ap (λ k. take k ys) e
take-add n (x ∷ xs) ys =
    let e : n + suc (length xs) ≡ suc (n + length xs) = omega arith in
    ap (λ k. take k (x ∷ (xs ++ ys))) e ∙ ap (λ r. x ∷ r) (take-add n xs ys)

-- One round of the loop, at a comma and at the end.
tags_from-comma :
    (parse : Bytes → Label) (n cursor : ℕ) (s before after : Bytes) (ls : List Label)
    → cut 44 s ≡ some (before, after)
    → tags_from parse (suc n) cursor s ls
      ≡ tags_from parse n
          (cursor + length before + 1)
          after
          (push_named ls (parse (take (cursor + length before) s)))
unfolding tags_from cut
tags_from-comma parse n cursor [] before after ls e = cc e
tags_from-comma parse n cursor (c ∷ s) before after ls e = ground (arith, e)

tags_from-end :
    (parse : Bytes → Label) (n cursor : ℕ) (s : Bytes) (ls : List Label)
    → cut 44 s ≡ none
    → s ≢ []
    → tags_from parse (suc n) cursor s ls ≡ push_named ls (parse s)
unfolding tags_from
tags_from-end parse n cursor [] ls e h = absurd (h refl)
tags_from-end parse n cursor (c ∷ s) ls e h = ground (arith, e)

render_tag-ne-nil : (l : Label) → is_key l.key ≡ true → render_tag l ≢ []
render_tag-ne-nil l h e = ground arith

tags_from-nil :
    (parse : Bytes → Label) (n cursor : ℕ) (ls : List Label)
    → tags_from parse (suc n) cursor [] ls ≡ ls
unfolding tags_from
tags_from-nil parse n cursor ls = refl

tags_from-render :
    (n cursor : ℕ) (ls acc : List Label)
    → all_tags ls ≡ true
    → length ls < n
    → tags_from parse_bb_metrics_label n cursor (render_tags ls) acc ≡ acc ++ ls
tags_from-render zero cursor ls acc h k = absurd (omega (arith, k))
tags_from-render (suc n) cursor [] acc h k =
    tags_from-nil parse_bb_metrics_label n cursor acc ∙ sym (append-nil acc)
tags_from-render (suc n) cursor (l ∷ []) acc h k =
    let parsed : parse_bb_metrics_label (render_tag l) ≡ l =
      ap parse_bb_metrics_label (sym (append-nil (render_tag l)))
      ∙ parse_bb_metrics_label-render l [] (ground arith) (ground arith) in
    tags_from-end parse_bb_metrics_label n cursor (render_tag l) acc
      (cut-free 44 (render_tag l) (render_tag-comma l (ground arith) (ground arith)))
      (render_tag-ne-nil l (ground arith))
    ∙ ap (push_named acc) parsed
    ∙ push_named-key acc l (ground arith)
tags_from-render (suc n) cursor (l ∷ (m ∷ ms)) acc h k =
    let later = render_tags (m ∷ ms) in
    let s = render_tag l ++ 44 ∷ later in
    let found =
      cut-append 44 (render_tag l) later (render_tag-comma l (ground arith) (ground arith)) in
    let parsed : parse_bb_metrics_label (take (cursor + length (render_tag l)) s) ≡ l =
      ap parse_bb_metrics_label (take-add cursor (render_tag l) (44 ∷ later))
      ∙ parse_bb_metrics_label-render l (take cursor (44 ∷ later)) (ground arith) (ground arith) in
    tags_from-comma parse_bb_metrics_label n cursor s (render_tag l) later acc found
    ∙ ap (tags_from parse_bb_metrics_label n (cursor + length (render_tag l) + 1) later)
        (ap (push_named acc) parsed ∙ push_named-key acc l (ground arith))
    ∙ tags_from-render n (cursor + length (render_tag l) + 1) (m ∷ ms) (acc ++ l ∷ [])
        (ground arith) (omega (arith, k))
    ∙ append_assoc acc (l ∷ []) (m ∷ ms)

length-render_tags : (ls : List Label) → length ls ≤ length (render_tags ls)
length-render_tags [] = omega arith
length-render_tags (l ∷ []) = omega (arith, length-append l.key (61 ∷ 34 ∷ (l.value ++ 34 ∷ [])))
length-render_tags (l ∷ (m ∷ ms)) =
    omega
      (arith, length-append (render_tag l) (44 ∷ render_tags (m ∷ ms)), length-render_tags (m ∷ ms))

pub parse_labels-render :
    (sort : List Label → List Label) (job_id instance_id : Bytes) (ls : List Label)
    → all_tags ls ≡ true
    → parse_bb_metrics_labels sort job_id instance_id (render_tags ls)
      ≡ sort (ls ++ job_labels job_id instance_id)
unfolding parse_labels
parse_labels-render sort job_id instance_id ls h =
    ap (λ t. sort (t ++ job_labels job_id instance_id))
      (tags_from-render (suc (length (render_tags ls))) 0 ls [] h
        (omega (arith, length-render_tags ls)))
