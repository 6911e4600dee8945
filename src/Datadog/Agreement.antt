-- ===== src/Datadog/Agreement.antt =====
-- The parts of the series parsers of avro_json_parsing.cpp and pb_json_parsing.cpp that come before the
-- points make the same of a series: namespace, name and labels.
use bb_monitor.Base.{
  ◌≡◌, refl, sym, ap, ◌∙◌, Option, none, some, List, [], ◌∷◌, ◌++◌, Bytes, codes, ℤ, pos, arith,
  append_assoc, append-nil, Option-cases, inl, inr,
}
use bb_monitor.Base.Text.{cut}
use bb_monitor.Messages.{Label, Metric, not_set}
use bb_monitor.Datadog.{
  Rapidjson, string_at, int_at, array_at, replace, split_name, tag_label, tag_onto, tag_labels,
  text_label, interval_label, serie_labels,
}
use bb_monitor.Datadog.Pb.{
  new_metric, set_name, add_text, add_interval, add_tag, add_tags, add_fields, pb_start,
}

-- The metric with more labels behind its own.
abbrev with_labels : {D : Type 0} → Metric D → List Label → Metric D
with_labels m ls = record m { labels = m.labels ++ ls }

with_labels-nil : {D : Type 0} (m : Metric D) → with_labels m [] ≡ m
with_labels-nil m = ap (λ ls. record m { labels = ls }) (append-nil m.labels)

with_labels-append :
    {D : Type 0} (m : Metric D) (ls more : List Label)
    → with_labels (with_labels m ls) more ≡ with_labels m (ls ++ more)
with_labels-append m ls more = ap (λ l. record m { labels = l }) (append_assoc m.labels ls more)

module _ {V D : Type 0} (j : Rapidjson V D) where
  add_text-text_label :
      (key : Bytes) (value : Option Bytes) (m : Metric D)
      → add_text key value m ≡ with_labels m (text_label j key value)
  add_text-text_label key none m = sym (with_labels-nil m)
  add_text-text_label key (some value) m = refl

  add_interval-interval_label :
      (n : Option ℤ) (m : Metric D) → add_interval n m ≡ with_labels m (interval_label j n)
  add_interval-interval_label none m = sym (with_labels-nil m)
  add_interval-interval_label (some n) m = refl

  add_tag-tag_onto :
      (t : V) (m : Metric D) (ls : List Label)
      → with_labels (add_tag j t m) ls ≡ with_labels m (tag_onto j t ls)
  add_tag-tag_onto t m ls = elim (Option-cases (j.as_string t)) [
    | inl e ↦ ground (arith, e)
    | inr (s, e) ↦ elim (Option-cases (cut 58 s)) [
      | inl f ↦ ground (arith, e, f)
      | inr ((key, value), f) ↦
          let l : Label = record { key = replace 32 95 key; value = replace 32 95 value } in
          rw (e, f, add_tag, tag_onto, tag_label) (with_labels-append m (l ∷ []) ls)
    ]
  ]

  add_tags-tag_labels :
      (ts : List V) (m : Metric D) → add_tags j ts m ≡ with_labels m (tag_labels j ts)
  add_tags-tag_labels [] m = sym (with_labels-nil m)
  add_tags-tag_labels (t ∷ ts) m =
      add_tags-tag_labels ts (add_tag j t m) ∙ add_tag-tag_onto t m (tag_labels j ts)

  add_fields-with_labels :
      (s : V) (m : Metric D)
      → add_fields j s m
        ≡ with_labels m (
            text_label j (codes "dd_host") (string_at j (codes "host") s)
            ++ (text_label j (codes "dd_type") (string_at j (codes "type") s)
                ++ (interval_label j (int_at j (codes "interval") s)
                    ++ text_label j (codes "dd_device") (string_at j (codes "device") s))))
  add_fields-with_labels s m =
      let host = string_at j (codes "host") s in
      let type = string_at j (codes "type") s in
      let interval = int_at j (codes "interval") s in
      let device = string_at j (codes "device") s in
      let a = text_label j (codes "dd_host") host in
      let b = text_label j (codes "dd_type") type in
      let c = interval_label j interval in
      let d = text_label j (codes "dd_device") device in
      ap
        (λ k.
          add_text (codes "dd_device") device
            (add_interval interval (add_text (codes "dd_type") type k)))
        (add_text-text_label (codes "dd_host") host m)
      ∙ ap (λ k. add_text (codes "dd_device") device (add_interval interval k))
          (add_text-text_label (codes "dd_type") type (with_labels m a))
      ∙ ap (add_text (codes "dd_device") device)
          (add_interval-interval_label interval (with_labels (with_labels m a) b))
      ∙ add_text-text_label (codes "dd_device") device
          (with_labels (with_labels (with_labels m a) b) c)
      ∙ with_labels-append (with_labels (with_labels m a) b) c d
      ∙ with_labels-append (with_labels m a) b (c ++ d)
      ∙ with_labels-append m a (b ++ (c ++ d))

  set_name-split_name :
      (raw_name : Bytes) (m : Metric D)
      → set_name raw_name m
        ≡ record m { ns = (split_name raw_name).0; name = (split_name raw_name).1 }
  set_name-split_name raw_name m = ground arith

  pub pb_start-split_name :
      (raw_name : Bytes) (s : V)
      → pb_start j raw_name s ≡ record {
        ns = (split_name raw_name).0;
        name = (split_name raw_name).1;
        labels = serie_labels j s;
        sample = not_set;
        timestamp = pos 0;
      }
  pb_start-split_name raw_name s =
      let tags = array_at j (codes "tags") s in
      let named = set_name raw_name new_metric in
      let fields =
        text_label j (codes "dd_host") (string_at j (codes "host") s)
        ++ (text_label j (codes "dd_type") (string_at j (codes "type") s)
            ++ (interval_label j (int_at j (codes "interval") s)
                ++ text_label j (codes "dd_device") (string_at j (codes "device") s))) in
      add_fields-with_labels s (add_tags j tags named)
      ∙ ap (λ m. with_labels m fields) (add_tags-tag_labels tags named)
      ∙ with_labels-append named (tag_labels j tags) fields
      ∙ ap (λ m. with_labels m (serie_labels j s)) (set_name-split_name raw_name new_metric)
