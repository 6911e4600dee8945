-- ===== src/Prometheus/Tests.antt =====
-- The text format of Prometheus (prometheus_utils.cpp, avro_prometheus_utils.cpp) on concrete texts,
-- with the text itself for `double`.
use mathlib.Core.List.{Perm}
use mathlib.Core.List.Perm
use bb_monitor.Base.{none, ℕ, ◌≡◌, refl, some, List, [], ◌∷◌, Bytes, codes, ℤ, pos, negsuc, ◌+◌}
use bb_monitor.Base.Text.{cut, drop_all}
use bb_monitor.Messages.{Label, Metric, double_value}
use bb_monitor.Prometheus.{
  atoll, drop_quotes, parse_bb_metrics_label, parse_prometheus_tag, parse_labels,
  parse_bb_metrics_labels, tags_from, job_labels, sampled, parse_line, on_line, lines_from,
  parse_prometheus_line_format_2_bb_metrics,
}
use bb_monitor.Prometheus.Sorted.{
  insert_label, insert_labels, insertion_sort, insertion_sort-IsSort,
}
use bb_monitor.Prometheus.Reordered.{parse_bb_metrics_labels-Perm}
use bb_monitor.Prometheus.RoundTrip.{Row, on_line-render}

abbrev label : Bytes → Bytes → Label
label k v = record { key = k; value = v }

abbrev raw : Bytes → Bytes
raw s = s

abbrev clock : ℕ → ℤ
clock i = pos (100 + i)

negative_time : atoll (codes " -39 x") ≡ negsuc 38
negative_time = refl

-- The first tag is sorted behind the two that are added.
posted :
    parse_bb_metrics_labels insertion_sort
      (codes "api")
      (codes "h1")
      (codes "method=\"post\",code=\"200\"")
    ≡ label (codes "code") (codes "200")
      ∷ label (codes "instance") (codes "h1")
      ∷ label (codes "job") (codes "api")
      ∷ label (codes "method") (codes "post")
      ∷ []
unfolding parse_labels tags_from parse_bb_metrics_label drop_quotes cut insert_labels insert_label
posted = refl

-- The value of the empty second tag is read out of the third.
overread :
    tags_from parse_bb_metrics_label 9 0 (codes "aaaa=\"x\",b=\"\",c=\"y\"") []
    ≡ label (codes "aaaa") (codes "x")
      ∷ label (codes "b") (codes ",c=")
      ∷ label (codes "c") (codes "y")
      ∷ []
unfolding tags_from parse_bb_metrics_label drop_quotes cut
overread = refl

avro_tag : parse_prometheus_tag (codes "a b=\"c d\"") ≡ label (codes "a_b") (codes "c_d")
unfolding parse_bb_metrics_label drop_quotes cut
avro_tag = refl

abbrev plain_metric : Bytes → Bytes → ℤ → Metric Bytes
plain_metric name value ts = record {
  ns = codes "api";
  name = name;
  labels = [];
  sample = double_value value;
  timestamp = ts;
}

two_lines :
    parse_prometheus_line_format_2_bb_metrics raw insertion_sort clock
      (codes "api")
      []
      (codes "# TYPE\nup 1\n\nload 0.5 77\nlost 3")
    ≡ plain_metric (codes "up") (codes "1") (pos 100)
      ∷ plain_metric (codes "load") (codes "0.5") (pos 77)
      ∷ []
unfolding parse_prometheus_line_format_2_bb_metrics lines_from parse_line sampled cut drop_all
two_lines = refl

abbrev hits : Row
hits = record {
  name = codes "hits";
  labels = some (label (codes "code") (codes "200") ∷ []);
  value = codes "1027";
  ts = none;
}

on_line-render_example :
    on_line raw insertion_sort (pos 100) (codes "api") [] (codes "hits{code=\"200\"} 1027")
    ≡ some (record {
      ns = codes "api";
      name = codes "hits";
      labels = insertion_sort (label (codes "code") (codes "200") ∷ job_labels (codes "api") []);
      sample = double_value (codes "1027");
      timestamp = pos 100;
    })
unfolding cut
on_line-render_example = on_line-render raw insertion_sort (pos 100) (codes "api") [] hits refl

-- A quote that is written with a backslash ends the value.
escaped_quote :
    parse_bb_metrics_label (codes "error=\"file:\\\"FILE.TXT\\\"\"")
    ≡ label (codes "error") (codes "file:\\")
unfolding parse_bb_metrics_label drop_quotes cut
escaped_quote = refl

-- code, host and zone, and the same with zone in front.
abbrev three_tags : List Label
three_tags =
    label (codes "code") (codes "200")
    ∷ label (codes "host") (codes "a")
    ∷ label (codes "zone") (codes "b")
    ∷ []

abbrev moved_tags : List Label
moved_tags =
    label (codes "zone") (codes "b")
    ∷ label (codes "code") (codes "200")
    ∷ label (codes "host") (codes "a")
    ∷ []

zone_moved : Perm three_tags moved_tags
zone_moved =
    Perm.trans
      (Perm.cons (label (codes "code") (codes "200"))
        (Perm.swap (label (codes "zone") (codes "b")) (label (codes "host") (codes "a")) []))
      (Perm.swap (label (codes "zone") (codes "b")) (label (codes "code") (codes "200"))
        (label (codes "host") (codes "a") ∷ []))

parse_bb_metrics_labels-Perm_example :
    parse_bb_metrics_labels insertion_sort
      (codes "api")
      (codes "h1")
      (codes "code=\"200\",host=\"a\",zone=\"b\"")
    ≡ parse_bb_metrics_labels insertion_sort
        (codes "api")
        (codes "h1")
        (codes "zone=\"b\",code=\"200\",host=\"a\"")
parse_bb_metrics_labels-Perm_example =
    parse_bb_metrics_labels-Perm insertion_sort insertion_sort-IsSort (codes "api") (codes "h1")
      three_tags moved_tags zone_moved refl refl refl
