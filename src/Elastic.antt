-- ===== src/Elastic.antt =====
-- libraries/bb_monitor_client_utils/elasticsearch_log_sink.cpp: log lines as documents for Elasticsearch.
-- `escape_json` (of the kspp library) and `date_from_nanos` are parameters.
pub mod Container
mod Tests
use bb_monitor.Base.{
  ℕ, suc, ◌+◌, Bool, true, false, ◌&&◌, Option, none, some, List, [], ◌∷◌, ◌++◌, Bytes, bytes_eq,
  codes, is_empty, length, ltb, ◌==◌, ℤ, pos, negsuc, int_leb, if◌then◌else◌,
}
use bb_monitor.LogProxy.Line.{is_prefix}
use bb_monitor.Messages.{Label, AvroLogline}

-- `find_last_of(c)`: the text before the last `c`, and the text behind it.
unfoldable pub cut_last : ℕ → Bytes → Option (Bytes × Bytes)
cut_last c [] = none
cut_last c (x ∷ s) = elim (cut_last c s) [
  | some (before, rest) ↦ some (x ∷ before, rest)
  | none ↦ elim (x == c) [ true ↦ some ([], s) | false ↦ none ]
]

-- The code, `container_ns` and `container_name`.
pub record Split : Type 0 where
  pub code : ℤ
  pub container_ns : Bytes
  pub container_name : Bytes

abbrev pub no_split : Split
no_split = record { code = negsuc 0; container_ns = []; container_name = [] }

-- What stands behind the slash before the last; a slash in front of the text counts as none.
abbrev pub container_of : Bytes → Bytes
container_of s = elim (cut_last 47 s) [
  | none ↦ s
  | some ([], _) ↦ s
  | some (_ ∷ _, container) ↦ container
]

-- `find_last_of('_', end)`, where no text before it is refused as well.
abbrev pub underscore : Bytes → (Bytes → Bytes → Split) → Split
underscore s go = elim (cut_last 95 s) [
  | none ↦ no_split
  | some ([], _) ↦ no_split
  | some (c ∷ before, rest) ↦ go (c ∷ before) rest
]

-- A container of Kubernetes: k8s_<container>_<pod>_<namespace>_<uid>_<attempt>
abbrev pub split_k8s : Bytes → Split
split_k8s container = elim (cut_last 95 container) [
  | none ↦ no_split
  | some (before, _) ↦ elim (ltb (length before) 10) [
    | true ↦ no_split
    | false ↦ underscore before (λ before_uid uid.
        underscore before_uid
          (λ name ns. record { code = pos 0; container_ns = ns; container_name = name }))
  ]
]

unfoldable pub split_splunk_tag : Bytes → Split
split_splunk_tag s = elim (cut_last 47 s) [
  | none ↦ no_split
  | some (before, _) ↦ elim (ltb (length before) 2) [
    | true ↦ no_split
    | false ↦
        let container = container_of before in
        elim (is_prefix (codes "k8s_") container) [
          | true ↦ split_k8s container
          | false ↦ record { code = pos 0; container_ns = []; container_name = container }
        ]
  ]
]

-- The loop over the tags: the last one with the key "tag" counts.
abbrev pub splunk_tags : List Label → Split → Split
splunk_tags [] found = found
splunk_tags (i ∷ tags) found =
    splunk_tags tags (if bytes_eq i.key (codes "tag") then split_splunk_tag i.value else found)

module _ (escape_json : Bytes → Bytes) (date_from_nanos : ℤ → Bytes) where
  -- , "key": "value"
  abbrev pub member : Bytes → Bytes → Bytes
  member key value = codes ", \"" ++ (key ++ (codes "\": \"" ++ (escape_json value ++ codes "\"")))

  abbrev pub member_if : Bytes → Bytes → Bytes
  member_if key value = if is_empty value then [] else member key value

  abbrev pub tag_members : List Label → Bytes
  tag_members [] = []
  tag_members (i ∷ tags) = member (escape_json i.key) i.value ++ tag_members tags

  -- The lambda that makes a document of a log line.
  unfoldable pub document : AvroLogline → Bytes
  document l =
      let split = splunk_tags l.tags no_split in
      codes "{\"timestamp\": \""
      ++ (date_from_nanos l.timestamp_ns
          ++ (codes "\""
              ++ (member (codes "agent") l.agent
                  ++ (member (codes "host") l.host
                      ++ (member (codes "source") l.source
                          ++ (member (codes "line") l.line
                              ++ (member_if (codes "k8s_ns") split.container_ns
                                  ++ (member_if (codes "k8s_name") split.container_name
                                      ++ (tag_members l.tags ++ codes "}")))))))))

-- An event of the queue, `none` for a null pointer.
pub record Event (E : Type 0) : Type 0 where
  pub event_time : ℤ
  pub value : E

-- `inserted` is what went to the producer.
pub record ElasticSink (E : Type 0) : Type 0 where
  pub queue : List (Option (Event E))
  pub inserted : List (Event E)
  pub processed_count : ℕ

module _ {E : Type 0} where
  abbrev pub insert : Event E → ElasticSink E → ElasticSink E
  insert p s = record s { inserted = s.inserted ++ p ∷ []; processed_count = s.processed_count + 1 }

  -- The loop of `process` on a queue: how many it processed, and the sink.
  unfoldable pub process_queue : ℤ → List (Option (Event E)) → ElasticSink E → ℕ × ElasticSink E
  process_queue tick [] s = (0, record s { queue = [] })
  process_queue tick (none ∷ q) s = (0, record s { queue = none ∷ q })
  process_queue tick (some p ∷ q) s = elim (int_leb p.event_time tick) [
    | false ↦ (0, record s { queue = some p ∷ q })
    | true ↦ let (processed, t) = process_queue tick q (insert p s) in (suc processed, t)
  ]

  abbrev pub process : ℤ → ElasticSink E → ℕ × ElasticSink E
  process tick s = process_queue tick s.queue s
