-- ===== src/LogProxy/Line/RoundTrip.antt =====
-- A line as the Datadog agent writes it, through `handle_line` of the log proxy (main.cpp).
use bb_monitor.Base.{
  ℕ, ◌≡◌, refl, ◌∙◌, Bool, true, ◌&&◌, some, List, [], ◌∷◌, ◌++◌, map, Bytes, codes, ℤ, arith,
}
use bb_monitor.Base.Text.{cut-append, until, is_free_of}
use bb_monitor.Messages.{LogLine}
use bb_monitor.KvFilter.{Kv}
use bb_monitor.KvFilter.RoundTrip.{all_plain, render, kv_match-quoted}
use bb_monitor.LogProxy.Line.{
  inserted, search_for, dd_kv_parser, kv_label, handle_labels, handle_line,
}

-- A pattern that starts with "dd " does not start in a word before a quote.
pub search_for-word :
    (p s rest : Bytes)
    → is_free_of 32 s ≡ true
    → search_for (100 ∷ 100 ∷ 32 ∷ p) (s ++ 34 ∷ rest) ≡ search_for (100 ∷ 100 ∷ 32 ∷ p) (34 ∷ rest)
unfolding search_for
search_for-word p [] rest h = refl
search_for-word p (x ∷ []) rest h = ground arith
search_for-word p (x ∷ (y ∷ [])) rest h = ground arith
search_for-word p (x ∷ (y ∷ (z ∷ s))) rest h =
    ground (arith, h, search_for-word p (y ∷ (z ∷ s)) rest)

-- ="category"][dd ddtags="..."] and the text
abbrev labels_text : Bytes → Bytes → Bytes → Bytes → Bytes
labels_text ddsource category tags text =
    codes "[dd ddsource=\""
    ++ (ddsource
        ++ (codes "\"][dd ddsourcecategory=\""
            ++ (category ++ (codes "\"][dd ddtags=" ++ (tags ++ 93 ∷ text)))))

found_source :
    (ddsource category tags text : Bytes)
    → search_for (codes "dd ddsource") (labels_text ddsource category tags text)
      ≡ some (
          codes "=\""
          ++ (ddsource
              ++ (codes "\"][dd ddsourcecategory=\""
                  ++ (category ++ (codes "\"][dd ddtags=" ++ (tags ++ 93 ∷ text))))))
unfolding search_for
found_source ddsource category tags text = refl

found_category :
    (ddsource category tags text : Bytes)
    → is_free_of 32 ddsource ≡ true
    → search_for (codes "dd ddsourcecategory") (labels_text ddsource category tags text)
      ≡ some (codes "=\"" ++ (category ++ (codes "\"][dd ddtags=" ++ (tags ++ 93 ∷ text))))
unfolding search_for
found_category ddsource category tags text h =
    search_for-word (codes "ddsourcecategory") ddsource
      (codes "][dd ddsourcecategory=\""
        ++ (category ++ (codes "\"][dd ddtags=" ++ (tags ++ 93 ∷ text))))
      h

found_tags :
    (ddsource category tags text : Bytes)
    → is_free_of 32 ddsource ≡ true
    → is_free_of 32 category ≡ true
    → search_for (codes "dd ddtags=") (labels_text ddsource category tags text)
      ≡ some (tags ++ 93 ∷ text)
unfolding search_for
found_tags ddsource category tags text h k =
    search_for-word (codes "ddtags=") ddsource
      (codes "][dd ddsourcecategory=\""
        ++ (category ++ (codes "\"][dd ddtags=" ++ (tags ++ 93 ∷ text))))
      h
    ∙ search_for-word (codes "ddtags=") category (codes "][dd ddtags=" ++ (tags ++ 93 ∷ text)) k

-- What the agent writes in front of the text of a line.
pub record AgentLine : Type 0 where
  pub api_key : Bytes
  pub priority : Bytes
  pub collection_time : Bytes
  pub host : Bytes
  pub source : Bytes
  pub unknown_1 : Bytes
  pub unknown_2 : Bytes
  pub ddsource : Bytes
  pub ddsource_category : Bytes
  pub ddtags : List Kv

abbrev pub quoted_tags : List Kv → Bytes
quoted_tags kvs = 34 ∷ (render 44 58 kvs ++ 34 ∷ [])

-- The words and values hold no byte that ends them, and the tags no byte that the parser splits at.
abbrev pub is_agent_line : AgentLine → Bool
is_agent_line a =
    is_free_of 32 a.api_key
    && (is_free_of 32 a.priority
        && (is_free_of 32 a.collection_time
            && (is_free_of 32 a.host
                && (is_free_of 32 a.source
                    && (is_free_of 32 a.unknown_1
                        && (is_free_of 32 a.unknown_2
                            && (is_free_of 32 a.ddsource
                                && (is_free_of 34 a.ddsource
                                    && (is_free_of 32 a.ddsource_category
                                        && (is_free_of 34 a.ddsource_category
                                            && (is_free_of 93 (quoted_tags a.ddtags)
                                                && all_plain dd_kv_parser.separators
                                                    a.ddtags)))))))))))

abbrev pub agent_line : AgentLine → Bytes → Bytes
agent_line a text =
    a.api_key
    ++ 32
      ∷ (a.priority
          ++ 32
            ∷ (a.collection_time
                ++ 32
                  ∷ (a.host
                      ++ 32
                        ∷ (a.source
                            ++ 32
                              ∷ (a.unknown_1
                                  ++ 32
                                    ∷ (a.unknown_2
                                        ++ 32
                                          ∷ labels_text a.ddsource a.ddsource_category
                                              (quoted_tags a.ddtags) text))))))

until-append : (c : ℕ) (s rest : Bytes) → is_free_of c s ≡ true → until c (s ++ c ∷ rest) ≡ s
until-append c s rest h = rw (cut-append c s rest h, until)

abbrev pub agent_log_line : (Bytes → Bytes) → ℤ → AgentLine → Bytes → LogLine
agent_log_line log_id now a text = record {
  id = log_id (a.ddsource ++ (a.ddsource_category ++ text));
  agent = codes "datadog";
  host = a.host;
  source = a.source;
  labels =
      record { key = codes "ddsource"; value = a.ddsource }
      ∷ record { key = codes "ddsourcecategory"; value = a.ddsource_category }
      ∷ map kv_label a.ddtags;
  timestamp_ns = now;
  line = text;
}

handle_labels-render :
    (log_id : Bytes → Bytes) (now : ℤ) (a : AgentLine) (text : Bytes)
    → is_agent_line a ≡ true
    → handle_labels log_id now a.host a.source
        (labels_text a.ddsource a.ddsource_category (quoted_tags a.ddtags) text)
      ≡ inserted (agent_log_line log_id now a text)
unfolding handle_labels
handle_labels-render log_id now a text h =
    let dd = a.ddsource in
    let category = a.ddsource_category in
    let tags = quoted_tags a.ddtags in
    let behind_category = codes "][dd ddtags=" ++ (tags ++ 93 ∷ text) in
    let behind_source = codes "][dd ddsourcecategory=\"" ++ (category ++ 34 ∷ behind_category) in
    let source_free : is_free_of 32 dd ≡ true = ground (arith, h) in
    let category_free : is_free_of 32 category ≡ true = ground (arith, h) in
    ground (
      arith,
      found_source dd category tags text,
      found_category dd category tags text source_free,
      found_tags dd category tags text source_free category_free,
      until-append 34 dd behind_source (ground (arith, h)),
      until-append 34 category behind_category (ground (arith, h)),
      cut-append 93 tags text (ground (arith, h)),
      (kv_match-quoted dd_kv_parser 44 34 refl refl refl refl a.ddtags (ground (arith, h))),
    )

-- A line as the agent writes it (seven words, then ddsource, ddsourcecategory and ddtags in
-- brackets; no word or value holds a space, no value a quote, and no tag a quote, comma, colon or
-- closing bracket) is inserted as one message: its host and source, the two labels and all tags in
-- order, the text behind the last bracket whatever it holds, and the digest of the parts as its id.
pub handle_line-render :
    (log_id : Bytes → Bytes) (now : ℤ) (a : AgentLine) (text : Bytes)
    → is_agent_line a ≡ true
    → handle_line log_id now (agent_line a text) ≡ inserted (agent_log_line log_id now a text)
unfolding handle_line
handle_line-render log_id now a text h =
    let rest = labels_text a.ddsource a.ddsource_category (quoted_tags a.ddtags) text in
    let behind_6 = a.unknown_2 ++ 32 ∷ rest in
    let behind_5 = a.unknown_1 ++ 32 ∷ behind_6 in
    let behind_4 = a.source ++ 32 ∷ behind_5 in
    let behind_3 = a.host ++ 32 ∷ behind_4 in
    let behind_2 = a.collection_time ++ 32 ∷ behind_3 in
    let behind_1 = a.priority ++ 32 ∷ behind_2 in
    ground (
      arith,
      cut-append 32 a.api_key behind_1 (ground (arith, h)),
      cut-append 32 a.priority behind_2 (ground (arith, h)),
      cut-append 32 a.collection_time behind_3 (ground (arith, h)),
      cut-append 32 a.host behind_4 (ground (arith, h)),
      cut-append 32 a.source behind_5 (ground (arith, h)),
      cut-append 32 a.unknown_1 behind_6 (ground (arith, h)),
      cut-append 32 a.unknown_2 rest (ground (arith, h)),
      handle_labels-render log_id now a text h,
    )
