-- ===== src/Datadog.antt =====
-- libraries/bb_monitor_client_utils/avro_json_parsing.cpp and pb_json_parsing.cpp: the JSON that the
-- Datadog agent posts, as metrics. rapidjson is a library: what the code asks of its values is the record
-- `Rapidjson`.
pub mod Series
pub mod Pb
pub mod Checks
pub mod Influx
pub mod Agreement
pub mod Served
pub mod Points
pub mod Stamped
pub mod Tests
use bb_monitor.Base.{
  ℕ, zero, suc, ◌-◌, ◌+◌, ◌*◌, Bool, true, false, Option, none, some, List, [], ◌∷◌, ◌++◌, map,
  Bytes, codes, ℤ, pos, negsuc, ◌==◌, if◌then◌else◌,
}
use bb_monitor.Base.Text.{cut}
use bb_monitor.Base.Decimal.{to_string}
use bb_monitor.Messages.{Label}

-- `find` is `HasMember` and `operator[]`, and wants an object. `as_string` is `IsString` and a
-- `std::string` of `GetString`, `as_int` is `IsInt` and `GetInt`, and so on.
pub record Rapidjson (V D : Type 0) : Type 0 where
  pub parse : Bytes → Option V
  pub is_object : V → Bool
  pub find : Bytes → V → Option V
  pub as_array : V → Option (List V)
  pub as_string : V → Option Bytes
  pub as_int : V → Option ℤ
  pub as_int64 : V → Option ℤ
  pub as_double : V → Option D

-- `std::replace(begin, end, from, to)`
abbrev pub replace : ℕ → ℕ → Bytes → Bytes
replace from to = map (λ c. if c == from then to else c)

-- The namespace and the name: what stands before and behind the first dot.
abbrev pub split_name : Bytes → Bytes × Bytes
split_name raw_name = elim (cut 46 raw_name) [
  | none ↦ (codes "undef", replace 46 95 raw_name)
  | some (ns, name) ↦ (ns, replace 46 95 name)
]

-- A tag without a colon is left out.
abbrev pub tag_label : Bytes → Option Label
tag_label s = elim (cut 58 s) [
  | none ↦ none
  | some (key, value) ↦ some (record { key = replace 32 95 key; value = replace 32 95 value })
]

abbrev pub seconds_to_ms : ℤ → ℤ
seconds_to_ms (pos n) = pos (n * 1000)
seconds_to_ms (negsuc n) = negsuc (n * 1000 + 999)

module _ {V D : Type 0} (j : Rapidjson V D) where
  abbrev pub string_at : Bytes → V → Option Bytes
  string_at field s = elim (j.find field s) [ none ↦ none | some v ↦ j.as_string v ]

  abbrev pub int_at : Bytes → V → Option ℤ
  int_at field s = elim (j.find field s) [ none ↦ none | some v ↦ j.as_int v ]

  abbrev pub array_at : Bytes → V → List V
  array_at field s = elim (j.find field s) [
    | none ↦ []
    | some v ↦ elim (j.as_array v) [ none ↦ [] | some vs ↦ vs ]
  ]

  abbrev pub tag_onto : V → List Label → List Label
  tag_onto t ls = elim (j.as_string t) [
    | none ↦ ls
    | some s ↦ elim (tag_label s) [ none ↦ ls | some l ↦ l ∷ ls ]
  ]

  abbrev pub tag_labels : List V → List Label
  tag_labels [] = []
  tag_labels (t ∷ ts) = tag_onto t (tag_labels ts)

  -- The label that a text gives, if there is one.
  abbrev pub text_label : Bytes → Option Bytes → List Label
  text_label key none = []
  text_label key (some value) = record { key = key; value = value } ∷ []

  abbrev pub interval_label : Option ℤ → List Label
  interval_label none = []
  interval_label (some n) = record { key = codes "dd_interval"; value = to_string n } ∷ []

  abbrev pub serie_labels : V → List Label
  serie_labels s =
      tag_labels (array_at (codes "tags") s)
      ++ (text_label (codes "dd_host") (string_at (codes "host") s)
          ++ (text_label (codes "dd_type") (string_at (codes "type") s)
              ++ (interval_label (int_at (codes "interval") s)
                  ++ text_label (codes "dd_device") (string_at (codes "device") s))))

  abbrev pub check_labels : V → List Label
  check_labels c =
      text_label (codes "dd_host_name") (string_at (codes "host_name") c)
      ++ tag_labels (array_at (codes "tags") c)

  -- An array of two.
  abbrev pub pair_of : List V → Option (V × V)
  pair_of [] = none
  pair_of (t ∷ []) = none
  pair_of (t ∷ (v ∷ [])) = some (t, v)
  pair_of (t ∷ (v ∷ (w ∷ vs))) = none

  abbrev pub as_pair : V → Option (V × V)
  as_pair pa = elim (j.as_array pa) [ none ↦ none | some vs ↦ pair_of vs ]

  -- A point without a time leaves the timestamp as it is.
  abbrev pub timestamp_of : ℤ → V → ℤ
  timestamp_of before t = elim (j.as_int t) [ none ↦ before | some n ↦ seconds_to_ms n ]
