-- ===== src/PgText.antt =====
-- libraries/bb_monitor_utils/grpc_utils.cpp: lists and maps of texts as Postgres and JSON write them, and
-- read from what Postgres prints. A map of protobuf is a list of entries, in the order of its iteration.
pub mod Arrays
pub mod RoundTrip
mod Tests
use bb_monitor.Base.{
  ℕ, zero, suc, Bool, true, false, ◌&&◌, ◌||◌, Option, none, some, List, [], ◌∷◌, ◌++◌, Bytes,
  codes, is_empty, length, drop, leb, ◌==◌, if◌then◌else◌, bytes_key,
}
use bb_monitor.Base.Maps.{assign}
use bb_monitor.LogProxy.Line.{is_prefix}

-- `std::isspace` of a byte.
abbrev pub is_space : ℕ → Bool
is_space c = c == 32 || (leb 9 c && leb c 13)

unfoldable pub ltrim : Bytes → Bytes
ltrim [] = []
ltrim (c ∷ s) = elim (is_space c) [ true ↦ ltrim s | false ↦ c ∷ s ]

unfoldable pub rtrim : Bytes → Bytes
rtrim [] = []
rtrim (c ∷ s) = elim (rtrim s) [ [] ↦ if is_space c then [] else c ∷ [] | d ∷ t ↦ c ∷ (d ∷ t) ]

abbrev pub trim : Bytes → Bytes
trim s = rtrim (ltrim s)

-- `find(delimiter)`: the text before the first place where it stands, and the text behind it.
unfoldable pub cut_by : Bytes → Bytes → Option (Bytes × Bytes)
cut_by delimiter [] = none
cut_by delimiter (x ∷ s) = elim (is_prefix delimiter (x ∷ s)) [
  | true ↦ some ([], drop (length delimiter) (x ∷ s))
  | false ↦ elim (cut_by delimiter s) [
    | none ↦ none
    | some (before, rest) ↦ some (x ∷ before, rest)
  ]
]

abbrev pub split_key_val : Bytes → Bytes → Bytes × Bytes
split_key_val s delimiter = elim (cut_by delimiter s) [ none ↦ ([], []) | some kv ↦ kv ]

abbrev prepend : ℕ → List Bytes → List Bytes
prepend x [] = (x ∷ []) ∷ []
prepend x (p ∷ ps) = (x ∷ p) ∷ ps

-- `boost::split` at one character: an empty text is one empty part.
unfoldable pub split_string2vector : Bytes → ℕ → List Bytes
split_string2vector [] delimiter = [] ∷ []
split_string2vector (x ∷ s) delimiter =
    let rest = split_string2vector s delimiter in
    if x == delimiter then [] ∷ rest else prepend x rest

-- `erase(std::remove(begin, end, c), end)`
unfoldable pub remove : ℕ → Bytes → Bytes
remove c [] = []
remove c (x ∷ s) = let rest = remove c s in if x == c then rest else x ∷ rest

-- What stands behind an element that is not the last.
abbrev pub unless_last : Bytes → List Bytes → Bytes
unless_last separator [] = []
unless_last separator (v ∷ vs) = separator

-- The loop of `to_pg` over a list.
abbrev pub pg_elements : List Bytes → Bytes
pg_elements [] = []
pg_elements (v ∷ vs) =
    (if is_empty v then [] else 39 ∷ (v ++ 39 ∷ unless_last (codes ", ") vs)) ++ pg_elements vs

abbrev pub to_pg_array : List Bytes → Bytes
to_pg_array v = codes "ARRAY[" ++ (pg_elements v ++ codes "]::TEXT[]")

-- The loop of `to_pg` over a map.
abbrev pub pg_entries : Bool → List (Bytes × Bytes) → Bytes
pg_entries first [] = []
pg_entries first ((k, v) ∷ m) =
    (if first then [] else codes ", ")
    ++ 34 ∷ (k ++ (codes "\"=>\"" ++ (v ++ 34 ∷ pg_entries false m)))

abbrev pub to_pg_map : List (Bytes × Bytes) → Bytes
to_pg_map m = 39 ∷ (pg_entries true m ++ 39 ∷ [])

abbrev pub json_elements : List Bytes → Bytes
json_elements [] = []
json_elements (v ∷ vs) = 34 ∷ (v ++ 34 ∷ (unless_last (codes ", ") vs ++ json_elements vs))

abbrev pub to_json_array : List Bytes → Bytes
to_json_array v = 91 ∷ (json_elements v ++ 93 ∷ [])

abbrev pub json_entries : Bool → List (Bytes × Bytes) → Bytes
json_entries first [] = []
json_entries first ((k, v) ∷ m) =
    (if first then [] else codes ", ")
    ++ 34 ∷ (k ++ (codes "\":\"" ++ (v ++ 34 ∷ json_entries false m)))

abbrev pub to_json_map : List (Bytes × Bytes) → Bytes
to_json_map m = 123 ∷ (json_entries true m ++ 125 ∷ [])

-- The loop of `pg2proto` over the parts of a list.
abbrev pub add_parts : List Bytes → List Bytes
add_parts [] = []
add_parts (i ∷ v) = if is_empty (trim i) then add_parts v else trim i ∷ add_parts v

-- What is added to the list.
unfoldable pub pg2proto_array : Bytes → List Bytes
pg2proto_array s =
    let t = remove 125 (remove 123 s) in
    if is_empty t then [] else add_parts (split_string2vector t 44)

abbrev pub add_entry : Bytes → List (Bytes × Bytes) → List (Bytes × Bytes)
add_entry i m =
    let (key, val) = split_key_val i (codes "=>") in
    let k = remove 34 (trim key) in if is_empty k then m else assign k (remove 34 (trim val)) m

abbrev pub add_entries : List Bytes → List (Bytes × Bytes) → List (Bytes × Bytes)
add_entries [] m = m
add_entries (i ∷ v) m = add_entries v (add_entry i m)

unfoldable pub pg2proto_map : Bytes → List (Bytes × Bytes) → List (Bytes × Bytes)
pg2proto_map s m = add_entries (split_string2vector s 44) m
