-- ===== src/PgText/Tests.antt =====
-- Texts for Postgres (grpc_utils.cpp) at concrete lists and maps.
use bb_monitor.Base.{◌≡◌, refl, List, [], ◌∷◌, ◌++◌, Bytes, bytes_eq, bytes_key, codes}
use bb_monitor.Base.Maps.{assign}
use bb_monitor.PgText.{
  to_pg_array, to_pg_map, to_json_array, to_json_map, pg2proto_array, pg2proto_map,
  split_string2vector, remove, ltrim, rtrim,
}
use bb_monitor.PgText.RoundTrip.{pg2proto_map-to_pg_map}

abbrev two_entries : List (Bytes × Bytes)
two_entries = (codes "user name", codes "admin") ∷ (codes "k", codes "a=>b") ∷ []

pg2proto_map-to_pg_map_example :
    (text : Bytes) × (to_pg_map two_entries ≡ 39 ∷ (text ++ 39 ∷ []))
    × (pg2proto_map text [] ≡ two_entries)
unfolding assign bytes_eq
pg2proto_map-to_pg_map_example = pg2proto_map-to_pg_map two_entries [] refl

-- An empty text at the end leaves a comma behind.
trailing_comma : to_pg_array (codes "a" ∷ [] ∷ []) ≡ codes "ARRAY['a', ]::TEXT[]"
trailing_comma = refl

json_texts :
    to_json_map ((codes "a", codes "1") ∷ []) ++ to_json_array (codes "a" ∷ codes "b" ∷ [])
    ≡ codes "{\"a\":\"1\"}[\"a\", \"b\"]"
json_texts = refl

-- Braces are removed from the elements too.
lost_braces : pg2proto_array (codes "{a{b}, c}") ≡ codes "ab" ∷ codes "c" ∷ []
unfolding pg2proto_array split_string2vector remove ltrim rtrim
lost_braces = refl
