-- ===== src/KvFilter/Tests.antt =====
-- kv_filter.cpp on concrete texts, with the default separators.
use bb_monitor.Base.{◌≡◌, refl, List, [], ◌∷◌, codes, arith}
use bb_monitor.KvFilter.{Kv, KvFilter, kv_filter, find_first_of, match_from, kv_match}
use bb_monitor.KvFilter.Terminates.{match_from_enough}
use bb_monitor.KvFilter.RoundTrip.{kv_match-render}

abbrev default_filter : KvFilter
default_filter = kv_filter (codes " []") 61

abbrev two_pairs : List Kv
two_pairs =
    record { key = codes "host"; val = codes "web" } ∷ record { key = codes "env"; val = [] } ∷ []

words_before :
    kv_match default_filter (codes "[dd a=1][b]")
    ≡ (0, record { key = codes "a"; val = codes "1" } ∷ [])
unfolding kv_match match_from find_first_of
words_before = refl

no_pair : kv_match default_filter (codes "no pair") ≡ (1, [])
unfolding kv_match match_from find_first_of
no_pair = refl

match_from_enough_example :
    match_from default_filter 5 (codes "a=b") [] ≡ match_from default_filter 9 (codes "a=b") []
match_from_enough_example =
    match_from_enough default_filter 5 9 (codes "a=b") [] (omega arith) (omega arith)

kv_match-render_example : kv_match default_filter (codes "host=web env=") ≡ (0, two_pairs)
kv_match-render_example = kv_match-render default_filter 32 two_pairs refl refl refl
