-- ===== src/ApiKey.antt =====
-- libraries/bb_monitor_srv_utils/grpc_apikey_auth.cpp: the headers of a call. The metadata is the
-- multimap's entries in the order of its iteration.
use bb_monitor.Base.{List, [], ◌∷◌, ◌++◌, Bytes, codes, bytes_eq, is_empty, if◌then◌else◌}

abbrev pub Metadata : Type 0
Metadata = List (Bytes × Bytes)

unfoldable pub get_api_key : Metadata → Bytes
get_api_key [] = []
get_api_key ((k, v) ∷ md) = if bytes_eq k (codes "api-key") then v else get_api_key md

unfoldable pub get_api_secret : Metadata → Bytes
get_api_secret [] = []
get_api_secret ((k, v) ∷ md) =
    if bytes_eq k (codes "secret-access-key") then v else get_api_secret md

unfoldable pub get_forwarded_for : Metadata → Bytes
get_forwarded_for [] = codes "unknown_ip"
get_forwarded_for ((k, v) ∷ md) =
    if bytes_eq k (codes "x-forwarded-for") then v else get_forwarded_for md

-- The loop of `get_metadata`, from the text collected so far.
metadata_onto : Bytes → Metadata → Bytes
metadata_onto result [] = result
metadata_onto result ((k, v) ∷ md) =
    metadata_onto
      ((if is_empty result then result else result ++ codes ", ") ++ (k ++ codes "=" ++ v)) md

pub get_metadata : Metadata → Bytes
unfolding metadata_onto
get_metadata = metadata_onto []
