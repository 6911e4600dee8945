-- ===== src/Resolver/Sockaddr.antt =====
-- service_resolver.cpp: the endpoints of a name. What the queries answer is an argument: `query_srv` and
-- `get_host_by_name` stand for the answers that their callbacks are given. `from_string` is
-- `boost::asio::ip::address::from_string`, `inet_ntop` the C function.
use bb_monitor.Base.{
  ℕ, zero, suc, ◌%◌, true, false, Option, none, some, List, [], ◌∷◌, map, Bytes, codes, drop, ℤ,
  pos, negsuc, int_eq,
}
use bb_monitor.Base.Text.{cut, until}
use bb_monitor.LogProxy.Line.{is_prefix}
use bb_monitor.Prometheus.{atoll}
use bb_monitor.Resolver.{SrvAnswer}

module _ {A Address : Type 0} (inet_ntop : A → Bytes) (from_string : Bytes → Address) where
  -- `none` is a null pointer for the host.
  abbrev pub ares_hostbyname_callback : ℤ → Option (List A) → ℤ × List Bytes
  ares_hostbyname_callback status none = (status, [])
  ares_hostbyname_callback status (some addr_list) = elim (int_eq status (pos 0)) [
    | false ↦ (status, [])
    | true ↦ (status, map inet_ntop addr_list)
  ]

  -- An endpoint holds 16 bits of the port.
  abbrev pub endpoints : ℕ → ℤ × List Bytes → ℤ × List (Address × ℕ)
  endpoints port (ec, v) = elim (int_eq ec (pos 0)) [
    | false ↦ (ec, [])
    | true ↦ (ec, map (λ ip. (from_string ip, port % 65536)) v)
  ]

  module _ (query_srv : Bytes → SrvAnswer) (get_host_by_name : Bytes → ℤ × List Bytes) where
    -- Only the first server is resolved.
    abbrev pub resolve_first : SrvAnswer → ℤ × List (Address × ℕ)
    resolve_first a = elim (int_eq a.ec (pos 0)) [
      | false ↦ (a.ec, [])
      | true ↦ elim a.records [
        | [] ↦ (a.ec, [])
        | rec ∷ _ ↦ endpoints rec.port (get_host_by_name rec.fqdn)
      ]
    ]

    abbrev pub get_sockaddr_by_srv : Bytes → ℤ × List (Address × ℕ)
    get_sockaddr_by_srv query = resolve_first (query_srv query)

    abbrev pub get_sockaddr_by_port : Bytes → ℤ → ℤ × List (Address × ℕ)
    get_sockaddr_by_port host (pos zero) = (negsuc 0, [])
    get_sockaddr_by_port host (pos (suc n)) = endpoints (suc n) (get_host_by_name host)
    get_sockaddr_by_port host (negsuc n) = (negsuc 0, [])

    -- srv://<name> or <host>:<port>. `atoi` is undefined for a number that no `int` holds.
    unfoldable pub get_sockaddr_by_name : Bytes → ℤ × List (Address × ℕ)
    get_sockaddr_by_name query = elim (is_prefix (codes "srv://") query) [
      | true ↦ get_sockaddr_by_srv (drop 6 query)
      | false ↦ elim (cut 58 query) [
        | none ↦ (negsuc 0, [])
        | some (host, port_s) ↦ get_sockaddr_by_port host (atoll (until 0 port_s))
      ]
    ]
