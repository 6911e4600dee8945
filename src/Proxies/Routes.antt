-- ===== src/Proxies/Routes.antt =====
-- The routes of the proxies: what a request puts into the streams, and which ones do.
use bb_monitor.Base.{
  ℕ, ◌+◌, ◌*◌, ◌^◌, ◌≤◌, ◌<◌, ◌≡◌, refl, ap, ◌∙◌, ◌⊎◌, inl, inr, Bool, true, false, ◌&&◌, ◌||◌,
  List, [], ◌∷◌, map, Bytes, codes, ℤ, length, arith, if◌then◌else◌, Bool-cases,
}
use bb_monitor.Outcome.{ok}
use bb_monitor.Compression.{Zlib, returned}
use bb_monitor.Compression.RoundTrip.{IsZlib}
use bb_monitor.Messages.{Metric, Intake}
use bb_monitor.Datadog.{Rapidjson}
use bb_monitor.Datadog.Pb.{parse_datadog_series2pb}
use bb_monitor.Proxies.{
  HttpMethod, post, same_method, HttpRequest, Reaction, responded, not_handled, Route, Express,
  created, with_body, insert_series, metrics_request_handler,
}
use bb_monitor.Proxies.Bodies.{Encoding, is_offered, request, encode, get_decompressed_body-encode}

-- What restinio documents: the routes are tried in the order in which they were added.
pub record IsExpress {A : Type 0} (router : Express A) : Type 0 where
  pub no_route :
      (other : A) (method : HttpMethod) (path : Bytes)
      → router.dispatch [] other method path ≡ other
  pub first_route :
      (r : Route A) (rs : List (Route A)) (other : A) (method : HttpMethod) (path : Bytes)
      → router.dispatch (r ∷ rs) other method path ≡ (
          if same_method r.route_method method && router.path_matches r.route_path path
          then r.handler
          else router.dispatch rs other method path)

-- What a reaction put into the stream.
abbrev pub inserted : {M : Type 0} → Reaction M → List M
inserted (responded ms r) = ms
inserted _ = []

module _ {S V D : Type 0} (zlib : Zlib S) (uncompress : Bytes → Bool × Bytes) (j : Rapidjson V D)
    (now : ℕ → ℤ) (router : Express (Reaction (Metric D ⊎ Intake)))
    (express : IsExpress router) where
  -- The handler of a route that takes the request, behind no other.
  taken :
      {A : Type 0} (r : Express A) (e : IsExpress r) (route : Route A) (rs : List (Route A))
      (other : A) (method : HttpMethod) (path : Bytes)
      → same_method route.route_method method ≡ true
      → r.path_matches route.route_path path ≡ true
      → r.dispatch (route ∷ rs) other method path ≡ route.handler
  taken r e route rs other method path m p =
      ground (arith, m, p, e.first_route route rs other method path)

  metrics_request_handler-series :
      (n : ℕ) (garbage : Bytes) (req : HttpRequest)
      → req.method ≡ post
      → router.path_matches (codes "/api/v1/series") req.path ≡ true
      → metrics_request_handler zlib uncompress n garbage j now router req
        ≡ with_body zlib uncompress n garbage req (insert_series j now)
  unfolding metrics_request_handler
  metrics_request_handler-series n garbage req m p =
      taken router express _ _ not_handled req.method req.path (rw m) p

  -- A request with a body of series for the path of the agent's series, and one for its intakes.
  abbrev pub writes : HttpRequest → Bool
  writes req =
      same_method post req.method
      && (router.path_matches (codes "/api/v1/series") req.path
          || (router.path_matches (codes "/api/v1/check_run") req.path
              || router.path_matches (codes "/intake/") req.path))

  passed :
      {A : Type 0} (r : Express (Reaction A)) (e : IsExpress r) (route : Route (Reaction A))
      (rs : List (Route (Reaction A))) (other : Reaction A) (method : HttpMethod) (path : Bytes)
      → ((same_method route.route_method method && r.path_matches route.route_path path) ≡ true
          → inserted route.handler ≡ [])
      → inserted (r.dispatch rs other method path) ≡ []
      → inserted (r.dispatch (route ∷ rs) other method path) ≡ []
  passed r e route rs other method path here behind =
      elim (Bool-cases
        (same_method route.route_method method && r.path_matches route.route_path path)) [
          | inl t ↦ ground (arith, t, here t, e.first_route route rs other method path)
          | inr t ↦ ground (arith, t, behind, e.first_route route rs other method path)
        ]

  -- Only a POST to the path of the series, of the check runs or of the intakes puts anything into the
  -- streams of the metrics proxy.
  pub inserted-metrics_request_handler :
      (n : ℕ) (garbage : Bytes) (req : HttpRequest)
      → writes req ≡ false
      → inserted (metrics_request_handler zlib uncompress n garbage j now router req) ≡ []
  unfolding metrics_request_handler
  inserted-metrics_request_handler n garbage req h =
      let pass : (route : Route (Reaction (Metric D ⊎ Intake)))
            (rs : List (Route (Reaction (Metric D ⊎ Intake))))
          → ((same_method route.route_method req.method
                  && router.path_matches route.route_path req.path)
                ≡ true
              → inserted route.handler ≡ [])
          → inserted (router.dispatch rs not_handled req.method req.path) ≡ []
          → inserted (router.dispatch (route ∷ rs) not_handled req.method req.path) ≡ [] =
        λ route rs. passed router express route rs not_handled req.method req.path in
      pass _ _ (λ t. absurd (ground (arith, h, t)))
        (pass _ _ (λ t. absurd (ground (arith, h, t)))
          (pass _ _ (λ t. absurd (ground (arith, h, t)))
            (pass _ _ (λ t. refl)
              (pass _ _ (λ t. refl)
                (pass _ _ (λ t. refl)
                  (pass _ _ (λ t. refl)
                    (pass _ _ (λ t. refl)
                      (pass _ _ (λ t. refl)
                        (ap inserted (express.no_route not_handled req.method req.path))))))))))

  -- What the agent posts as series arrives: a text that the parser takes, sent uncompressed or in any
  -- encoding that the proxy knows, gives the metrics of the text, in order, and the answer 201. The text
  -- has less than about 2 GiB, and the path is that of the series.
  pub metrics_request_handler-encode :
      (compress : Bytes → Bytes)
      → IsZlib zlib
      → ((s : Bytes) → uncompress (compress s) ≡ (true, s))
      → (e : Encoding) (s path : Bytes) (ms : List (Metric D)) → is_offered e ≡ true
      → 2 * length s + 64 < 2 ^ 32
      → router.path_matches (codes "/api/v1/series") path ≡ true
      → parse_datadog_series2pb j s ≡ ok ms
      → (body : Bytes) × (enough : ℕ) × ((n : ℕ) (garbage garbage' : Bytes)
          → enough ≤ n
          → (encode zlib uncompress compress n garbage e s ≡ returned body)
            × (metrics_request_handler zlib uncompress n garbage' j now router
                  (request post path e body)
                ≡ responded (map inl ms) created))
  metrics_request_handler-encode compress z lossless e s path ms h short p parsed =
      let (body, enough, both) =
        get_decompressed_body-encode zlib uncompress compress post path z lossless e s h short in
      (
        body,
        enough,
        λ n garbage garbage' k.
            let (there, back) = both n garbage garbage' k in
            (
              there,
              metrics_request_handler-series n garbage' (request post path e body) refl p
                  ∙ ground (arith, back, parsed),
            ),
      )
