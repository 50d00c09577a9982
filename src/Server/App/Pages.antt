-- ===== src/Server/App/Pages.antt =====
-- The pages of the client on the routes of the server.
use kubernetes_up_running.Base.{
  ℕ, ◌≡◌, refl, sym, inl, inr, Option, some, none, List, [], ◌∷◌, ◌++◌, ◌∈◌, All, All-map, map,
  ◌==◌, if◌then◌else◌,
}
use kubernetes_up_running.Base.Int.{ℤ}
use kubernetes_up_running.Js.Text.{Text, codes, to_decimal}
use kubernetes_up_running.Client.Browser.{Effect, fetch, report_conn_error, Method}
use kubernetes_up_running.Client.Router.{Handler}
use kubernetes_up_running.Client.Router.Navigation.{server_path}
use kubernetes_up_running.Client.Env as Env
use kubernetes_up_running.Client.Mem as Mem
use kubernetes_up_running.Client.Probe as Probe
use kubernetes_up_running.Client.Dns as Dns
use kubernetes_up_running.Client.KeyGen as KeyGen
use kubernetes_up_running.Client.MemQ as MemQ
use kubernetes_up_running.Server.App.{
  Verb, get, put, post, Endpoint, mem_get, mem_alloc, mem_clear, live_get, live_put, ready_get,
  ready_put, env_get, dns_get, keygen_get, keygen_put, get_stats, Router, routes, prefixes,
  find_route,
}

-- The path of a URL ends at its query.
unfoldable pub path_of : Text → Text
path_of [] = []
path_of (c ∷ url) = let rest = path_of url in if c == b'?' then [] else c ∷ rest

abbrev pub verb_of : Method → Verb
verb_of Method.get = get
verb_of Method.put = put
verb_of Method.post = post

-- What a router sees of a request.
abbrev pub seen : {B : Type 0} → Effect B → Option (Verb × Text)
seen (fetch method url body) = some (verb_of method, path_of url)
seen report_conn_error = none

-- The pages in any state.
pub record Pages (Json : Type 0) : Type 0 where
  pub env : Env.Env
  pub mem : Mem.Mem Json
  pub liveness : Probe.Probe
  pub readiness : Probe.Probe
  pub dns : Dns.Dns
  pub keygen : KeyGen.KeyGen
  pub memq : MemQ.MemQ

-- Every request that the pages can make, with the handler that it is meant for: `n` bytes to allocate,
-- and `m` failures of a probe.
pub client_requests : {Json : Type 0} → Pages Json → ℕ → ℤ → List (Option (Verb × Text) × Endpoint)
client_requests {Json} p n m =
    (seen (Env.load_state p.env), env_get)
    ∷ (seen (Mem.load_state Json p.mem), mem_get)
    ∷ (seen (Mem.alloc Json p.mem n), mem_alloc)
    ∷ (seen (Mem.clear Json p.mem), mem_clear)
    ∷ (seen (Probe.load_state p.liveness), live_get)
    ∷ (seen (Probe.configure p.liveness m), live_put)
    ∷ (seen (Probe.load_state p.readiness), ready_get)
    ∷ (seen (Probe.configure p.readiness m), ready_put)
    ∷ (seen (Dns.handle_submit p.dns), dns_get)
    ∷ (seen (KeyGen.load_state p.keygen), keygen_get)
    ∷ (seen (KeyGen.handle_submit p.keygen), keygen_put)
    ∷ (seen (MemQ.load_state p.memq), get_stats)
    ∷ []

-- The page of a component is given the path that `locations` has for it.
abbrev pub IsMounted : {Json : Type 0} → Text → Pages Json → Type 0
IsMounted base p =
    (server_path base Handler.env ≡ some p.env.api_path)
    × (server_path base Handler.mem ≡ some p.mem.api_path)
    × (server_path base Handler.liveness ≡ some p.liveness.server_path)
    × (server_path base Handler.readiness ≡ some p.readiness.server_path)
    × (server_path base Handler.dns ≡ some p.dns.server_path)
    × (server_path base Handler.keygen ≡ some p.keygen.server_path)
    × (server_path base Handler.memq ≡ some p.memq.server_path)

abbrev pub IsRouted : Router → Option (Verb × Text) × Endpoint → Type 0
IsRouted router (none, e) = ⊥
IsRouted router (some (verb, path), e) = router.dispatch routes verb path ≡ some e

-- The same requests for a given prefix.
abbrev pub urls : Text → Text → List (Verb × Text × Endpoint)
urls base digits =
    (get, base ++ codes "/env/api", env_get)
    ∷ (get, base ++ codes "/mem/api", mem_get)
    ∷ (post, base ++ codes "/mem/api" ++ codes "/alloc?size=" ++ digits, mem_alloc)
    ∷ (post, base ++ codes "/mem/api" ++ codes "/clear", mem_clear)
    ∷ (get, base ++ codes "/healthy" ++ codes "/api", live_get)
    ∷ (put, base ++ codes "/healthy" ++ codes "/api", live_put)
    ∷ (get, base ++ codes "/ready" ++ codes "/api", ready_get)
    ∷ (put, base ++ codes "/ready" ++ codes "/api", ready_put)
    ∷ (post, base ++ codes "/dns" ++ codes "/api", dns_get)
    ∷ (get, base ++ codes "/keygen", keygen_get)
    ∷ (put, base ++ codes "/keygen", keygen_put)
    ∷ (get, base ++ codes "/memq" ++ codes "/server/stats", get_stats)
    ∷ []

abbrev pub IsFound : Verb × Text × Endpoint → Type 0
IsFound (verb, url, e) = find_route verb (path_of url) routes ≡ some e

pub urls-IsFound : (base digits : Text) → base ∈ prefixes → All IsFound (urls base digits)
unfolding routes find_route path_of
urls-IsFound base digits (inl e) = rw e (
  refl,
  (refl, (refl, (refl, (refl, (refl, (refl, (refl, (refl, (refl, (refl, (refl, tt))))))))))),
)
urls-IsFound base digits (inr (inl e)) = rw e (
  refl,
  (refl, (refl, (refl, (refl, (refl, (refl, (refl, (refl, (refl, (refl, (refl, tt))))))))))),
)
urls-IsFound base digits (inr (inr (inl e))) = rw e (
  refl,
  (refl, (refl, (refl, (refl, (refl, (refl, (refl, (refl, (refl, (refl, (refl, tt))))))))))),
)
urls-IsFound base digits (inr (inr (inr (inl e)))) = rw e (
  refl,
  (refl, (refl, (refl, (refl, (refl, (refl, (refl, (refl, (refl, (refl, (refl, tt))))))))))),
)
urls-IsFound base digits (inr (inr (inr (inr e)))) = absurd e

abbrev pub as_seen : Verb × Text × Endpoint → Option (Verb × Text) × Endpoint
as_seen (verb, url, e) = (some (verb, path_of url), e)

-- The requests of mounted pages are those to the known paths.
pub client_requests-urls :
    {Json : Type 0} (base : Text) (p : Pages Json) (n : ℕ) (m : ℤ)
    → IsMounted base p
    → client_requests p n m ≡ map as_seen (urls base (to_decimal n))
unfolding client_requests Env.load_state Mem.load_state Mem.alloc Mem.clear Probe.load_state
    Probe.configure Dns.handle_submit KeyGen.load_state KeyGen.handle_submit MemQ.load_state
client_requests-urls base p n m (env, mem, live, ready, dns, keygen, memq) =
    let e1 : base ++ codes "/env/api" ≡ p.env.api_path = cc in
    let e2 : base ++ codes "/mem/api" ≡ p.mem.api_path = cc in
    let e3 : base ++ codes "/healthy" ≡ p.liveness.server_path = cc in
    let e4 : base ++ codes "/ready" ≡ p.readiness.server_path = cc in
    let e5 : base ++ codes "/dns" ≡ p.dns.server_path = cc in
    let e6 : base ++ codes "/keygen" ≡ p.keygen.server_path = cc in
    let e7 : base ++ codes "/memq" ≡ p.memq.server_path = cc in
    rw (sym e1, sym e2, sym e3, sym e4, sym e5, sym e6, sym e7) refl

-- Under each prefix of the server, every request of the client's pages, in whatever state they are,
-- reaches the handler that it is meant for.
pub client_requests-IsRouted :
    {Json : Type 0} (router : Router) (base : Text) (p : Pages Json) (n : ℕ) (m : ℤ)
    → base ∈ prefixes
    → IsMounted base p
    → All (IsRouted router) (client_requests p n m)
client_requests-IsRouted router base p n m h mounted =
    rw (client_requests-urls base p n m mounted) (
      All-map IsFound (IsRouted router) as_seen
        (λ r found. router.matching r.0 (path_of r.1) r.2 found) (urls base (to_decimal n))
        (urls-IsFound base (to_decimal n) h))
