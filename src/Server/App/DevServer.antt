-- ===== src/Server/App/DevServer.antt =====
-- The client's development server in front of the server.
use kubernetes_up_running.Base.{
  is_empty, ℕ, ◌≡◌, refl, inl, inr, Option, some, none, false, List, [], ◌∷◌, ◌++◌, ◌∈◌, All,
  All-map, All-at, if◌then◌else◌,
}
use kubernetes_up_running.Base.Int.{ℤ}
use kubernetes_up_running.Js.Text.{Text, codes, to_decimal}
use kubernetes_up_running.Client.Build.{Proxy, bypass, config}
use kubernetes_up_running.Server.App.{Verb, Endpoint, prefixes}
use kubernetes_up_running.Server.App.Pages.{
  Pages, client_requests, client_requests-urls, IsMounted, path_of, urls, as_seen,
}
use kubernetes_up_running.Server.App.Static.{strip_prefix}

-- What webpack's development server documents for a proxy of every path: a request goes on to the
-- target if `bypass` returns nothing, and not if it returns `false`.
pub record Forwarder : Type 0 where
  pub forward : List Proxy → (path : Text) → Option Text
  pub passes :
      (p : Proxy) (path : Text)
      → p.context ≡ codes "**" ∷ []
      → p.bypass path ≡ none
      → forward (p ∷ []) path ≡ some p.target
  pub stops :
      (p : Proxy) (path : Text)
      → p.context ≡ codes "**" ∷ []
      → p.bypass path ≡ some false
      → forward (p ∷ []) path ≡ none

abbrev pub server : Text
server = codes "http://localhost:8084"

abbrev pub bundle : Text → Text
bundle base = base ++ config.output.public_path ++ config.output.filename

abbrev pub IsForwarded : Forwarder → Option (Verb × Text) × Endpoint → Type 0
IsForwarded forwarder (none, e) = ⊥
IsForwarded forwarder (some (verb, path), e) =
    forwarder.forward config.dev_server.proxy path ≡ some server

abbrev IsPassed : Verb × Text × Endpoint → Type 0
IsPassed (verb, url, e) = bypass (path_of url) ≡ none

urls-IsPassed : (base digits : Text) → base ∈ prefixes → All IsPassed (urls base digits)
unfolding bypass path_of strip_prefix
urls-IsPassed base digits (inl e) = rw e (
  refl,
  (refl, (refl, (refl, (refl, (refl, (refl, (refl, (refl, (refl, (refl, (refl, tt))))))))))),
)
urls-IsPassed base digits (inr (inl e)) = rw e (
  refl,
  (refl, (refl, (refl, (refl, (refl, (refl, (refl, (refl, (refl, (refl, (refl, tt))))))))))),
)
urls-IsPassed base digits (inr (inr (inl e))) = rw e (
  refl,
  (refl, (refl, (refl, (refl, (refl, (refl, (refl, (refl, (refl, (refl, (refl, tt))))))))))),
)
urls-IsPassed base digits (inr (inr (inr (inl e)))) = rw e (
  refl,
  (refl, (refl, (refl, (refl, (refl, (refl, (refl, (refl, (refl, (refl, (refl, tt))))))))))),
)
urls-IsPassed base digits (inr (inr (inr (inr e)))) = absurd e

passed :
    (forwarder : Forwarder) (r : Verb × Text × Endpoint)
    → IsPassed r
    → IsForwarded forwarder (as_seen r)
unfolding config
passed forwarder (verb, url, e) h = forwarder.passes _ (path_of url) refl h

bundle_forwarded :
    (forwarder : Forwarder) (base : Text)
    → base ∈ prefixes
    → forwarder.forward config.dev_server.proxy (bundle base)
      ≡ (if is_empty base then none else some server)
unfolding config bypass strip_prefix
bundle_forwarded forwarder base h =
    All-at
      (λ base.
        forwarder.forward config.dev_server.proxy (bundle base)
        ≡ (if is_empty base then none else some server))
      prefixes
      (
        forwarder.stops _ (bundle []) refl refl,
        (
          forwarder.passes _ (bundle (codes "/a")) refl refl,
          (
            forwarder.passes _ (bundle (codes "/b")) refl refl,
            (forwarder.passes _ (bundle (codes "/c")) refl refl, tt),
          ),
        ),
      )
      base h

-- In development, under each prefix of the server, every request of the client's pages, in whatever
-- state they are, goes on to the server, and the request for the bundle goes on to it exactly under a
-- prefix that is not empty.
pub client_requests-IsForwarded :
    {Json : Type 0} (forwarder : Forwarder) (base : Text) (p : Pages Json) (n : ℕ) (m : ℤ)
    → base ∈ prefixes
    → IsMounted base p
    → All (IsForwarded forwarder) (client_requests p n m)
      × (forwarder.forward config.dev_server.proxy (bundle base)
          ≡ (if is_empty base then none else some server))
client_requests-IsForwarded forwarder base p n m h mounted = (
  rw (client_requests-urls base p n m mounted) (
      All-map IsPassed (IsForwarded forwarder) as_seen (passed forwarder) (urls base (to_decimal n))
        (urls-IsPassed base (to_decimal n) h)),
  bundle_forwarded forwarder base h,
)
