-- ===== src/Server/Dns.antt =====
-- kuard/pkg/dnsapi/api.go: the DNS queries of the DNS page. The resolver (miekg/dns) is a parameter,
-- with what it answers while a request is handled.
pub mod Answers
mod Tests
use kubernetes_up_running.Base.{
  ℕ, Option, some, none, Bool, true, false, List, [], ◌∷◌, ◌++◌, map, ltb, if◌then◌else◌,
}
use kubernetes_up_running.Js.Text.{Text, codes}
use kubernetes_up_running.Client.Dns.{Query}

-- `dns.ClientConfig`
pub record Config : Type 0 where
  pub search : List Text
  pub servers : List Text
  pub port : Text

-- `dns.Msg`: the number of its answers, and `String()`.
pub record Msg : Type 0 where
  pub answers : ℕ
  pub text : Text

-- `exchange` asks a server about a name, with a type of query; `none` is an error. `type_code` reads
-- the upper case of a text.
pub record Resolver : Type 0 where
  pub config : Option Config
  pub type_code : Text → Option ℕ
  pub is_fqdn : Text → Bool
  pub fqdn : Text → Text
  pub exchange : (name : Text) → (qtype : ℕ) → (server : Text) → Option Msg

-- How a request ends: with a result, with status 400, or by a panic. (`nil_reply` is `String()` of a
-- message that was never received.)
pub data Outcome : Type 0 where
  answered : Text → Outcome
  bad_request : Outcome
  panics : Outcome
  nil_reply : Outcome

abbrev pub name_or_root : Text → Text
name_or_root [] = codes "."
name_or_root (c ∷ name) = c ∷ name

abbrev last_reply : Option Msg → Outcome
last_reply none = nil_reply
last_reply (some r) = answered r.text

module _ (resolver : Resolver) where
  unfoldable pub names_of : Config → Text → List Text
  names_of config name =
      if resolver.is_fqdn name
      then name ∷ []
      else map (λ s. name ++ (b'.' ∷ s)) config.search ++ name ∷ []

  abbrev pub query_step : (Option Msg → Outcome) → Option Msg → Outcome
  query_step later none = bad_request
  query_step later (some r) = if ltb 0 r.answers then answered r.text else later (some r)

  -- The loop over the names, with the last reply.
  unfoldable pub query_names : (server : Text) → ℕ → List Text → Option Msg → Outcome
  query_names server qtype [] r = last_reply r
  query_names server qtype (name ∷ names) r =
      query_step (query_names server qtype names)
        (resolver.exchange (resolver.fqdn name) qtype server)

  -- `config.Servers[0]` panics where there is no server.
  abbrev pub query_server : List Text → Text → ℕ → List Text → Outcome
  query_server [] port qtype names = panics
  query_server (server ∷ servers) port qtype names =
      query_names (server ++ (b':' ∷ port)) qtype names none

  abbrev pub query_type : Config → Option ℕ → Text → Outcome
  query_type config none name = bad_request
  query_type config (some qtype) name =
      query_server config.servers config.port qtype (names_of config (name_or_root name))

  abbrev pub query_config : Option Config → Query → Outcome
  query_config none q = bad_request
  query_config (some config) q = query_type config (resolver.type_code q.kind) q.name

  unfoldable pub dns_query : Query → Outcome
  dns_query q = query_config resolver.config q

  -- `none` is a body that does not parse.
  unfoldable pub api_get : Option Query → Outcome
  api_get none = bad_request
  api_get (some q) = dns_query q
