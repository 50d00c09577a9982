-- ===== src/Server/Dns/Tests.antt =====
-- A resolver that knows one name, and a query that finds it by the search list.
use kubernetes_up_running.Base.{
  ◌≡◌, refl, inl, some, none, false, [], ◌∷◌, ◌++◌, arith, if◌then◌else◌,
}
use kubernetes_up_running.Js.Text.{text_eq, codes}
use kubernetes_up_running.Client.Dns.{Query, construct, submit_settled}
use kubernetes_up_running.Server.Dns.{Config, Msg, Resolver, api_get, names_of}
use kubernetes_up_running.Server.Dns.Answers.{delivered, query_shown}

abbrev config : Config
config = record {
  search = codes "ns.svc" ∷ codes "svc" ∷ [];
  servers = codes "10.0.0.10" ∷ [];
  port = codes "53";
}

abbrev found : Msg
found = record { answers = 1; text = codes "kuard.svc. A 10.0.0.1" }

abbrev missing : Msg
missing = record { answers = 0; text = codes "NXDOMAIN" }

abbrev resolver : Resolver
resolver = record {
  config = some config;
  type_code = λ t. if text_eq t (codes "A") then some 1 else none;
  is_fqdn = λ name. false;
  fqdn = λ name. name ++ codes ".";
  exchange =
      λ name qtype server. some (if text_eq name (codes "kuard.svc.") then found else missing);
}

abbrev query : Query
query = record { kind = codes "A"; name = codes "kuard" }

query_shown_example :
    (submit_settled (construct (codes "/dns")) (delivered (api_get resolver (some query)))).result
    ≡ codes "kuard.svc. A 10.0.0.1"
unfolding text_eq names_of
query_shown_example =
    query_shown resolver config (codes "10.0.0.10") [] 1 query (codes "kuard.ns.svc" ∷ [])
      (codes "kuard.svc") (codes "kuard" ∷ []) (some found) (construct (codes "/dns")) refl refl
      refl refl ((missing, refl, refl), tt) refl (inl (omega arith))
