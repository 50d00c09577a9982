-- ===== src/Server/Dns/Answers.antt =====
-- What the DNS page shows when its query has been answered.
use kubernetes_up_running.Base.{
  ℕ, ◌≡◌, ◌⊎◌, ◌<◌, refl, ap, ◌∙◌, inl, inr, Option, some, none, true, false, List, [], ◌∷◌, ◌++◌,
  All, ltb, lt→ltb, if◌then◌else◌, Bool-cases,
}
use kubernetes_up_running.Js.Text.{Text}
use kubernetes_up_running.Client.Browser.{
  HttpResponse, Promise, fulfilled, rejected, unchecked_json,
}
use kubernetes_up_running.Client.Dns.{Query, Dns, submit_settled, on_answer}
use kubernetes_up_running.Server.Dns.{
  Config, Msg, Resolver, Outcome, answered, bad_request, panics, nil_reply, name_or_root, names_of,
  query_names, query_step, query_server, query_type, query_config, dns_query, api_get,
}

-- The response that the browser gets: the text of an error is no JSON, and a panic closes the
-- connection.
abbrev pub delivered : Outcome → Promise (HttpResponse Text)
delivered (answered t) = fulfilled (record { ok = true; status_text = "OK"; json = some t })
delivered bad_request = fulfilled (record { ok = false; status_text = "Bad Request"; json = none })
delivered panics = rejected "TypeError"
delivered nil_reply = rejected "TypeError"

module _ (resolver : Resolver) where
  -- A reply without answers.
  abbrev pub IsQuiet : (server : Text) → ℕ → Text → Type 0
  IsQuiet server qtype name =
      (r : Msg) × (resolver.exchange (resolver.fqdn name) qtype server ≡ some r) × (r.answers ≡ 0)

  -- Names without answers are passed over.
  query_names-quiet :
      (server : Text) (qtype : ℕ) (before : List Text) (name : Text) (after : List Text)
      (r : Option Msg)
      → All (IsQuiet server qtype) before
      → query_names resolver server qtype (before ++ (name ∷ after)) r
        ≡ query_step resolver
            (query_names resolver server qtype after)
            (resolver.exchange (resolver.fqdn name) qtype server)
  unfolding query_names
  query_names-quiet server qtype [] name after r h = refl
  query_names-quiet server qtype (b ∷ before) name after r ((reply, e, zero_answers), h) =
      ap (query_step resolver (query_names resolver server qtype (before ++ (name ∷ after)))) e
      ∙ ap
          (λ n.
            if ltb 0 n
            then answered reply.text
            else query_names resolver server qtype (before ++ (name ∷ after)) (some reply))
          zero_answers
      ∙ query_names-quiet server qtype before name after (some reply) h

  -- The loop ends at the reply: it is an error, or it has answers, or no name is left.
  abbrev pub EndsAt : List Text → Option Msg → Type 0
  EndsAt after none = Unit
  EndsAt after (some r) = (0 < r.answers) ⊎ (after ≡ [])

  abbrev outcome_of : Option Msg → Outcome
  outcome_of none = bad_request
  outcome_of (some r) = answered r.text

  replied :
      (address : Text) (qtype : ℕ) (after : List Text) (reply : Option Msg)
      → EndsAt after reply
      → query_step resolver (query_names resolver address qtype after) reply ≡ outcome_of reply
  unfolding query_names
  replied address qtype after none h = refl
  replied address qtype after (some r) (inl some_answers) =
      rw (lt→ltb 0 r.answers some_answers) refl
  replied address qtype after (some r) (inr last) = elim (Bool-cases (ltb 0 r.answers)) [
    | inl e ↦ rw e refl
    | inr e ↦ rw (e, last) refl
  ]

  -- What the page shows: the text of a reply, and else the result of the query before.
  abbrev pub shown_text : Dns → Option Msg → Text
  shown_text s none = s.result
  shown_text s (some r) = r.text

  show_outcome :
      (s : Dns) (reply : Option Msg)
      → (submit_settled s (delivered (outcome_of reply))).result ≡ shown_text s reply
  unfolding submit_settled on_answer unchecked_json
  show_outcome s none = refl
  show_outcome s (some r) = refl

  -- For a configuration that can be read and has a server, a type that is known, and names of which
  -- the first ones get replies without answers: if the next name gets a reply with answers, or it is
  -- the last one and gets any reply, then the page shows that reply; if it gets an error, the page goes
  -- on to show the result of the query before.
  pub query_shown :
      (config : Config) (server : Text) (servers : List Text) (qtype : ℕ) (q : Query)
      (before : List Text) (name : Text) (after : List Text) (reply : Option Msg) (s : Dns)
      → resolver.config ≡ some config
      → resolver.type_code q.kind ≡ some qtype
      → config.servers ≡ server ∷ servers
      → names_of resolver config (name_or_root q.name) ≡ before ++ (name ∷ after)
      → All (IsQuiet (server ++ (b':' ∷ config.port)) qtype) before
      → resolver.exchange (resolver.fqdn name) qtype (server ++ (b':' ∷ config.port)) ≡ reply
      → EndsAt after reply
      → (submit_settled s (delivered (api_get resolver (some q)))).result ≡ shown_text s reply
  unfolding api_get dns_query
  query_shown config server servers qtype q before name after reply s config_read type_known
        server_first names_split quiet exchanged ends =
      let address = server ++ (b':' ∷ config.port) in
      let outcome =
        ap (λ c. query_config resolver c q) config_read
        ∙ ap (λ t. query_type resolver config t q.name) type_known
        ∙ ap
            (λ ss.
              query_server resolver ss config.port qtype
                (names_of resolver config (name_or_root q.name)))
            server_first
        ∙ ap (λ names. query_names resolver address qtype names none) names_split
        ∙ query_names-quiet address qtype before name after none quiet
        ∙ ap (query_step resolver (query_names resolver address qtype after)) exchanged
        ∙ replied address qtype after reply ends in
      ap (λ o. (submit_settled s (delivered o)).result) outcome ∙ show_outcome s reply
