-- ===== src/Client/Dns.antt =====
-- kuard/client/src/dns.jsx: the form of a DNS query, and its answer.
pub mod Form
use kubernetes_up_running.Base.{Option, some, none, List, [], ◌∷◌, ◌++◌}
use kubernetes_up_running.Js.Text.{Text, codes}
use kubernetes_up_running.Client.Browser.{
  HttpResponse, Promise, fulfilled, rejected, unchecked_json, Effect, fetch, Method,
}

pub record Query : Type 0 where
  pub kind : Text  -- the field `type`
  pub name : Text

pub record Dns : Type 0 where
  pub query : Query
  pub result : Text  -- `response.result`
  pub server_path : Text

-- The inputs of the form, by the `name` of the element.
pub data Field : Type 0 where
  kind_field name_field : Field

unfoldable pub construct : Text → Dns
construct server_path = record {
  query = record { kind = codes "A"; name = [] };
  result = [];
  server_path = server_path;
}

-- `query[k] = v`
unfoldable pub set_field : Field → Text → Query → Query
set_field kind_field v query = record query { kind = v }
set_field name_field v query = record query { name = v }

unfoldable pub handle_change : Field → Text → Dns → Dns
unfolding set_field
handle_change k v s = record s { query = set_field k v s.query }

unfoldable pub handle_submit : Dns → Effect Query
handle_submit s = fetch Method.post (s.server_path ++ codes "/api") (some s.query)

-- The functions that `handleSubmit` hands to `then`; a failure is handled nowhere.
unfoldable pub on_answer : Dns → Promise Text → Dns
on_answer s (fulfilled response) = record s { result = response }
on_answer s (rejected reason) = s

unfoldable pub submit_settled : Dns → Promise (HttpResponse Text) → Dns
submit_settled s fetched = on_answer s (unchecked_json fetched)

-- The box below the form: an empty result shows none.
abbrev result_box : Text → Option Text
result_box [] = none
result_box (c ∷ s) = some (c ∷ s)

unfoldable pub render : Dns → Text × Text × Option Text
render s = (s.query.kind, s.query.name, result_box s.result)
