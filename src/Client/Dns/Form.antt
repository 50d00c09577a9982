-- ===== src/Client/Dns/Form.antt =====
-- What the form sends.
use kubernetes_up_running.Base.{◌≡◌, refl, some, List, [], ◌∷◌, ◌++◌, arith}
use kubernetes_up_running.Js.Text.{Text, codes}
use kubernetes_up_running.Client.Browser.{HttpResponse, Promise, fetch, Method}
use kubernetes_up_running.Client.Dns.{
  Dns, Field, kind_field, name_field, handle_change, handle_submit, on_answer, submit_settled,
}

-- What happens on the page: the user types into a field, or an earlier query is answered.
pub data Event : Type 0 where
  change : Field → Text → Event
  answer : Promise (HttpResponse Text) → Event

pub page_after : Dns → List Event → Dns
page_after s [] = s
page_after s (change k v ∷ events) = page_after (handle_change k v s) events
page_after s (answer fetched ∷ events) = page_after (submit_settled s fetched) events

-- The last text typed into a field, or else the one that it held before.
pub last_typed : Field → Text → List Event → Text
last_typed k held [] = held
last_typed kind_field held (change kind_field v ∷ events) = last_typed kind_field v events
last_typed name_field held (change name_field v ∷ events) = last_typed name_field v events
last_typed k held (_ ∷ events) = last_typed k held events

query_after :
    (s : Dns) (events : List Event)
    → ((page_after s events).query ≡ record {
      kind = last_typed kind_field s.query.kind events;
      name = last_typed name_field s.query.name events;
    })
      × ((page_after s events).server_path ≡ s.server_path)
unfolding page_after last_typed handle_change submit_settled on_answer
query_after s [] = (refl, refl)
query_after s (change kind_field v ∷ events) = query_after (handle_change kind_field v s) events
query_after s (change name_field v ∷ events) = query_after (handle_change name_field v s) events
query_after s (answer fetched ∷ events) =
    ground (arith, query_after (submit_settled s fetched) events)

-- Whatever was typed and answered before, a submission posts the last text typed into each of the two
-- fields (or what the field held at first) to the page's API.
submit-last_typed :
    (s : Dns) (events : List Event)
    → handle_submit (page_after s events)
      ≡ fetch Method.post (s.server_path ++ codes "/api") (
          some (record {
            kind = last_typed kind_field s.query.kind events;
            name = last_typed name_field s.query.name events;
          }))
unfolding handle_submit
submit-last_typed s events = let (query, path) = query_after s events in rw (query, path)
