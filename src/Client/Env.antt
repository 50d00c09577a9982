-- ===== src/Client/Env.antt =====
-- kuard/client/src/env.jsx: the page of the server's command line and environment.
use kubernetes_up_running.Base.{none, List, [], ◌∷◌}
use kubernetes_up_running.Js.Text.{Text, codes}
use kubernetes_up_running.Js.Object.{Entry, for_in}
use kubernetes_up_running.Client.Browser.{
  HttpResponse, Promise, fulfilled, rejected, unchecked_json, Effect, fetch, Method,
}

pub record EnvState : Type 0 where
  pub command_line : List Text
  -- the properties of the object, as created
  pub env : List Entry

pub record Env : Type 0 where
  pub state : EnvState
  pub api_path : Text

unfoldable pub construct : Text → Env
construct api_path = record { state = record { command_line = []; env = [] }; api_path = api_path }

unfoldable pub load_state : Env → Effect Unit
load_state s = fetch Method.get s.api_path none

-- The function that `loadState` hands to `then`; a failure is handled nowhere.
unfoldable pub on_loaded : Env → Promise EnvState → Env
on_loaded s (fulfilled response) = record s { state = response }
on_loaded s (rejected reason) = s

unfoldable pub load_settled : Env → Promise (HttpResponse EnvState) → Env
load_settled s fetched = on_loaded s (unchecked_json fetched)

unfoldable pub did_mount : Env → List (Effect Unit)
unfolding load_state
did_mount s = load_state s ∷ []

-- The texts of the command line, each with a space after it.
unfoldable pub args : List Text → List Text
args [] = []
args (arg ∷ rest) = arg ∷ codes " " ∷ args rest

-- The command line, and a row for each property.
unfoldable pub render : Env → List Text × List Entry
unfolding args
render s = (args s.state.command_line, for_in s.state.env)
