-- ===== src/Server/Env/Tests.antt =====
-- The theorem on the environment at two variables.
use kubernetes_up_running.Base.{◌≡◌, refl, ◌↔◌, some, List, [], ◌∷◌, map, arith, ◌∈◌}
use kubernetes_up_running.Js.Text.{Text, text_eq, codes}
use kubernetes_up_running.Client.Browser.{fulfilled}
use kubernetes_up_running.Client.Env as Page
use kubernetes_up_running.Server.Env.{EnvStatus, api_get}
use kubernetes_up_running.Server.Env.RoundTrip.{line, answer_with, rows-environ}

abbrev page : Page.Env
page = Page.construct (codes "/env/api")

abbrev args : List Text
args = codes "/kuard" ∷ []

abbrev variables : List (Text × Text)
variables = (codes "A", codes "x=y") ∷ (codes "7", codes "") ∷ []

rows-environ_example :
    (status : EnvStatus) × (api_get args (map line variables) ≡ some status)
    × (let loaded = Page.load_settled page (fulfilled (answer_with status)) in
        (loaded.state.command_line ≡ args)
        × ((k v : Text) → ((k, v) ∈ (Page.render loaded).1) ↔ ((k, v) ∈ variables)))
unfolding text_eq
rows-environ_example = rows-environ page args variables (omega arith) ((refl, tt), (tt, tt))
