-- ===== src/Server/App/Files/Tests.antt =====
-- A listing of a directory, and a link of it.
use kubernetes_up_running.Base.{true, [], ◌∷◌, if◌then◌else◌, ◌==◌, ◌||◌}
use kubernetes_up_running.Js.Text.{Text, text_eq, codes}
use kubernetes_up_running.Server.App.{Router, find_route}
use kubernetes_up_running.Server.App.Files as Files

abbrev first_match : Router
first_match = record {
  dispatch = λ rs verb path. find_route verb path rs;
  matching = λ verb path e h. h;
}

-- A directory with one entry.
abbrev log_dir : Text → Files.Node
log_dir path =
    if text_eq path (codes "/var/log")
    then Files.directory (record { name = codes "app"; is_dir = true } ∷ [])
    else Files.missing

-- What a browser sends and a server reads of an address without an escape: all before a query or a
-- fragment.
request_path : Text → Text
request_path [] = []
request_path (c ∷ address) =
    let rest = request_path address in if c == b'?' || c == b'#' then [] else c ∷ rest
