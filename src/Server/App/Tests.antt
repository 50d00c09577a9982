-- ===== src/Server/App/Tests.antt =====
-- A router that takes the first route that matches, and requests to it.
use kubernetes_up_running.Base.{
  ℕ, ◌≡◌, refl, inl, inr, Option, some, none, Bool, List, [], ◌∷◌, All, if◌then◌else◌, Bool-cases,
}
use kubernetes_up_running.Base.Int.{pos}
use kubernetes_up_running.Js.Text.{Text, text_eq, text_eq→eq, codes}
use kubernetes_up_running.Client.Env as Env
use kubernetes_up_running.Client.Mem as Mem
use kubernetes_up_running.Client.Probe as Probe
use kubernetes_up_running.Client.Dns as Dns
use kubernetes_up_running.Client.KeyGen as KeyGen
use kubernetes_up_running.Client.MemQ as MemQ
use kubernetes_up_running.Client.Router.{Handler, nav_href}
use kubernetes_up_running.Client.Router.Navigation.{server_path}
use kubernetes_up_running.Client.Shell.{render, nav}
use kubernetes_up_running.Server.App.{
  get, Router, find_route, static, root, routes, Surroundings, get_page_context,
}
use kubernetes_up_running.Server.App.Static.{Embeds, static_handler, built_file}
use kubernetes_up_running.Server.App.Pages.{
  Pages, client_requests, IsRouted, client_requests-IsRouted,
}
use kubernetes_up_running.Client.Build.{Proxy, config}
use kubernetes_up_running.Server.App.DevServer.{
  Forwarder, IsForwarded, bundle as bundle_path, client_requests-IsForwarded,
}
use kubernetes_up_running.Server.App.DeepLinks.{open_address, deep_link_shows}

abbrev first_match : Router
first_match = record {
  dispatch = λ rs verb path. find_route verb path rs;
  matching = λ verb path e h. h;
}

-- One embedded file.
abbrev bundle : Text → Option ℕ
bundle path = if text_eq path (codes "built/bundle.js") then some 7 else none

bundle-Embeds : Embeds bundle
bundle-Embeds path h = elim (Bool-cases (text_eq path (codes "built/bundle.js"))) [
  | inl e ↦ (
    codes "built",
    codes "bundle.js",
    inr (inl refl),
    text_eq→eq path (codes "built/bundle.js") e,
  )
  | inr e ↦ absurd (h (rw e refl))
]

built_file_example :
    (first_match.dispatch routes get (codes "/b/built/bundle.js")
      ≡ some (static (codes "/b/built")))
    × (static_handler bundle (codes "/b/built") (codes "/b/built/bundle.js") ≡ none)
built_file_example =
    built_file first_match bundle (codes "/b") (codes "bundle.js") bundle-Embeds
      (inr (inr (inl refl)))

-- The pages under the prefix "/a", as they are constructed.
abbrev fresh_pages : Pages Unit
fresh_pages = record {
  env = Env.construct (codes "/a/env/api");
  mem = Mem.construct Unit (codes "/a/mem/api");
  liveness = Probe.construct (codes "/a/healthy");
  readiness = Probe.construct (codes "/a/ready");
  dns = Dns.construct (codes "/a/dns");
  keygen = KeyGen.construct (codes "/a/keygen");
  memq = MemQ.construct (codes "/a/memq");
}

client_requests-IsRouted_example :
    All (IsRouted first_match) (client_requests fresh_pages 500 (pos 3))
unfolding Env.construct Mem.construct Probe.construct Dns.construct KeyGen.construct MemQ.construct
client_requests-IsRouted_example =
    client_requests-IsRouted first_match (codes "/a") fresh_pages 500 (pos 3) (inr (inl refl))
      (refl, refl, refl, refl, refl, refl, refl)

abbrev host : Surroundings
host = record {
  hostname = codes "pod";
  version = codes "v1";
  interfaces = [];
  dump = codes "GET /c/-/mem HTTP/1.1";
  proto = codes "HTTP/1.1";
  remote_addr = codes "10.0.0.1:40000";
}

deep_link_shows_example :
    (open_address first_match bundle host (codes "/-/mem")
      ≡ (Handler.mem, server_path [] Handler.mem) ∷ [])
    × (first_match.dispatch routes get (codes "/-/mem") ≡ some (root []))
    × ((render (codes "/-/mem") (get_page_context host [])).links ≡ nav (codes "/-/mem") [])
unfolding nav_href text_eq
deep_link_shows_example =
    deep_link_shows first_match bundle host [] Handler.mem 7 bundle-Embeds refl (inl refl)

-- A forwarder that looks at the first proxy alone.
abbrev stopped : Option Bool → Text → Option Text
stopped none target = some target
stopped (some b) target = none

abbrev first_proxy : List Proxy → Text → Option Text
first_proxy [] path = none
first_proxy (p ∷ ps) path = stopped (p.bypass path) p.target

abbrev forwarder : Forwarder
forwarder = record {
  forward = first_proxy;
  passes = λ p path context e. rw e refl;
  stops = λ p path context e. rw e refl;
}

client_requests-IsForwarded_example :
    All (IsForwarded forwarder) (client_requests fresh_pages 500 (pos 3))
    × (forwarder.forward config.dev_server.proxy (bundle_path (codes "/a"))
        ≡ some (codes "http://localhost:8084"))
unfolding Env.construct Mem.construct Probe.construct Dns.construct KeyGen.construct MemQ.construct
client_requests-IsForwarded_example =
    client_requests-IsForwarded forwarder (codes "/a") fresh_pages 500 (pos 3) (inr (inl refl))
      (refl, refl, refl, refl, refl, refl, refl)
