-- ===== src/Server/Env/RoundTrip.antt =====
-- What the page shows of the environment is the environment.
use kubernetes_up_running.Base.{
  Option, some, none, Bool, true, false, ◌≡◌, ◌≢◌, refl, ap, sym, ◌∙◌, ◌↔◌, List, [], ◌∷◌, ◌++◌,
  map, arith, ◌∈◌, All, ◌==◌, if◌then◌else◌, Bool-cases, inl, inr,
}
use kubernetes_up_running.Js.Text.{Text, text_eq, text_eq→eq}
use kubernetes_up_running.Js.Sort.{sort}
use kubernetes_up_running.Js.Object.{∈-sort_iff, ∈-for_in_iff}
use kubernetes_up_running.Client.Browser.{HttpResponse, fulfilled, unchecked_json, parse_json}
use kubernetes_up_running.Client.Env as Page
use kubernetes_up_running.Server.Maps.{Map, put, lookup, IsMap, put-IsMap, lookup-put, ∈-lookup_iff}
use kubernetes_up_running.Server.Env.{
  split_n, add_environ, EnvStatus, status_of, api_get, by_key, encoded,
}

-- A variable of the environment, as `os.Environ` gives it.
abbrev pub line : Text × Text → Text
line (k, v) = k ++ (61 ∷ v)

-- A name has no "=" in it.
abbrev pub IsName : Text → Type 0
IsName = All (λ c. c ≢ 61)

-- The value of the last variable with the name.
abbrev pub or_earlier : Option Text → Option Text → Option Text
or_earlier (some v) earlier = some v
or_earlier none earlier = earlier

abbrev pub last_value : Text → List (Text × Text) → Option Text
last_value k [] = none
last_value k ((name, v) ∷ variables) =
    or_earlier (last_value k variables) (if text_eq name k then some v else none)

split_n-line : (k v : Text) → IsName k → split_n (line (k, v)) ≡ some (k, v)
unfolding split_n
split_n-line [] v h = refl
split_n-line (c ∷ k) v h =
    let here : (c == 61) ≡ false = ground (arith, h.0) in
    rw (split_n, here, split_n-line k v h.1) refl

-- What the loop has stored.
record Stores (m : Map) (variables : List (Text × Text)) (environ : List Text) : Type 0 where
  map : Map
  stored : add_environ environ m ≡ some map
  is_map : IsMap map
  found : (k : Text) → lookup k map ≡ or_earlier (last_value k variables) (lookup k m)

or_earlier_assoc :
    (a b c : Option Text) → or_earlier (or_earlier a b) c ≡ or_earlier a (or_earlier b c)
or_earlier_assoc none b c = refl
or_earlier_assoc (some v) b c = refl

or_earlier-if :
    (b : Bool) (v : Text) (c : Option Text)
    → (if b then some v else c) ≡ or_earlier (if b then some v else none) c
or_earlier-if true v c = refl
or_earlier-if false v c = refl

or_earlier-none : (a : Option Text) → or_earlier a none ≡ a
or_earlier-none none = refl
or_earlier-none (some v) = refl

add_environ-Stores :
    (variables : List (Text × Text)) (m : Map)
    → All (λ e. IsName e.0) variables
    → IsMap m
    → Stores m variables (map line variables)
unfolding add_environ
add_environ-Stores [] m h d = record { map = m; stored = refl; is_map = d; found = λ k. refl }
add_environ-Stores ((name, v) ∷ variables) m h d =
    let r = add_environ-Stores variables (put name v m) h.1 (put-IsMap name v m d) in
    record {
      map = r.map;
      stored = rw (add_environ, split_n-line name v h.0) r.stored;
      is_map = r.is_map;
      found = λ k.
          r.found k
          ∙ ap (or_earlier (last_value k variables))
              (lookup-put k name v m ∙ or_earlier-if (text_eq name k) v (lookup k m))
          ∙ sym (or_earlier_assoc (last_value k variables) _ (lookup k m));
    }

-- The server's JSON as the client reads it: the same fields.
abbrev pub read_status : EnvStatus → Page.EnvState
read_status status = record { command_line = status.command_line; env = encoded status.env }

abbrev pub answer_with : EnvStatus → HttpResponse Page.EnvState
answer_with status = record { ok = true; status_text = "OK"; json = some (read_status status) }

render-loaded :
    (page : Page.Env) (status : EnvStatus) (e : Text × Text)
    → (e ∈ (Page.render (Page.load_settled page (fulfilled (answer_with status)))).1)
      ↔ (e ∈ status.env)
unfolding Page.render Page.load_settled Page.on_loaded unchecked_json parse_json encoded
render-loaded page status e =
    ground (arith, ∈-for_in_iff e (sort by_key status.env), ∈-sort_iff by_key e status.env)

last_value-absent :
    (k : Text) (variables : Map)
    → All (λ e. text_eq e.0 k ≡ false) variables
    → last_value k variables ≡ none
last_value-absent k [] h = refl
last_value-absent k ((name, v) ∷ variables) (here, h) =
    rw (here, last_value-absent k variables h) refl

-- Where no name comes twice, the value of a name is that of its only variable.
last_value_only :
    (k : Text) (variables : Map) → IsMap variables → last_value k variables ≡ lookup k variables
unfolding lookup
last_value_only k [] h = refl
last_value_only k ((name, v) ∷ variables) (absent, h) = elim (Bool-cases (text_eq name k)) [
  | inl e ↦
      let other : last_value k variables ≡ none =
        ap (λ t. last_value t variables) (sym (text_eq→eq name k e))
        ∙ last_value-absent name variables absent in
      rw (lookup, e, other) refl
  | inr e ↦
      rw (lookup, e) (or_earlier-none (last_value k variables) ∙ last_value_only k variables h)
]

-- If every variable of the server's environment has a name without "=", and no name comes twice (as
-- `os.Environ` gives them), the server answers, and the page that has loaded the answer shows a row with
-- a name and a value exactly if the environment has that variable. It has the server's command line.
pub rows-environ :
    (page : Page.Env) (args : List Text) (variables : List (Text × Text))
    → All (λ e. IsName e.0) variables
    → IsMap variables
    → (status : EnvStatus) × (api_get args (map line variables) ≡ some status)
      × (let loaded = Page.load_settled page (fulfilled (answer_with status)) in
          (loaded.state.command_line ≡ args)
          × ((k v : Text) → ((k, v) ∈ (Page.render loaded).1) ↔ ((k, v) ∈ variables)))
unfolding api_get Page.load_settled Page.on_loaded unchecked_json parse_json lookup
rows-environ page args variables h once =
    let r = add_environ-Stores variables [] h tt in
    let status : EnvStatus = record { command_line = args; env = r.map } in
    (
      status,
      ap (status_of args) r.stored,
      (
        refl,
        λ k v.
            let value : lookup k r.map ≡ lookup k variables =
              r.found k
              ∙ or_earlier-none (last_value k variables)
              ∙ last_value_only k variables once in
            ground (
              arith,
              render-loaded page status (k, v),
              ∈-lookup_iff k v r.map r.is_map,
              ∈-lookup_iff k v variables once,
              value,
            ),
      ),
    )
