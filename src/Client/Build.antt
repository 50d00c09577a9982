-- ===== src/Client/Build.antt =====
-- kuard/client/webpack.config.js: the build of the client and the server of its development. webpack and
-- babel are third-party; a path is relative to kuard/client.
use kubernetes_up_running.Base.{
  ℕ, Option, some, none, Bool, true, false, List, [], ◌∷◌, if◌then◌else◌,
}
use kubernetes_up_running.Js.Text.{Text, codes}
use kubernetes_up_running.Server.App.Static.{strip_prefix}

-- A rule for the files with one of the extensions, not in the excluded directory.
pub record Rule : Type 0 where
  pub test : List Text
  pub exclude : Text
  pub loader : Text
  pub presets : List Text
  pub browsers : List Text

pub record Output : Type 0 where
  pub path : Text
  pub public_path : Text
  pub filename : Text
  pub clean : Bool

-- A directory of static files and the path under which they are.
pub record Static : Type 0 where
  pub directory : Text
  pub public_path : Text

-- `bypass` gives what the function of that name returns, `none` for `undefined`.
pub record Proxy : Type 0 where
  pub context : List Text
  pub target : Text
  pub change_origin : Bool
  pub bypass : (path : Text) → Option Bool

pub record DevServer : Type 0 where
  pub static : List Static
  pub port : ℕ
  pub hot : Bool
  pub compress : Bool
  pub proxy : List Proxy

pub record Build : Type 0 where
  pub entry : Text
  pub rules : List Rule
  pub extensions : List Text
  pub output : Output
  pub cache : Text  -- the field `type`
  pub hints : Bool
  pub dev_server : DevServer

abbrev build_dir : Text
build_dir = codes "../pkg/sitedata/built"

-- `path.startsWith(prefix)`
abbrev starts_with : Option Text → Bool
starts_with none = false
starts_with (some rest) = true

-- Only the return of `false` differs from a function without a return.
unfoldable pub bypass : Text → Option Bool
unfolding strip_prefix
bypass path = if starts_with (strip_prefix (codes "/built/") path) then some false else none

unfoldable pub config : Build
unfolding bypass
config = record {
  entry = codes "./src/index.jsx";
  rules =
      record {
        test = codes ".js" ∷ codes ".jsx" ∷ [];
        exclude = codes "node_modules";
        loader = codes "babel-loader";
        presets = codes "@babel/preset-env" ∷ codes "@babel/preset-react" ∷ [];
        browsers = codes "last 2 versions" ∷ [];
      }
      ∷ [];
  extensions = codes ".js" ∷ codes ".jsx" ∷ [];
  output = record {
    path = build_dir;
    public_path = codes "/built/";
    filename = codes "bundle.js";
    clean = true;
  };
  cache = codes "filesystem";
  hints = false;
  dev_server = record {
    static = record { directory = build_dir; public_path = codes "/built/" } ∷ [];
    port = 8083;
    hot = true;
    compress = true;
    proxy =
        record {
          context = codes "**" ∷ [];
          target = codes "http://localhost:8084";
          change_origin = true;
          bypass = bypass;
        }
        ∷ [];
  };
}
