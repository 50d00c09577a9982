-- ===== src/Server/Env.antt =====
-- kuard/pkg/env/api.go: the command line and the environment of the server. Texts are within the Basic
-- Multilingual Plane, where the order of code units, of code points and of Go's bytes is the same.
pub mod RoundTrip
mod Tests
use Prim.Native.Nat.{Ordering}
use kubernetes_up_running.Base.{ℕ, Option, some, none, List, [], ◌∷◌, ◌==◌, if◌then◌else◌}
use kubernetes_up_running.Js.Text.{Text}
use kubernetes_up_running.Js.Sort.{text_lt, sort}
use kubernetes_up_running.Server.Maps.{Map, put}

-- `strings.SplitN(e, "=", 2)`; `none` where it has one part only.
unfoldable pub split_n : Text → Option (Text × Text)
split_n [] = none
split_n (c ∷ s) =
    let rest : Option (Text × Text) = elim (split_n s) [
      | none ↦ none
      | some (k, v) ↦ some (c ∷ k, v)
    ] in
    if c == 61 then some ([], s) else rest

-- The loop of `APIGet`; `none` is the panic at `splits[1]`.
unfoldable pub add_environ : List Text → Map → Option Map
unfolding split_n put
add_environ [] m = some m
add_environ (e ∷ environ) m = elim (split_n e) [
  | none ↦ none
  | some (k, v) ↦ add_environ environ (put k v m)
]

pub record EnvStatus : Type 0 where
  pub command_line : List Text
  pub env : Map

abbrev pub status_of : List Text → Option Map → Option EnvStatus
status_of args none = none
status_of args (some m) = some (record { command_line = args; env = m })

unfoldable pub api_get : (args environ : List Text) → Option EnvStatus
unfolding add_environ
api_get args environ = status_of args (add_environ environ [])

-- `encoding/json` writes the entries of a map in the order of their keys.
abbrev pub by_key : Text × Text → Text × Text → Ordering
by_key e f =
    if text_lt e.0 f.0 then Ordering.lt else if text_lt f.0 e.0 then Ordering.gt else Ordering.eq

unfoldable pub encoded : Map → List (Text × Text)
encoded m = sort by_key m
