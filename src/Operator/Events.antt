-- ===== src/Operator/Events.antt =====
-- ejemplos/17 Extending Kubernetes/operator-multiplicador-v2/main.go: the keys that events put into the
-- work queue, and what a worker does with one. The informers and the queue are client-go's. The
-- reconciliation itself is that of the first version.
pub mod Worker
use kubernetes_up_running.Base.{
  Option, some, none, Bool, true, false, ◌||◌, List, [], ◌∷◌, ◌++◌, ◌==◌, if◌then◌else◌,
}
use kubernetes_up_running.Js.Text.{Text, text_eq, codes}
use kubernetes_up_running.Operator.{Cr, Client, Error, namespace_of}
use kubernetes_up_running.Operator.Api.{Key}
use kubernetes_up_running.Operator.Deployments.{reconcile_one}

unfoldable pub joined_key : (namespace name : Text) → Text
joined_key namespace name = namespace_of namespace ++ (codes "/" ++ name)

-- `enqueueObj`, for an event on a resource.
unfoldable pub enqueued : Cr → Text
unfolding joined_key
enqueued u = joined_key u.namespace u.name

pub record OwnerReference : Type 0 where
  pub kind : Text
  pub api_version : Text
  pub name : Text

-- `strings.HasPrefix(s, prefix)` and `strings.Contains(s, part)`
abbrev starts : (prefix s : Text) → Bool
starts [] s = true
starts (c ∷ prefix) [] = false
starts (c ∷ prefix) (d ∷ s) = let rest = starts prefix s in if c == d then rest else false

abbrev pub contains : (part s : Text) → Bool
contains part [] = starts part []
contains part (c ∷ s) = let rest = contains part s in starts part (c ∷ s) || rest

abbrev pub is_ours : OwnerReference → Bool
is_ours owner =
    text_eq owner.kind (codes "Multiplicador") || contains (codes "gz.com") owner.api_version

-- The handlers of events on a deployment: the key of the first owner of the kind, if there is one.
unfoldable pub owner_enqueued : (namespace : Text) → List OwnerReference → Option Text
unfolding joined_key
owner_enqueued namespace [] = none
owner_enqueued namespace (owner ∷ owners) =
    let rest = owner_enqueued namespace owners in
    if is_ours owner then some (joined_key namespace owner.name) else rest

-- `strings.SplitN(key, "/", 2)`: the parts before and after the first slash. (A key without a slash,
-- at which `parts[1]` panics, is never in the queue.)
unfoldable pub split_key : Text → Option Key
split_key [] = none
split_key (c ∷ key) =
    let rest = split_key key in
    if c == b'/'
    then some ([], key)
    else elim rest [ none ↦ none | some (namespace, name) ↦ some (c ∷ namespace, name) ]

-- What the worker does with the item at the end.
pub data Disposition : Type 0 where
  forget add_rate_limited panics : Disposition

abbrev pub settled : {W : Type 0} → W × Cr × Option Error → W × Disposition
settled (w, u, none) = (w, forget)
settled (w, u, some e) = (w, add_rate_limited)

module _ {W : Type 0} (c : Client W) (get_cr : Key → W → Option Cr) where
  abbrev pub process_found : Option Cr → W → W × Disposition
  process_found none w = (w, forget)
  process_found (some u) w = settled (reconcile_one c u w)

  abbrev pub process_at : Option Key → W → W × Disposition
  process_at none w = (w, panics)
  process_at (some key) w = process_found (get_cr key w) w

  -- `processNextItem` at an item of the queue.
  unfoldable pub process_item : Text → W → W × Disposition
  unfolding split_key
  process_item item w = process_at (split_key item) w
