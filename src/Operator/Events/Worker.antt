-- ===== src/Operator/Events/Worker.antt =====
-- What a worker does after an event on a resource or on its deployment.
use mathlib.Core.Path.{subst}
use kubernetes_up_running.Base.{
  ◌≡◌, ◌≢◌, refl, sym, ap, ◌∙◌, Option, some, none, true, false, List, [], ◌∷◌, ◌++◌, All, ◌==◌,
}
use kubernetes_up_running.Js.Text.{Text, codes}
use kubernetes_up_running.Operator.{Cr, Client, IsCluster, IsHosted, Error, namespace_of}
use kubernetes_up_running.Operator.Reconcile.{svc_key, AcceptsService}
use kubernetes_up_running.Base.Int.{ℤ}
use kubernetes_up_running.Operator.Api.{Key}
use kubernetes_up_running.Operator.Deployments.{
  multiplicador_of, is_positive, depl_key, reconcile_one, AcceptsDeployment,
}
use kubernetes_up_running.Operator.Desired.{IsDeployed}
use kubernetes_up_running.Operator.Converged.{reconcile_one-IsDeployed}
use kubernetes_up_running.Operator.Events.{
  joined_key, enqueued, OwnerReference, is_ours, owner_enqueued, split_key, forget, process_item,
  process_at, process_found, settled,
}

-- No character of the text is a slash.
abbrev pub HasNoSlash : Text → Type 0
HasNoSlash s = All (λ c. (c == b'/') ≡ false) s

split_key-slash : (s t : Text) → HasNoSlash s → split_key (s ++ (codes "/" ++ t)) ≡ some (s, t)
unfolding split_key
split_key-slash [] t h = refl
split_key-slash (c ∷ s) t (h, rest) = rw (h, split_key-slash s t rest) refl

namespace_of-HasNoSlash : (ns : Text) → HasNoSlash ns → HasNoSlash (namespace_of ns)
namespace_of-HasNoSlash [] h = (refl, (refl, (refl, (refl, (refl, (refl, (refl, tt)))))))
namespace_of-HasNoSlash (c ∷ ns) h = h

split_key-joined_key :
    (ns name : Text) → HasNoSlash ns → split_key (joined_key ns name) ≡ some (namespace_of ns, name)
unfolding joined_key
split_key-joined_key ns name h =
    split_key-slash (namespace_of ns) name (namespace_of-HasNoSlash ns h)

-- The references before that of the resource are of other kinds.
owner_enqueued-first :
    (u : Cr) (others rest : List OwnerReference) (owner : OwnerReference)
    → All (λ o. is_ours o ≡ false) others
    → is_ours owner ≡ true
    → owner.name ≡ u.name
    → owner_enqueued u.namespace (others ++ owner ∷ rest) ≡ some (enqueued u)
unfolding owner_enqueued enqueued
owner_enqueued-first u [] rest owner h ours named = rw (ours, named) refl
owner_enqueued-first u (o ∷ others) rest owner (h, hs) ours named =
    rw h (owner_enqueued-first u others rest owner hs ours named)

settled_fine : {W : Type 0} (t : W × Cr × Option Error) → t.2 ≡ none → settled t ≡ (t.0, forget)
settled_fine (w, u, none) h = refl
settled_fine (w, u, some e) h = cc

module _ {W : Type 0} (c : Client W) (cluster : IsCluster c) (get_cr : Key → W → Option Cr) where
  -- In a cluster that no one else changes, for a resource that has a name, a namespace without a slash,
  -- is not being deleted, has a positive `multiplicador`, and whose deployment and service (new ones, or
  -- those that are there with what is wrong about them put right) and proxy the API server accepts: an
  -- event on a deployment whose
  -- first owner of the kind has its name puts the same item into the queue as an event on the resource;
  -- where the item leads to the resource, a worker that takes it reconciles without an error, forgets
  -- the item, and leaves the deployment that the resource asks for.
  pub process_item-IsDeployed :
      (u : Cr) (n : ℤ) (w : W) (others rest : List OwnerReference) (owner : OwnerReference)
      → HasNoSlash u.namespace
      → u.name ≢ []
      → u.deleting ≡ false
      → u.multiplicador ≡ some n
      → is_positive n ≡ true
      → AcceptsDeployment c u (c.deployments.get (depl_key u) w)
      → AcceptsService c u (c.services.get (svc_key u) w)
      → IsHosted c u
      → All (λ o. is_ours o ≡ false) others
      → is_ours owner ≡ true
      → owner.name ≡ u.name
      → get_cr (namespace_of u.namespace, u.name) w ≡ some u
      → let result = process_item c get_cr (enqueued u) w in
        (owner_enqueued u.namespace (others ++ owner ∷ rest) ≡ some (enqueued u))
        × (result.1 ≡ forget)
        × IsDeployed u (c.deployments.get (depl_key u) result.0)
  unfolding process_item enqueued joined_key
  process_item-IsDeployed u n w others rest owner plain named live given positive deployable
        accepted hosted hs ours same there =
      let (fine, deployed) =
        reconcile_one-IsDeployed c cluster u w named deployable accepted hosted live
          (ap (λ o. is_positive (multiplicador_of o)) given ∙ positive) in
      let done : process_item c get_cr (enqueued u) w ≡ ((reconcile_one c u w).0, forget) =
        ap (λ k. process_at c get_cr k w) (split_key-joined_key u.namespace u.name plain)
        ∙ ap (λ o. process_found c get_cr o w) there
        ∙ settled_fine (reconcile_one c u w) fine in
      (
        owner_enqueued-first u others rest owner hs ours same,
        ap (λ r. r.1) done,
        subst (λ r. IsDeployed u (c.deployments.get (depl_key u) r.0)) (sym done) deployed,
      )
