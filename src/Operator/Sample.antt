-- ===== src/Operator/Sample.antt =====
-- A cluster as three tables of objects, with a client that meets the laws.
use kubernetes_up_running.Base.{
  ℕ, suc, ◌≡◌, refl, Option, some, none, Bool, true, false, not, ◌&&◌, ◌||◌, List, [], ◌∷◌, ltb,
  ◌==◌, if◌then◌else◌,
}
use kubernetes_up_running.Base.Int.{ℤ, negsuc}
use kubernetes_up_running.Js.Text.{Text}
use kubernetes_up_running.Operator.{
  Proxy, Service, Deployment, OwnerRef, Cr, Client, IsProxyServer, IsHosted, IsCluster,
}
use kubernetes_up_running.Operator.Api.{Key, key_eq, Resource, IsReliable, IsApart, after_call}

abbrev pub Store : Type 0 → Type 0
Store A = Key → Option A

abbrev pub Cluster : Type 0
Cluster = Store Proxy × Store Service × Store Deployment

abbrev pub write : {A : Type 0} → Key → Option A → Store A → Store A
write k a s j = if key_eq k j then a else s j

-- A write that wants the object to be there, or not to be.
abbrev pub if_absent : {A B : Type 0} → Option A → B → Option B
if_absent none b = some b
if_absent (some a) b = none

abbrev pub if_present : {A B : Type 0} → Option A → B → Option B
if_present none b = none
if_present (some a) b = some b

-- A write that the server accepts.
abbrev pub checked : {B : Type 0} → Bool → Option B → Option B
checked true b = b
checked false b = none

abbrev controllers : List OwnerRef → ℕ
controllers [] = 0
controllers (o ∷ owners) = if o.controller then suc (controllers owners) else controllers owners

abbrev has_dot : Text → Bool
has_dot [] = false
has_dot (c ∷ name) = c == b'.' || has_dot name

-- No dot in the name of a service, and at most one controller.
abbrev pub service_accepted : Key → Service → Bool
service_accepted k s = not (has_dot k.1) && ltb (controllers s.owners) 2

abbrev not_negative : Option ℤ → Bool
not_negative (some (negsuc n)) = false
not_negative _ = true

-- At most one controller, and no negative number of replicas.
abbrev pub deployment_accepted : Key → Deployment → Bool
deployment_accepted k d = ltb (controllers d.owners) 2 && not_negative d.replicas

abbrev pub proxies : Resource Cluster Proxy
proxies = record {
  accepts = λ k p. true;
  get = λ k w. w.0 k;
  create = λ k a w. if_absent (w.0 k) (write k (some a) w.0, w.1, w.2);
  update = λ k a w. if_present (w.0 k) (write k (some a) w.0, w.1, w.2);
  delete = λ k w. if_present (w.0 k) (write k none w.0, w.1, w.2);
}

abbrev pub services : Resource Cluster Service
services = record {
  accepts = service_accepted;
  get = λ k w. w.1 k;
  create =
      λ k a w. checked (service_accepted k a) (if_absent (w.1 k) (w.0, write k (some a) w.1, w.2));
  update =
      λ k a w. checked (service_accepted k a) (if_present (w.1 k) (w.0, write k (some a) w.1, w.2));
  delete = λ k w. if_present (w.1 k) (w.0, write k none w.1, w.2);
}

abbrev pub deployments : Resource Cluster Deployment
deployments = record {
  accepts = deployment_accepted;
  get = λ k w. w.2 k;
  create = λ k a w.
      checked (deployment_accepted k a) (if_absent (w.2 k) (w.0, w.1, write k (some a) w.2));
  update = λ k a w.
      checked (deployment_accepted k a) (if_present (w.2 k) (w.0, w.1, write k (some a) w.2));
  delete = λ k w. if_present (w.2 k) (w.0, w.1, write k none w.2);
}

-- Every write of a resource or its status fails.
abbrev pub client : Client Cluster
client = record {
  proxies = proxies;
  services = services;
  deployments = deployments;
  update_cr = λ u w. none;
  update_status = λ u w. none;
}

-- What a write leaves alone when it succeeds, it leaves alone.
absent_keeps :
    {A B : Type 0} (look : Cluster → B) (o : Option A) (w later : Cluster)
    → look later ≡ look w
    → look (after_call w (if_absent o later)) ≡ look w
absent_keeps look none w later e = e
absent_keeps look (some a) w later e = refl

present_keeps :
    {A B : Type 0} (look : Cluster → B) (o : Option A) (w later : Cluster)
    → look later ≡ look w
    → look (after_call w (if_present o later)) ≡ look w
present_keeps look none w later e = refl
present_keeps look (some a) w later e = e

checked_keeps :
    {B : Type 0} (look : Cluster → B) (ok : Bool) (w : Cluster) (result : Option Cluster)
    → look (after_call w result) ≡ look w
    → look (after_call w (checked ok result)) ≡ look w
checked_keeps look true w result e = e
checked_keeps look false w result e = refl

proxies-IsReliable : IsReliable proxies
proxies-IsReliable = record {
  created = λ k a w e ok. ((write k (some a) w.0, w.1, w.2), rw (e) refl, λ j. refl);
  updated = λ k a b w e ok. ((write k (some a) w.0, w.1, w.2), rw (e) refl, λ j. refl);
  deleted = λ k b w e. ((write k none w.0, w.1, w.2), rw e refl, λ j. refl);
  create_alone = λ k a w j other.
      absent_keeps (proxies.get j) (w.0 k) w (write k (some a) w.0, w.1, w.2) (rw other refl);
  update_alone = λ k a w j other.
      present_keeps (proxies.get j) (w.0 k) w (write k (some a) w.0, w.1, w.2) (rw other refl);
}

services-IsReliable : IsReliable services
services-IsReliable = record {
  created = λ k a w e ok. ((w.0, write k (some a) w.1, w.2), rw (ok, e) refl, λ j. refl);
  updated = λ k a b w e ok. ((w.0, write k (some a) w.1, w.2), rw (ok, e) refl, λ j. refl);
  deleted = λ k b w e. ((w.0, write k none w.1, w.2), rw e refl, λ j. refl);
  create_alone = λ k a w j other.
      checked_keeps (services.get j) (service_accepted k a) w _
        (absent_keeps (services.get j) (w.1 k) w (w.0, write k (some a) w.1, w.2) (rw other refl));
  update_alone = λ k a w j other.
      checked_keeps (services.get j) (service_accepted k a) w _
        (present_keeps (services.get j) (w.1 k) w (w.0, write k (some a) w.1, w.2) (rw other refl));
}

deployments-IsReliable : IsReliable deployments
deployments-IsReliable = record {
  created = λ k a w e ok. ((w.0, w.1, write k (some a) w.2), rw (ok, e) refl, λ j. refl);
  updated = λ k a b w e ok. ((w.0, w.1, write k (some a) w.2), rw (ok, e) refl, λ j. refl);
  deleted = λ k b w e. ((w.0, w.1, write k none w.2), rw e refl, λ j. refl);
  create_alone = λ k a w j other.
      checked_keeps (deployments.get j) (deployment_accepted k a) w _ (
        absent_keeps (deployments.get j) (w.2 k) w (w.0, w.1, write k (some a) w.2)
          (rw other refl));
  update_alone = λ k a w j other. checked_keeps (deployments.get j) (deployment_accepted k a) w _ (
      present_keeps (deployments.get j) (w.2 k) w (w.0, w.1, write k (some a) w.2) (rw other refl));
}

pub proxies-IsProxyServer : IsProxyServer client
proxies-IsProxyServer = record {
  reliable = proxies-IsReliable;
  stored = λ k p w e. refl;
  detached_accepted = λ k uid prefix p e. refl;
}

pub every-IsHosted : (u : Cr) → IsHosted client u
every-IsHosted u = record { fresh_accepted = refl; merged_accepted = λ annotations p ok. refl }

services-IsApart :
    {A : Type 0} (r : Resource Cluster A)
    → ((s : Store Service) (w : Cluster) (j : Key) → r.get j (w.0, s, w.2) ≡ r.get j w)
    → IsApart r services
services-IsApart r h = record {
  create_keeps = λ k a w j. checked_keeps (r.get j) (service_accepted k a) w _ (
      absent_keeps (r.get j) (w.1 k) w (w.0, write k (some a) w.1, w.2)
        (h (write k (some a) w.1) w j));
  update_keeps = λ k a w j. checked_keeps (r.get j) (service_accepted k a) w _ (
      present_keeps (r.get j) (w.1 k) w (w.0, write k (some a) w.1, w.2)
        (h (write k (some a) w.1) w j));
  delete_keeps = λ k w j.
      present_keeps (r.get j) (w.1 k) w (w.0, write k none w.1, w.2) (h (write k none w.1) w j);
}

pub client-IsCluster : IsCluster client
client-IsCluster = record {
  proxies_reliable = proxies-IsProxyServer;
  services_reliable = services-IsReliable;
  services_apart = services-IsApart proxies (λ s w j. refl);
  services_deployments = record {
    create_keeps = λ k a w j.
        checked_keeps (services.get j) (deployment_accepted k a) w _
          (absent_keeps (services.get j) (w.2 k) w (w.0, w.1, write k (some a) w.2) refl);
    update_keeps = λ k a w j.
        checked_keeps (services.get j) (deployment_accepted k a) w _
          (present_keeps (services.get j) (w.2 k) w (w.0, w.1, write k (some a) w.2) refl);
    delete_keeps =
        λ k w j. present_keeps (services.get j) (w.2 k) w (w.0, w.1, write k none w.2) refl;
  };
  services_cr = λ u w j. refl;
  services_status = λ u w j. refl;
  cr_apart = λ u w j. refl;
  deployments_reliable = deployments-IsReliable;
  deployments_services = services-IsApart deployments (λ s w j. refl);
  deployments_proxies = record {
    create_keeps =
        λ k a w j. absent_keeps (deployments.get j) (w.0 k) w (write k (some a) w.0, w.1, w.2) refl;
    update_keeps = λ k a w j.
        present_keeps (deployments.get j) (w.0 k) w (write k (some a) w.0, w.1, w.2) refl;
    delete_keeps =
        λ k w j. present_keeps (deployments.get j) (w.0 k) w (write k none w.0, w.1, w.2) refl;
  };
  deployments_cr = λ u w j. refl;
  deployments_status = λ u w j. refl;
}
