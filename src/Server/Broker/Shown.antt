-- ===== src/Server/Broker/Shown.antt =====
-- The table of the MemQ page, from the queues of the broker.
use mathlib.Core.Path.{subst}
use mathlib.Core.List.{Perm}
use mathlib.Core.List.Perm
use kubernetes_up_running.Base.{
  ℕ, ◌-◌, ◌≡◌, ◌↔◌, refl, sym, ap, Option, some, none, List, [], ◌∷◌, map, ltb, ◌==◌, if◌then◌else◌,
}
use kubernetes_up_running.Base.Int.{ℤ, pos, negsuc}
use kubernetes_up_running.Js.Text.{Text, codes}
use kubernetes_up_running.Client.Browser.{HttpResponse, fulfilled}
use kubernetes_up_running.Client.MemQ as Page
use kubernetes_up_running.Client.MemQ.{MemQ, stats_settled, render, no_queues}
use kubernetes_up_running.Client.MemQ.Table.{InNameOrder, Perm-nil_iff, stats_settled_ok}
use kubernetes_up_running.Server.Broker.{Broker, Stat, stat_of, stats}
use kubernetes_up_running.Server.Broker.Api.{Body, Reply, json, stats_handler}

-- The number that 64 bits of a counter stand for, which is written into the JSON.
unfoldable pub signed : ℕ → ℤ
signed n = if ltb n 9223372036854775808 then pos n else negsuc (18446744073709551615 - n)

abbrev pub read_stat : Stat → Page.Stat
read_stat s = record {
  name = s.name;
  depth = signed s.depth;
  enqueued = signed s.enqueued;
  dequeued = signed s.dequeued;
  drained = signed s.drained;
}

-- The JSON that the page reads of a body.
abbrev pub read_stats : Body (List Stat) → Option Page.Stats
read_stats (json queues) = some (record { kind = codes "stats"; queues = map read_stat queues })
read_stats _ = none

abbrev pub received : Reply (List Stat) → HttpResponse Page.Stats
received reply = record { ok = reply.status == 200; status_text = ""; json = read_stats reply.body }

-- The row of a queue of the broker.
abbrev pub row_of : Broker → Text × ℕ → Page.Stat
row_of b (name, ref) = read_stat (stat_of name (b.store ref))

rows-visited :
    (b : Broker) (visited : List (Text × ℕ))
    → map read_stat (stats visited b) ≡ map (row_of b) visited
unfolding stats
rows-visited b [] = refl
rows-visited b (q ∷ visited) = ap (λ rows. row_of b q ∷ rows) (rows-visited b visited)

map-nil : {A B : Type 0} (f : A → B) (xs : List A) → map f xs ≡ [] → xs ≡ []
map-nil f [] e = refl
map-nil f (x ∷ xs) e = cc

-- A poll of the MemQ page that the statistics' handler answers, in whatever order Go visits the
-- queues: the page then has exactly one row for each queue of the broker, with its counters as signed
-- numbers, in the order of the names, and the notice of no queues exactly if the broker has none; no
-- error is reported.
pub queues_shown :
    (s : MemQ) (b : Broker) (visited : List (Text × ℕ))
    → Perm visited b.queues
    → let (after, effects) = stats_settled s (fulfilled (received (stats_handler visited b))) in
      Perm after.stats.queues (map (row_of b) b.queues)
      × InNameOrder after.stats.queues
      × ((render after ≡ no_queues) ↔ (b.queues ≡ []))
      × (effects ≡ [])
unfolding stats_handler
queues_shown s b visited order =
    let reply = received (stats_handler visited b) in
    let (shuffled, sorted, notice, quiet) =
      stats_settled_ok s reply
        (record { kind = codes "stats"; queues = map read_stat (stats visited b) }) refl refl in
    let rows =
      subst (λ l. Perm l (map (row_of b) b.queues)) (sym (rows-visited b visited))
        (Perm.map (row_of b) order) in
    let same = Perm-nil_iff (map read_stat (stats visited b)) (map (row_of b) b.queues) rows in
    (
      Perm.trans shuffled rows,
      sorted,
      (
        λ e. map-nil (row_of b) b.queues (same.0 (notice.0 e)),
        λ e. notice.1 (same.1 (ap (map (row_of b)) e)),
      ),
      quiet,
    )
