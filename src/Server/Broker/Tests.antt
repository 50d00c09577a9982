-- ===== src/Server/Broker/Tests.antt =====
-- The theorems on the broker at a concrete queue, "work".
use mathlib.Core.List.{Perm}
use mathlib.Core.List.Perm
use kubernetes_up_running.Client.Browser.{fulfilled}
use kubernetes_up_running.Client.MemQ as Page
use kubernetes_up_running.Client.MemQ.{stats_settled}
use kubernetes_up_running.Client.MemQ.Table.{InNameOrder}
use kubernetes_up_running.Server.Broker.Api.{stats_handler}
use kubernetes_up_running.Server.Broker.Shown.{received, row_of, queues_shown}
use kubernetes_up_running.Base.{
  ◌↔◌, ◌+◌, ◌≡◌, refl, some, none, [], ◌∷◌, ◌++◌, map, All, length, replicate,
}
use kubernetes_up_running.Js.Text.{Text, codes, text_eq}
use kubernetes_up_running.Server.Broker.{
  ok, err, empty_queue, not_exist, Message, Broker, new_broker, new_queue, find, write,
  create_queue, delete_queue, drain_queue, appended, stats, put_message, get_message, get_queue,
}
use kubernetes_up_running.Server.Broker.Counters.{Reach, Step, AddsUp, stats-AddsUp}
use kubernetes_up_running.Server.Broker.Fifo.{put_all, get_all, get_all-put_all}
use kubernetes_up_running.Server.Broker.Deleted.{put_deleted_lost, deleted_not_exist}

abbrev work : Text
work = codes "work"

abbrev first : Message
first = record { id = codes "0a"; body = codes "one"; created = 1 }

abbrev second : Message
second = record { id = codes "0b"; body = codes "two"; created = 2 }

abbrev created : Broker
created = (create_queue work new_broker).0

abbrev filled : Broker
filled = write 0 (appended first (created.store 0)) created

filled-Reach : Reach filled
filled-Reach =
    Reach.after (Reach.after Reach.start (Step.create work new_broker)) (Step.put 0 first created)

stats-AddsUp_example : All AddsUp (stats ((work, 0) ∷ []) filled)
stats-AddsUp_example = stats-AddsUp filled-Reach ((work, 0) ∷ [])

get_all-put_all_example :
    get_all (length ((first ∷ []) ++ second ∷ []) + 1) work (put_all work (second ∷ []) filled)
    ≡ map ok ((first ∷ []) ++ second ∷ []) ++ replicate 1 (err empty_queue)
unfolding create_queue new_broker find text_eq appended new_queue
get_all-put_all_example = get_all-put_all work 0 filled (first ∷ []) (second ∷ []) 1 refl refl

put_deleted_lost_example :
    let c = (create_queue work (delete_queue work filled).0).0 in
    (get_message work (write 0 (appended second (c.store 0)) c)).1 ≡ err empty_queue
unfolding create_queue new_broker find text_eq appended new_queue get_queue
put_deleted_lost_example = put_deleted_lost work 0 second filled-Reach refl

deleted_not_exist_example :
    let c = (delete_queue work filled).0 in
    (delete_queue work c ≡ (c, some not_exist))
    × (drain_queue work c ≡ (c, some not_exist))
    × (put_message work none 3 (codes "three") c ≡ (c, err not_exist))
    × (get_message work c ≡ (c, err not_exist))
    × ((create_queue work c).1 ≡ none)
deleted_not_exist_example = deleted_not_exist work none 3 (codes "three") filled

-- Two queues, visited in the other order than they are kept in.
abbrev two : Broker
two = (create_queue (codes "mail") filled).0

queues_shown_example :
    let (after, effects) =
      stats_settled
        (Page.construct (codes "/memq"))
        (fulfilled (received (stats_handler ((work, 0) ∷ (codes "mail", 1) ∷ []) two))) in
    Perm after.stats.queues (map (row_of two) two.queues)
    × InNameOrder after.stats.queues
    × ((Page.render after ≡ Page.no_queues) ↔ (two.queues ≡ []))
    × (effects ≡ [])
unfolding create_queue new_broker find text_eq new_queue
queues_shown_example =
    queues_shown (Page.construct (codes "/memq")) two ((work, 0) ∷ (codes "mail", 1) ∷ [])
      (Perm.swap (codes "mail", 1) (work, 0) [])
