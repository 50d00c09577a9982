-- ===== src/Client/MemQ/Markup.antt =====
-- kuard/client/src/memq.jsx: the elements that the page renders, with the manual of the API.
use kubernetes_up_running.Base.{suc, some, List, [], ◌∷◌, ◌++◌, map}
use kubernetes_up_running.Base.Int.{ℤ, pos, negsuc}
use kubernetes_up_running.Js.Text.{Text, codes, to_decimal}
use kubernetes_up_running.Js.Element.{Element, elem, wrapped, table_of}
use kubernetes_up_running.Client.Markdown as Markdown
use kubernetes_up_running.Client.MemQ.{MemQ, Stat}

abbrev line : Text → Text
line s = s ++ codes "\n"

unfoldable pub api_md : Text
api_md =
    line (codes " This shows the status of a simple in memory queue.  This is")
    ++ (line (codes "based heavily on https://github.com/kelseyhightower/memq.")
        ++ (line []
            ++ (line (
                  codes
                    "The API is as follows with URLs being relative to `<server addr>/<api-base>/memq/server`.")
                ++ (line (codes "See `pkg/memq/types.go` for the data structures returned.")
                    ++ (line []
                        ++ (line (codes "| Method | Url | Desc")
                            ++ (line (codes "| --- | --- | ---")
                                ++ (line (codes "| `GET` | `/stats` | Get stats on all queues")
                                    ++ (line (codes "| `PUT` | `/queues/:queue` | Create a queue")
                                        ++ (line (
                                              codes "| `DELETE` | `/queue/:queue` | Delete a queue")
                                            ++ (line (
                                                  codes
                                                    "| `POST` | `/queue/:queue/drain` | Discard all items in queue")
                                                ++ (line (
                                                      codes
                                                        "| `POST` | `/queue/:queue/enqueue` | Add item to queue.  Body is plain text. Response is message object.")
                                                    ++ line (
                                                        codes
                                                          "| `POST` | `/queue/:queue/dequeue` | Grab an item off the queue and return it. Returns a 204 \"No Content\" if queue is empty.")))))))))))))

-- A number as a child.
abbrev shown : ℤ → Text
shown (pos n) = to_decimal n
shown (negsuc n) = codes "-" ++ to_decimal (suc n)

module _ {H : Type 0} where
  abbrev cell : Text → Element H
  cell t = wrapped (codes "td") t

  unfoldable pub row : Stat → Element H
  row q = elem (codes "tr") [] (
      cell q.name
      ∷ cell (shown q.depth)
      ∷ cell (shown q.enqueued)
      ∷ cell (shown q.dequeued)
      ∷ cell (shown q.drained)
      ∷ [])

  abbrev heading : Text → Element H
  heading t = wrapped (codes "th") t

  unfoldable pub status : List Stat → Element H
  unfolding row
  status [] = wrapped (codes "div") (codes " There are no queues created ")
  status (q ∷ qs) =
      table_of
        (heading (codes "Name")
          ∷ heading (codes "Depth")
          ∷ heading (codes "Enqueued")
          ∷ heading (codes "Dequeued")
          ∷ heading (codes "Drained")
          ∷ [])
        (map row (q ∷ qs))

  -- The manual is given by its HTML, which the element `raw` makes of it.
  unfoldable pub markup :
      (raw : Text → Element H) → (Markdown.Options → Text → Text) → MemQ → Element H
  unfolding status api_md
  markup raw marked s = elem (codes "div") [] (
      status s.stats.queues
      ∷ elem (codes "hr") [] []
      ∷ raw (Markdown.render marked (some api_md))
      ∷ [])
