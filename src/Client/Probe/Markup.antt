-- ===== src/Client/Probe/Markup.antt =====
-- kuard/client/src/probe.jsx: the elements that the page renders. A click configures the number that it
-- carries.
use kubernetes_up_running.Base.{List, [], ◌∷◌, ◌++◌, map}
use kubernetes_up_running.Base.Int.{ℤ, pos, negsuc}
use kubernetes_up_running.Js.Text.{Text, codes, to_decimal}
use kubernetes_up_running.Js.Element.{Element, text, elem, wrapped, table_of, class, on_click}
use kubernetes_up_running.Client.Probe.{
  Probe, HistoryRow, Description, permanently_succeeds, fails_for_next, permanently_fails, describe,
}

unfoldable pub description : Description → Element ℤ
description permanently_succeeds = wrapped (codes "span") (codes " Probe will permanently succeed ")
description (fails_for_next n) =
    elem (codes "span") []
      (text (codes " Probe will fail for next ") ∷ text (to_decimal n) ∷ text (codes " calls") ∷ [])
description permanently_fails = wrapped (codes "span") (codes " Probe will permanently fail ")

unfoldable pub history_row : HistoryRow → Element ℤ
history_row h = elem (codes "tr") [] (
    wrapped (codes "td") (to_decimal h.id)
    ∷ wrapped (codes "td") h.when
    ∷ wrapped (codes "td") h.rel_when
    ∷ wrapped (codes "td") (to_decimal h.code)
    ∷ [])

unfoldable pub history : List HistoryRow → Element ℤ
unfolding history_row
history [] = wrapped (codes "p") (codes " No recorded probe history ")
history (h ∷ hs) =
    table_of
      (wrapped (codes "th") (codes "ID")
        ∷ elem (codes "th") ((codes "colSpan", codes "2") ∷ []) (text (codes "When") ∷ [])
        ∷ wrapped (codes "th") (codes "Status")
        ∷ [])
      (map history_row (h ∷ hs))

abbrev link : ℤ → Text → Element ℤ
link n t =
    on_click (codes "a") (class (codes "failn") ++ (codes "href", codes "#") ∷ []) n (text t ∷ [])

abbrev space : Element ℤ
space = text (codes " ")

-- The links, with the texts between them.
unfoldable pub choices : Element ℤ
choices = elem (codes "span") (class (codes "small")) (
    link (pos 0) (codes "Succeed")
    ∷ text (codes " | ")
    ∷ space
    ∷ link (negsuc 0) (codes "Fail")
    ∷ text (codes " | ")
    ∷ space
    ∷ text (codes "Fail for next N calls: ")
    ∷ space
    ∷ link (pos 1) (codes "1")
    ∷ space
    ∷ space
    ∷ link (pos 2) (codes "2")
    ∷ space
    ∷ space
    ∷ link (pos 3) (codes "3")
    ∷ space
    ∷ space
    ∷ link (pos 5) (codes "5")
    ∷ space
    ∷ space
    ∷ link (pos 10) (codes "10")
    ∷ [])

unfoldable pub markup : Probe → Element ℤ
unfolding description history choices describe
markup s = elem (codes "div") [] (
    elem (codes "p") [] (
      text (codes "Probe is being served on ")
      ∷ elem (codes "a")
          ((codes "href", s.server_path)
            ∷ (codes "target", codes "_blank")
            ∷ (codes "rel", codes "noopener noreferrer")
            ∷ [])
          (text s.server_path ∷ [])
      ∷ [])
    ∷ elem (codes "p") []
        (description (describe s.state.fail_next) ∷ elem (codes "br") [] [] ∷ choices ∷ [])
    ∷ history s.state.history
    ∷ [])
