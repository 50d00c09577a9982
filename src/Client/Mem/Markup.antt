-- ===== src/Client/Mem/Markup.antt =====
-- kuard/client/src/mem.jsx: the elements that the page renders. The third-party `numeral` is a
-- parameter.
use kubernetes_up_running.Base.{ℕ, ◌*◌, [], ◌∷◌, ◌++◌, map, ◌≡◌, refl}
use kubernetes_up_running.Js.Text.{Text, codes}
use kubernetes_up_running.Js.Element.{
  Element, text, elem, wrapped, table_of, class, on_click, clicks, contents,
}
use kubernetes_up_running.Client.Browser.{Effect}
use kubernetes_up_running.Client.Mem.{Mem, Value, rows, alloc, clear}

-- The clicks on the links of the page.
pub data Click : Type 0 where
  alloc_click : ℕ → Click
  clear_click : Click

unfoldable pub handle_click : {Json : Type 0} → Mem Json → Click → Effect Unit
handle_click {Json} s (alloc_click n) = alloc Json s n
handle_click {Json} s clear_click = clear Json s

abbrev cell : Text → Element Click
cell t = elem (codes "td") [] (wrapped (codes "samp") t ∷ [])

unfoldable pub row : Text → Text → Element Click
row k v = elem (codes "tr") [] (cell k ∷ cell v ∷ [])

abbrev link : Click → Text → Element Click
link handler t =
    on_click (codes "a") (class (codes "failn") ++ (codes "href", codes "#") ∷ []) handler
      (text t ∷ [])

abbrev break : Element Click
break = elem (codes "br") [] []

module _ (numeral : Value → (format : Text) → Text) where
  abbrev shown_row : Text × Value → Element Click
  shown_row (k, v) = row k (numeral v (codes "0.00 ib"))

  unfoldable pub render : {Json : Type 0} → Mem Json → Element Click
  unfolding row
  render {Json} s = elem (codes "div") [] (
      table_of (wrapped (codes "th") (codes "Key") ∷ wrapped (codes "th") (codes "Value") ∷ [])
        (map shown_row (rows Json s))
      ∷ elem (codes "div") [] (
          wrapped (codes "b") (codes "Allocate/Clear memory to force OOM")
          ∷ break
          ∷ link (alloc_click (500 * 1024 * 1024)) (codes "Allocate 500 MiB")
          ∷ break
          ∷ link clear_click (codes "Clear")
          ∷ [])
      ∷ [])

  -- The rows have no links.
  pub clicks-render :
      {Json : Type 0} (s : Mem Json)
      → clicks (render s)
        ≡ (codes "Allocate 500 MiB", alloc_click 524288000) ∷ (codes "Clear", clear_click) ∷ []
  unfolding clicks contents render rows
  clicks-render s = refl
