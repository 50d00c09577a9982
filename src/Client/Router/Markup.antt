-- ===== src/Client/Router/Markup.antt =====
-- kuard/client/src/router.jsx: the elements that Link and Locations render. The properties that they
-- pass on are attributes; those of Link do not have an `onClick`.
use kubernetes_up_running.Base.{List, ◌∷◌}
use kubernetes_up_running.Js.Text.{Text, codes}
use kubernetes_up_running.Js.Element.{Element, elem, on_click}

module _ {H : Type 0} where
  unfoldable pub link_render :
      (handle_click : H) (href : Text) → List (Text × Text) → List (Element H) → Element H
  link_render handle_click href props children =
      on_click (codes "a") ((codes "href", href) ∷ props) handle_click children

  unfoldable pub locations_render : List (Text × Text) → List (Element H) → Element H
  locations_render props children = elem (codes "div") props children
