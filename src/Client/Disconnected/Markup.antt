-- ===== src/Client/Disconnected/Markup.antt =====
-- kuard/client/src/disconnected.jsx: the elements of the banner.
use kubernetes_up_running.Base.{[], ◌∷◌, ◌++◌}
use kubernetes_up_running.Js.Text.{codes}
use kubernetes_up_running.Js.Element.{Element, text, elem, class}
use kubernetes_up_running.Client.Disconnected.{Disconnected, banner_style}

-- The style as one attribute of CSS.
unfoldable pub markup : {H : Type 0} → Disconnected → Element H
unfolding banner_style
markup s =
    let (visibility, display) = banner_style s in
    elem (codes "div")
      ((codes "id", codes "disconnected")
        ∷ (
          codes "style",
          codes "visibility:"
              ++ (codes visibility
                  ++ (codes ";display:" ++ (codes display ++ codes ";margin-bottom:8px"))),
        )
        ∷ [])
      (elem (codes "div")
          (class (codes "alert alert-warning")
            ++ (codes "role", codes "alert") ∷ (codes "style", codes "margin-bottom:0") ∷ [])
          (elem (codes "span") (class (codes "glyphicon glyphicon-disconnect")) []
            ∷ text (codes " ")
            ∷ text (codes "Connection lost to server")
            ∷ [])
        ∷ [])
