-- ===== src/Client/Markdown.antt =====
-- kuard/client/src/markdown.jsx: a text in Markdown. The third-party `marked` is a parameter.
use kubernetes_up_running.Base.{Option, some, none, Bool, true, false, [], ◌∷◌, ◌++◌}
use kubernetes_up_running.Js.Text.{Text, codes}

-- `marked.setOptions`, with the renderer's one method.
pub record Options : Type 0 where
  pub table : (header body : Text) → Text
  pub gfm : Bool
  pub tables : Bool
  pub breaks : Bool
  pub pedantic : Bool
  pub sanitize : Bool
  pub smart_lists : Bool
  pub smartypants : Bool

abbrev line : Text → Text
line s = s ++ (10 ∷ [])

unfoldable pub table : (header body : Text) → Text
table header body =
    line (codes "<table class=\"table table-condensed table-bordered\">")
    ++ (line (codes "<thead>")
        ++ (header
            ++ (line (codes "</thead>")
                ++ (line (codes "<tbody>")
                    ++ (body ++ (line (codes "</tbody>") ++ line (codes "</table>")))))))

unfoldable pub options : Options
unfolding table
options = record {
  table = table;
  gfm = true;
  tables = true;
  breaks = false;
  pedantic = false;
  sanitize = true;
  smart_lists = true;
  smartypants = false;
}

-- `text || ''`
abbrev text_or_empty : Option Text → Text
text_or_empty none = []
text_or_empty (some text) = text

module _ (marked : Options → Text → Text) where
  unfoldable pub render : Option Text → Text
  unfolding options
  render text = marked options (text_or_empty text)
