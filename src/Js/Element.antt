-- ===== src/Js/Element.antt =====
-- The elements that a component of React renders, after the components of the page itself: a tag, the
-- attributes that are texts, the handler of a click, and the children.
use kubernetes_up_running.Base.{Option, some, none, List, [], ◌∷◌, ◌++◌, if◌then◌else◌}
use kubernetes_up_running.Js.Text.{Text, text_eq, codes}

mutual
  pub data Element (H : Type 0) : Type 0 where
    text : Text → Element H
    element : (tag : Text) → List (Text × Text) → Option H → Elements H → Element H

  pub data Elements (H : Type 0) : Type 0 where
    end : Elements H
    child : Element H → Elements H → Elements H

abbrev pub class : Text → List (Text × Text)
class name = (codes "className", name) ∷ []

module _ {H : Type 0} where
  abbrev pub of_list : List (Element H) → Elements H
  of_list [] = end
  of_list (x ∷ xs) = child x (of_list xs)

  -- What is written between the tags, without a handler and with one.
  abbrev pub elem : Text → List (Text × Text) → List (Element H) → Element H
  elem tag attributes children = element tag attributes none (of_list children)

  abbrev pub on_click : Text → List (Text × Text) → H → List (Element H) → Element H
  on_click tag attributes handler children =
      element tag attributes (some handler) (of_list children)

  -- A text in an element without attributes.
  abbrev pub wrapped : (tag content : Text) → Element H
  wrapped tag content = elem tag [] (text content ∷ [])

  abbrev pub table_of : (header rows : List (Element H)) → Element H
  table_of header rows =
      elem (codes "table") (class (codes "table table-condensed table-bordered")) (
        elem (codes "thead") [] (elem (codes "tr") [] header ∷ [])
        ∷ elem (codes "tbody") [] rows
        ∷ [])

  -- The `textContent` of an element.
  unfoldable mutual
    pub text_content : Element H → Text
    text_content (text t) = t
    text_content (element tag attributes handler children) = contents children

    pub contents : Elements H → Text
    contents end = []
    contents (child x xs) = text_content x ++ contents xs

  abbrev own_click : Option H → Text → List (Text × H)
  own_click none label = []
  own_click (some handler) label = (label, handler) ∷ []

  -- The elements that handle clicks, in the order of the document, by their text.
  unfoldable mutual
    pub clicks : Element H → List (Text × H)
    clicks (text t) = []
    clicks (element tag attributes handler children) =
        own_click handler (contents children) ++ clicks_in children

    pub clicks_in : Elements H → List (Text × H)
    clicks_in end = []
    clicks_in (child x xs) = clicks x ++ clicks_in xs

abbrev labelled : {H : Type 0} → Text → List (Text × H) → Option H
labelled label [] = none
labelled label ((t, handler) ∷ rest) =
    let next = labelled label rest in if text_eq label t then some handler else next

-- The handler of the first element with the text.
unfoldable pub click : {H : Type 0} → Text → Element H → Option H
unfolding text_content clicks
click label page = labelled label (clicks page)
