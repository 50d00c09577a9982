-- ===== src/Client/KeyGen/Markup.antt =====
-- kuard/client/src/keygen.jsx: the elements that the page renders, and the form with its fields. The
-- third-party form of rjsf is a parameter.
use kubernetes_up_running.Base.{Option, some, none, List, [], ◌∷◌, ◌++◌, map}
use kubernetes_up_running.Js.Text.{Text, codes}
use kubernetes_up_running.Js.Element.{Element, text, elem, wrapped, class}
use kubernetes_up_running.Client.KeyGen.{Config, KeyGen, render_history}

pub data Kind : Type 0 where
  boolean integer string : Kind

-- A property of the schema: its name, its title and its type.
pub record Field : Type 0 where
  pub name : Text
  pub title : Text
  pub kind : Kind

abbrev field : Text → Text → Kind → Field
field name title kind = record { name = name; title = title; kind = kind }

unfoldable pub schema : List Field
schema =
    field (codes "enable") (codes "Enabled?") boolean
    ∷ field (codes "exitOnComplete") (codes "Exit server on completion?") boolean
    ∷ field (codes "exitCode") (codes "Exit code when exiting. 0 is success.") integer
    ∷ field (codes "numToGen") (codes "Number of keys to generate. 0 is infinite.") integer
    ∷ field (codes "timeToRun") (codes "Time to run, in seconds. 0 is infinite.") integer
    ∷ field (codes "memQServer")
        (codes
          "Base URL of the MemQ server to draw from. Can be http://localhost:8080/memq/server.")
        string
    ∷ field (codes "memQQueue") (codes "The Queue to pull work items from.") string
    ∷ []

-- The classes that `uiSchema` gives to fields.
unfoldable pub ui_schema : List (Text × Text)
ui_schema = (codes "enable", codes "foo") ∷ []

-- What the form is given.
pub record FormProps (H : Type 0) : Type 0 where
  pub schema : List Field
  pub ui_schema : List (Text × Text)
  pub class_name : Text
  pub form_data : Config
  pub children : List (Element H)

module _ {H : Type 0} where
  -- The attribute `value` of the button is written twice, the second time as a text after it.
  unfoldable pub form_props : KeyGen → FormProps H
  unfolding schema ui_schema
  form_props s = record {
    schema = schema;
    ui_schema = ui_schema;
    class_name = codes "form";
    form_data = s.state.config;
    children =
        elem (codes "input")
          (class (codes "btn btn-default")
            ++ (codes "type", codes "submit") ∷ (codes "value", codes "Submit") ∷ [])
          []
        ∷ text (codes "value=\"Submit\" />")
        ∷ [];
  }

  abbrev history : Option (List Text) → Element H
  history none = wrapped (codes "p") (codes "No recorded workload history")
  history (some lines) = elem (codes "pre") [] (map (wrapped (codes "span")) lines)

  unfoldable pub markup : (form : FormProps H → Element H) → KeyGen → Element H
  unfolding form_props render_history
  markup form s = elem (codes "div") [] (
      elem (codes "div") (class (codes "panel panel-default")) (
        elem (codes "div") (class (codes "panel-heading"))
          (text (codes "KeyGen Synthetic Workload") ∷ [])
        ∷ elem (codes "div") (class (codes "panel-body")) (
            wrapped (codes "div") (
              codes "This controls a synthetic workload on the server: creating 4096 bit RSA key "
              ++ (codes
                    "pairs.  These parameters control how many to create and, optionally, cause "
                  ++ codes "the server to exit with a specific exit code."))
            ∷ form (form_props s)
            ∷ [])
        ∷ [])
      ∷ history (render_history s)
      ∷ [])
