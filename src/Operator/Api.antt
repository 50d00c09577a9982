-- ===== src/Operator/Api.antt =====
-- The API server that the operators call: objects of a kind under a namespace and a name, and what
-- its documentation promises to a client that is alone.
use kubernetes_up_running.Base.{◌≡◌, Option, some, none, Bool, true, false, ◌&&◌, if◌then◌else◌}
use kubernetes_up_running.Js.Text.{Text, text_eq}

-- A namespace and a name in it.
abbrev pub Key : Type 0
Key = Text × Text

unfoldable pub key_eq : Key → Key → Bool
key_eq (ns, name) (other_ns, other) = text_eq ns other_ns && text_eq name other

-- The calls of a client for one kind of object, on a state `W` of the cluster; `none` is an error.
-- `accepts` is the validation that the server makes of an object that is written: for instance, it
-- refuses a name that the kind does not allow, and a second owner that is the controller.
pub record Resource (W : Type 0) (A : Type 0) : Type 0 where
  pub accepts : Key → A → Bool
  pub get : Key → W → Option A
  pub create : Key → A → W → Option W
  pub update : Key → A → W → Option W
  pub delete : Key → W → Option W

-- The state after a call whose error is ignored.
abbrev pub after_call : {W : Type 0} → W → Option W → W
after_call w none = w
after_call w (some later) = later

abbrev pub Writes : {W A : Type 0} → Resource W A → Key → Option A → W → Option W → Type 0
Writes {W} r k a w result =
    (later : W) × (result ≡ some later)
    × ((j : Key) → r.get j later ≡ (if key_eq k j then a else r.get j w))

-- An object that is accepted can be created, if it is new, or updated, if it is there; one that is
-- there can be deleted. A call, whether it succeeds or not, concerns this object alone.
pub record IsReliable {W A : Type 0} (r : Resource W A) : Type 0 where
  pub created :
      (k : Key) (a : A) (w : W)
      → r.get k w ≡ none
      → r.accepts k a ≡ true
      → Writes r k (some a) w (r.create k a w)
  pub updated :
      (k : Key) (a before : A) (w : W)
      → r.get k w ≡ some before
      → r.accepts k a ≡ true
      → Writes r k (some a) w (r.update k a w)
  pub deleted :
      (k : Key) (before : A) (w : W) → r.get k w ≡ some before → Writes r k none w (r.delete k w)
  pub create_alone :
      (k : Key) (a : A) (w : W) (j : Key)
      → key_eq k j ≡ false
      → r.get j (after_call w (r.create k a w)) ≡ r.get j w
  pub update_alone :
      (k : Key) (a : A) (w : W) (j : Key)
      → key_eq k j ≡ false
      → r.get j (after_call w (r.update k a w)) ≡ r.get j w

-- Calls for objects of one kind leave those of another kind alone.
abbrev pub Keeps : {W A : Type 0} → Resource W A → W → Option W → Type 0
Keeps {W} r w result = (j : Key) → r.get j (after_call w result) ≡ r.get j w

pub record IsApart {W A B : Type 0} (r : Resource W A) (s : Resource W B) : Type 0 where
  pub create_keeps : (k : Key) (b : B) (w : W) → Keeps r w (s.create k b w)
  pub update_keeps : (k : Key) (b : B) (w : W) → Keeps r w (s.update k b w)
  pub delete_keeps : (k : Key) (w : W) → Keeps r w (s.delete k w)
