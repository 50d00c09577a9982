-- ===== src/Server/Probe.antt =====
-- kuard/pkg/debugprobe: a health probe whose next answers can be made to fail. Each section under
-- the probe's mutex is one step. (`lastID` is a 64-bit counter of requests, here unbounded.)
pub mod Answers
pub mod History
pub mod EndToEnd
use kubernetes_up_running.Base.{
  is_empty, ℕ, zero, suc, ◌-◌, Option, some, none, Bool, true, false, not, List, [], ◌∷◌, ◌++◌, map,
  reverse, ltb, if◌then◌else◌, length,
}
use kubernetes_up_running.Base.Int.{ℤ, pos, negsuc}
use kubernetes_up_running.Js.Text.{Text, codes, to_decimal}
use kubernetes_up_running.Server.Newest.{drop}

abbrev pub max_history : ℕ
max_history = 20

-- The JSON of the API.
pub record HistoryStatus : Type 0 where
  pub id : ℕ
  pub when : Text
  pub rel_when : Text
  pub code : ℕ

pub record ProbeStatus : Type 0 where
  pub probe_path : Text
  pub fail_next : ℤ
  pub history : List HistoryStatus

module _ (Time : Type 0) where
  pub record ProbeHistory : Type 0 where
    pub id : ℕ
    pub when : Time
    pub code : ℕ

  pub record Probe : Type 0 where
    pub base_path : Text
    pub last_id : ℕ
    pub fail_next : ℤ
    pub history : List ProbeHistory

  unfoldable pub new : Probe
  new = record { base_path = []; last_id = 0; fail_next = pos 0; history = [] }

  -- `AddRoutes`, as far as it changes the probe.
  unfoldable pub add_routes : Text → Probe → Probe
  add_routes base p = if not (is_empty p.base_path) then record p { base_path = base } else p

  unfoldable pub set_config : ℤ → Probe → Probe
  set_config n p = record p { fail_next = n }

  -- The newest `max_history` entries.
  unfoldable pub trim : List ProbeHistory → List ProbeHistory
  trim history =
      if ltb max_history (length history)
      then drop (length history - max_history) history
      else history

  unfoldable pub record_request : Time → ℕ → Probe → Probe
  unfolding trim
  record_request now code p = record {
    base_path = p.base_path;
    last_id = suc p.last_id;
    fail_next = p.fail_next;
    history = trim (p.history ++ record { id = suc p.last_id; when = now; code = code } ∷ []);
  }

  -- The status, the message and the counter after it.
  unfoldable pub outcome : ℤ → ℕ × Text × ℤ
  outcome (pos zero) = (200, codes "ok", pos zero)
  outcome (pos (suc n)) = (500, codes "fail, " ++ to_decimal n ++ codes " left", pos n)
  outcome (negsuc n) = (500, codes "fail, permanent", negsuc n)

  -- A call of the probe: its new state, with the status and message of the response.
  unfoldable pub handle : Time → Probe → Probe × ℕ × Text
  handle now p =
      let (status, message, left) = outcome p.fail_next in
      (record_request now status (record p { fail_next = left }), status, message)

  -- `friendly` and `relative` are the formatting of a time by `htmlutils`.
  module _ (friendly relative : Time → Text) where
    abbrev pub history_status : ProbeHistory → HistoryStatus
    history_status v = record {
      id = v.id;
      when = friendly v.when;
      rel_when = relative v.when;
      code = v.code;
    }

    -- `lockedGet`: the newest entry first.
    unfoldable pub locked_get : Probe → ProbeStatus
    locked_get p = record {
      probe_path = p.base_path;
      fail_next = p.fail_next;
      history = reverse (map history_status p.history);
    }

    -- `APIPut`: `none` is a body that does not decode, answered with status 400. `SetConfig` and
    -- `APIGet` take the mutex one after the other: `between` is what other requests do in between.
    unfoldable pub api_put :
        (between : Probe → Probe) → Option ℤ → Probe → Probe × Option ProbeStatus
    unfolding set_config
    api_put between none p = (p, none)
    api_put between (some n) p = let q = between (set_config n p) in (q, some (locked_get q))
