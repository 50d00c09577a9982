-- ===== src/Client/Disconnected/Banner.antt =====
-- The banner is shown exactly while one interval of the component is live.
use kubernetes_up_running.Base.{
  ℕ, suc, ◌≤◌, ◌<◌, ◌≡◌, refl, ◌⊎◌, inl, inr, some, none, true, false, List, ◌∷◌, arith, ◌∈◌, All,
  ap,
}
use kubernetes_up_running.Client.Browser.Intervals.{All-lt_of_le, All-le_mono, remove_first}
use kubernetes_up_running.Client.Disconnected.{
  Disconnected, report_conn_error, clear_conn_error, will_unmount, banner_style,
}

-- `others` are the live intervals of the other components.
module _ (others : List ℕ) where
  -- What happens to the component: a report of an error, or the firing of an interval of its own.
  pub data Step : Disconnected → Disconnected → Type 0 where
    report : (s : Disconnected) → Step s (report_conn_error s)
    fire :
        (s : Disconnected) (id : ℕ)
        → id ∈ s.timers.live
        → ¬ (id ∈ others)
        → Step s (clear_conn_error s)

  pub data Reach (s : Disconnected) : Disconnected → Type 0 where
    here : Reach s s
    then : {t u : Disconnected} → Reach s t → Step t u → Reach s u

  -- No interval of the component, and the banner hidden.
  pub record IsQuiet (s : Disconnected) : Type 0 where
    pub no_timer : s.timer ≡ none
    pub hidden : s.is_disconnected ≡ false
    pub untouched : s.timers.live ≡ others
    pub older : All (λ x. x ≤ s.timers.last_id) others

  -- One interval of the component, and the banner shown.
  pub record IsAlerting (s : Disconnected) : Type 0 where
    pub id : ℕ
    pub own_timer : s.timer ≡ some (suc id)
    pub visible : s.is_disconnected ≡ true
    pub one_more : s.timers.live ≡ suc id ∷ others
    pub newer : All (λ x. x < suc id) others
    pub older : All (λ x. x ≤ s.timers.last_id) others

  report-IsAlerting :
      (s : Disconnected) → IsQuiet s ⊎ IsAlerting s → IsAlerting (report_conn_error s)
  unfolding report_conn_error
  report-IsAlerting s (inl q) =
      let newer =
        All-lt_of_le s.timers.last_id (suc s.timers.last_id) others (omega arith) q.older in
      let older =
        All-le_mono s.timers.last_id (suc s.timers.last_id) others (omega arith) q.older in
      record {
        id = s.timers.last_id;
        own_timer = rw q.no_timer;
        visible = refl;
        one_more = rw q.no_timer (ap (λ l. suc s.timers.last_id ∷ l) q.untouched);
        newer = newer;
        older = rw q.no_timer older;
      }
  report-IsAlerting s (inr a) =
      let newer =
        All-lt_of_le s.timers.last_id (suc s.timers.last_id) others (omega arith) a.older in
      let older =
        All-le_mono s.timers.last_id (suc s.timers.last_id) others (omega arith) a.older in
      let freed = remove_first (suc a.id) s.timers.live others a.one_more a.newer in
      record {
        id = s.timers.last_id;
        own_timer = rw a.own_timer;
        visible = refl;
        one_more = rw a.own_timer (ap (λ l. suc s.timers.last_id ∷ l) freed);
        newer = newer;
        older = rw a.own_timer older;
      }

  clear-IsQuiet : (s : Disconnected) → IsQuiet s ⊎ IsAlerting s → IsQuiet (clear_conn_error s)
  unfolding clear_conn_error
  clear-IsQuiet s (inl q) = record {
    no_timer = refl;
    hidden = refl;
    untouched = rw q.no_timer q.untouched;
    older = rw q.no_timer q.older;
  }
  clear-IsQuiet s (inr a) = record {
    no_timer = refl;
    hidden = refl;
    untouched = rw a.own_timer (remove_first (suc a.id) s.timers.live others a.one_more a.newer);
    older = rw a.own_timer a.older;
  }

  Step-kept : {s t : Disconnected} → Step s t → IsQuiet s ⊎ IsAlerting s → IsQuiet t ⊎ IsAlerting t
  Step-kept (report s) h = inr (report-IsAlerting s h)
  Step-kept (fire s id live own) h = inl (clear-IsQuiet s h)

  -- In every state that reports and firings lead to from a quiet one, either the banner is hidden and
  -- the component has no live interval, or the banner is shown and it has exactly one.
  pub Reach-IsQuiet_or_IsAlerting :
      {s t : Disconnected} → IsQuiet s → Reach s t → IsQuiet t ⊎ IsAlerting t
  Reach-IsQuiet_or_IsAlerting q here = inl q
  Reach-IsQuiet_or_IsAlerting q (then r st) = Step-kept st (Reach-IsQuiet_or_IsAlerting q r)

  -- However often errors are reported, one firing of the component's interval hides the banner and
  -- leaves the intervals of the other components alone.
  pub fire_after_reports :
      (s t : Disconnected)
      → IsQuiet s
      → Reach s t
      → (banner_style (report_conn_error t) ≡ ("visible", "block"))
        × (banner_style (clear_conn_error (report_conn_error t)) ≡ ("hidden", "none"))
        × ((clear_conn_error (report_conn_error t)).timers.live ≡ others)
  unfolding banner_style
  fire_after_reports s t q r =
      let a = report-IsAlerting t (Reach-IsQuiet_or_IsAlerting q r) in
      let after = clear-IsQuiet (report_conn_error t) (inr a) in
      (rw a.visible, rw after.hidden, after.untouched)

  -- Unmounting the component in any such state leaves no interval of its own.
  unmount_leaves_none :
      (s t : Disconnected) → IsQuiet s → Reach s t → (will_unmount t).timers.live ≡ others
  unfolding will_unmount
  unmount_leaves_none s t q r = unmounted (Reach-IsQuiet_or_IsAlerting q r)
    where
      unmounted : IsQuiet t ⊎ IsAlerting t → (will_unmount t).timers.live ≡ others
      unmounted (inl h) = rw h.no_timer h.untouched
      unmounted (inr h) =
          rw h.own_timer (remove_first (suc h.id) t.timers.live others h.one_more h.newer)
