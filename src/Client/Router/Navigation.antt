-- ===== src/Client/Router/Navigation.antt =====
-- A click on a navigation link shows the linked page and highlights the link.
use kubernetes_up_running.Base.{
  ◌≡◌, refl, Option, some, none, Bool, true, false, [], ◌∷◌, ◌++◌, arith, ◌↔◌,
}
use kubernetes_up_running.Js.Text.{Text, codes, text_eq}
use kubernetes_up_running.Client.Router.{
  Handler, request, env, mem, liveness, readiness, dns, keygen, memq, location_render, locations,
  nav_href, shown_by, is_active, Page, handle_click,
}

text_eq-append : (base s t : Text) → text_eq (base ++ s) (base ++ t) ≡ text_eq s t
unfolding text_eq
text_eq-append [] s t = refl
text_eq-append (c ∷ base) s t = ground (arith, text_eq-append base s t)

abbrev pub server_path : Text → Handler → Option Text
server_path base request = none
server_path base env = some (base ++ codes "/env/api")
server_path base mem = some (base ++ codes "/mem/api")
server_path base liveness = some (base ++ codes "/healthy")
server_path base readiness = some (base ++ codes "/ready")
server_path base dns = some (base ++ codes "/dns")
server_path base keygen = some (base ++ codes "/keygen")
server_path base memq = some (base ++ codes "/memq")

-- At the address of a link, `Locations` shows the linked page and no other.
pub shown_by-nav_href :
    (base : Text) (h : Handler)
    → shown_by (nav_href base h) (locations base) ≡ (h, server_path base h) ∷ []
unfolding shown_by nav_href locations location_render
shown_by-nav_href base request = simp text_eq-append (unfold text_eq in refl)
shown_by-nav_href base _ = simp text_eq-append (unfold text_eq in refl)

abbrev same_handler : Handler → Handler → Bool
same_handler request request = true
same_handler env env = true
same_handler mem mem = true
same_handler liveness liveness = true
same_handler readiness readiness = true
same_handler dns dns = true
same_handler keygen keygen = true
same_handler memq memq = true
same_handler _ _ = false

is_active-nav_href :
    (base : Text) (h k : Handler) → is_active (nav_href base h) (nav_href base k) ≡ same_handler h k
unfolding is_active nav_href
is_active-nav_href base request request = simp text_eq-append (unfold text_eq in refl)
is_active-nav_href base request _ = simp text_eq-append (unfold text_eq in refl)
is_active-nav_href base _ request = simp text_eq-append (unfold text_eq in refl)
is_active-nav_href base _ _ = simp text_eq-append (unfold text_eq in refl)

same_handler_iff : (h k : Handler) → (same_handler h k ≡ true) ↔ (k ≡ h)
same_handler_iff request request = (λ _. refl, λ _. refl)
same_handler_iff request _ = (λ e. cc, λ e. cc)
same_handler_iff _ request = (λ e. cc, λ e. cc)
same_handler_iff _ _ = ground arith

-- A click on the navigation link to a page, while `Locations` listens, sets the address, shows that
-- page alone with its API path, and highlights exactly the link to that page.
pub click_shows :
    (base : Text) (h : Handler) (page : Page)
    → page.listening ≡ true
    → let after = handle_click (nav_href base h) page in
      (after.pathname ≡ nav_href base h)
      × (shown_by after.rendered (locations base) ≡ (h, server_path base h) ∷ [])
      × ((k : Handler) → (is_active after.rendered (nav_href base k) ≡ true) ↔ (k ≡ h))
unfolding handle_click
click_shows base h page listens =
    rw listens
      (refl, shown_by-nav_href base h, λ k. rw (is_active-nav_href base h k) (same_handler_iff h k))
