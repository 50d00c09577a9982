-- ===== src/Server/Memory/Clicks.antt =====
-- The links of the memory page, from a click to the blocks that the server keeps.
use kubernetes_up_running.Base.{
  ℕ, zero, suc, ◌≡◌, All-at, ◌<◌, ◌≤◌, refl, sym, ap, Option, some, none, Bool, true, List, [], ◌∷◌,
  ◌++◌, ◌∈◌, arith, ◌==◌, le→leb, if◌then◌else◌,
}
use kubernetes_up_running.Base.{replicate}
use kubernetes_up_running.Js.Text.{Text, codes, text_eq, to_decimal}
use kubernetes_up_running.Js.Element.{click}
use kubernetes_up_running.Client.Browser.{Effect, fetch, report_conn_error}
use kubernetes_up_running.Client.Router.{Handler}
use kubernetes_up_running.Client.Router.Navigation.{server_path}
use kubernetes_up_running.Client.Mem as Page
use kubernetes_up_running.Client.Mem.{Mem, Value}
use kubernetes_up_running.Client.Mem.Markup.{
  Click, alloc_click, clear_click, handle_click, render, clicks-render,
}
use kubernetes_up_running.Server.App.{
  post, Endpoint, mem_alloc, mem_clear, Router, routes, prefixes,
}
use kubernetes_up_running.Server.App.Pages.{verb_of, path_of, urls-IsFound}
use kubernetes_up_running.Server.App.Static.{strip_prefix}
use kubernetes_up_running.Server.Memory.{Outcome, answered, api_alloc, api_clear}
use kubernetes_up_running.Server.Memory.Sizes.{api_alloc_decimal}

-- `r.URL.Query().Get("size")` for a query of one parameter: what follows "?size=".
unfoldable pub size_of : Text → Text
unfolding strip_prefix
size_of [] = []
size_of (c ∷ url) =
    let rest = size_of url in
    elim (strip_prefix (codes "?size=") (c ∷ url)) [ some size ↦ size | none ↦ rest ]

-- The links by their texts.
pub data Link : Type 0 where
  allocate clear_link : Link

abbrev pub label : Link → Text
label allocate = codes "Allocate 500 MiB"
label clear_link = codes "Clear"

-- The number of blocks of 500 MiB after clicks on links, if there are `k` before.
abbrev pub blocks_after : List Link → ℕ → ℕ
blocks_after [] k = k
blocks_after (allocate ∷ links) k = blocks_after links (suc k)
blocks_after (clear_link ∷ links) k = blocks_after links 0

-- Each click on "Allocate 500 MiB" finds memory for its block beside those that are kept by then.
abbrev pub FindRoom : (has_room : List ℕ → ℕ → Bool) → List Link → ℕ → Type 0
FindRoom has_room [] k = Unit
FindRoom has_room (allocate ∷ links) k =
    (has_room (replicate k 524288000) 524288000 ≡ true) × FindRoom has_room links (suc k)
FindRoom has_room (clear_link ∷ links) k = FindRoom has_room links 0

abbrev then_blocks : Option (List ℕ) → (List ℕ → Option (List ℕ)) → Option (List ℕ)
then_blocks none next = none
then_blocks (some leaks) next = next leaks

module _ (router : Router) (max_alloc : ℕ) (has_room : List ℕ → ℕ → Bool) where
  -- What the endpoint of a request does with the blocks.
  unfoldable pub handle : Option Endpoint → (url : Text) → List ℕ → Option Outcome
  handle (some mem_alloc) url leaks = some (api_alloc max_alloc has_room (size_of url) leaks)
  handle (some mem_clear) url leaks = some (answered (api_clear leaks) 200)
  handle _ url leaks = none

  -- A request that the router dispatches.
  unfoldable pub serve : Effect Unit → List ℕ → Option Outcome
  unfolding handle
  serve (fetch method url body) leaks =
      handle (router.dispatch routes (verb_of method) (path_of url)) url leaks
  serve report_conn_error leaks = none

  -- The blocks after a request that is answered with status 200.
  abbrev succeeded : Option Outcome → Option (List ℕ)
  succeeded (some (answered leaks status)) = if status == 200 then some leaks else none
  succeeded _ = none

  module _ (numeral : Value → (format : Text) → Text) {Json : Type 0} where
    abbrev sent : Mem Json → Option Click → List ℕ → Option (List ℕ)
    sent s none leaks = none
    sent s (some c) leaks = succeeded (serve (handle_click s c) leaks)

    -- A click on the element of the rendered page with the text of the link, and clicks one after the
    -- other on a page whose state can change between them. There is none without an element, a route
    -- and a reply with status 200.
    pub click_link : Link → Mem Json → List ℕ → Option (List ℕ)
    unfolding serve handle_click
    click_link link s leaks = sent s (click (label link) (render numeral s)) leaks

    pub play : List Link → (ℕ → Mem Json) → List ℕ → Option (List ℕ)
    unfolding click_link
    play [] page leaks = some leaks
    play (link ∷ links) page leaks =
        then_blocks (click_link link (page 0) leaks) (play links (λ i. page (suc i)))

size_of-alloc :
    (base : Text) (n : ℕ)
    → base ∈ prefixes
    → size_of (base ++ codes "/mem/api" ++ codes "/alloc?size=" ++ to_decimal n) ≡ to_decimal n
unfolding size_of strip_prefix
size_of-alloc base n h =
    All-at
      (λ p. size_of (p ++ codes "/mem/api" ++ codes "/alloc?size=" ++ to_decimal n) ≡ to_decimal n)
      prefixes (refl, (refl, (refl, (refl, tt)))) base h

replicate_end : (k n : ℕ) → replicate k n ++ n ∷ [] ≡ replicate (suc k) n
replicate_end zero n = refl
replicate_end (suc k) n = ap (λ ns. n ∷ ns) (replicate_end k n)

module _ (router : Router) (max_alloc : ℕ) (has_room : List ℕ → ℕ → Bool) (base : Text)
    (h : base ∈ prefixes) where
  -- What the two requests do.
  serve_alloc :
      {Json : Type 0} (s : Mem Json) (leaks : List ℕ)
      → 524288000 ≤ max_alloc
      → max_alloc < 9223372036854775807
      → has_room leaks 524288000 ≡ true
      → server_path base Handler.mem ≡ some s.api_path
      → serve router max_alloc has_room (handle_click s (alloc_click 524288000)) leaks
        ≡ some (answered (leaks ++ 524288000 ∷ []) 200)
  unfolding serve handle_click handle Page.alloc
  serve_alloc s leaks fits bound room mounted =
      let digits = to_decimal 524288000 in
      let (f_env, (f_mem, (f_alloc, rest))) = urls-IsFound base digits h in
      let given : base ++ codes "/mem/api" ≡ s.api_path = cc in
      rw
        (
          sym given,
          router.matching post
              (path_of (base ++ codes "/mem/api" ++ codes "/alloc?size=" ++ digits)) mem_alloc
              f_alloc,
          size_of-alloc base 524288000 h,
          api_alloc_decimal max_alloc has_room leaks 524288000 (omega arith) bound,
          le→leb 524288000 max_alloc fits,
          room,
        )
        refl

  serve_clear :
      {Json : Type 0} (s : Mem Json) (leaks : List ℕ)
      → server_path base Handler.mem ≡ some s.api_path
      → serve router max_alloc has_room (handle_click s clear_click) leaks ≡ some (answered [] 200)
  unfolding serve handle_click handle Page.clear api_clear
  serve_clear s leaks mounted =
      let (f_env, (f_mem, (f_alloc, (f_clear, rest)))) = urls-IsFound base (to_decimal 0) h in
      let given : base ++ codes "/mem/api" ≡ s.api_path = cc in
      rw
        (
          sym given,
          router.matching post (path_of (base ++ codes "/mem/api" ++ codes "/clear")) mem_clear
              f_clear,
        )
        refl

  module _ (numeral : Value → (format : Text) → Text) {Json : Type 0} where
    click_blocks :
        (link : Link) (s : Mem Json) (k : ℕ)
        → 524288000 ≤ max_alloc
        → max_alloc < 9223372036854775807
        → FindRoom has_room (link ∷ []) k
        → server_path base Handler.mem ≡ some s.api_path
        → click_link router max_alloc has_room numeral link s (replicate k 524288000)
          ≡ some (replicate (blocks_after (link ∷ []) k) 524288000)
    unfolding click_link click text_eq
    click_blocks allocate s k fits bound room mounted =
        rw
          (clicks-render numeral s, serve_alloc s (replicate k 524288000) fits bound room.0 mounted)
          (ap some (replicate_end k 524288000))
    click_blocks clear_link s k fits bound room mounted =
        rw (clicks-render numeral s, serve_clear s (replicate k 524288000) mounted) refl

    -- Clicks on the links of the memory page, one after the other, on a page under a prefix of the
    -- server whose state can change between them, where the bound of the allocator (below 2 ^ 63) is
    -- 500 MiB or more and each click on "Allocate 500 MiB" finds memory for its block beside those kept
    -- by then: each click is routed and answered with status 200, and in the end the server keeps a
    -- block of 500 MiB for each click on "Allocate 500 MiB" since the last one on "Clear", and the `k`
    -- from before without it.
    pub play_blocks :
        (links : List Link) (page : ℕ → Mem Json) (k : ℕ)
        → 524288000 ≤ max_alloc
        → max_alloc < 9223372036854775807
        → FindRoom has_room links k
        → ((i : ℕ) → server_path base Handler.mem ≡ some (page i).api_path)
        → play router max_alloc has_room numeral links page (replicate k 524288000)
          ≡ some (replicate (blocks_after links k) 524288000)
    unfolding play
    play_blocks [] page k fits bound room mounted = refl
    play_blocks (allocate ∷ links) page k fits bound room mounted =
        rw (click_blocks allocate (page 0) k fits bound (room.0, tt) (mounted 0))
          (play_blocks links (λ i. page (suc i)) (suc k) fits bound room.1 (λ i. mounted (suc i)))
    play_blocks (clear_link ∷ links) page k fits bound room mounted =
        rw (click_blocks clear_link (page 0) k fits bound tt (mounted 0))
          (play_blocks links (λ i. page (suc i)) 0 fits bound room (λ i. mounted (suc i)))
