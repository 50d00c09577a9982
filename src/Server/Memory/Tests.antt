-- ===== src/Server/Memory/Tests.antt =====
-- The theorems on allocation at concrete sizes.
use kubernetes_up_running.Base.{
  ℕ, ◌+◌, ◌≡◌, refl, inl, inr, some, Bool, List, [], ◌∷◌, ◌++◌, arith, leb,
}
use kubernetes_up_running.Js.Text.{codes, to_decimal}
use kubernetes_up_running.Client.Mem as Page
use kubernetes_up_running.Server.App.{Router, find_route}
use kubernetes_up_running.Server.Memory.{answered, api_alloc}
use kubernetes_up_running.Server.Memory.Clicks.{allocate, clear_link, play, play_blocks}
use kubernetes_up_running.Server.Memory.Sizes.{api_alloc_decimal, api_alloc_malformed}

-- The bound of the allocator of a 64-bit Linux.
abbrev max_alloc : ℕ
max_alloc = 281474976710656

abbrev sum : List ℕ → ℕ
sum [] = 0
sum (n ∷ ns) = n + sum ns

-- Memory for 2 GiB.
abbrev has_room : List ℕ → ℕ → Bool
has_room leaks n = leb (sum leaks + n) 2147483648

api_alloc_decimal_example :
    api_alloc max_alloc has_room (to_decimal 524288000) (7 ∷ [])
    ≡ answered ((7 ∷ []) ++ 524288000 ∷ []) 200
api_alloc_decimal_example =
    api_alloc_decimal max_alloc has_room (7 ∷ []) 524288000 (omega arith) (omega arith)

api_alloc_malformed_example :
    api_alloc max_alloc has_room (codes "12" ++ (109 ∷ [])) (7 ∷ [])
    ≡ answered ((7 ∷ []) ++ 0 ∷ []) 400
api_alloc_malformed_example =
    api_alloc_malformed max_alloc has_room (7 ∷ []) (codes "12") [] 109 (omega arith) (omega arith)

abbrev first_match : Router
first_match = record {
  dispatch = λ rs verb path. find_route verb path rs;
  matching = λ verb path e h. h;
}

abbrev page : Page.Mem Unit
page = Page.construct Unit (codes "/b/mem/api")

play_blocks_example :
    play first_match max_alloc has_room
      (λ value format. format)
      (allocate ∷ clear_link ∷ allocate ∷ allocate ∷ [])
      (λ i. page)
      []
    ≡ some (524288000 ∷ 524288000 ∷ [])
unfolding Page.construct
play_blocks_example =
    play_blocks first_match max_alloc has_room (codes "/b") (inr (inr (inl refl)))
      (λ value format. format) (allocate ∷ clear_link ∷ allocate ∷ allocate ∷ []) (λ i. page) 0
      (omega arith) (omega arith) (refl, (refl, (refl, tt))) (λ i. refl)
