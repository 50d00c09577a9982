-- ===== src/Server/Memory.antt =====
-- kuard/pkg/memory/api.go: memory that is allocated on request and never freed until it is cleared.
-- A block of memory is given by its size.
pub mod Sizes
pub mod Clicks
mod Tests
use kubernetes_up_running.Base.{
  ℕ, ◌+◌, ◌-◌, ◌*◌, Option, some, none, Bool, true, false, ◌&&◌, ◌||◌, List, [], ◌∷◌, ◌++◌, leb,
  ltb, ◌==◌, if◌then◌else◌,
}
use kubernetes_up_running.Base.Int.{ℤ, pos, negsuc}
use kubernetes_up_running.Js.Text.{Text}

abbrev pub digit_of : ℕ → Option ℕ
digit_of c = if leb b'0' c && leb c b'9' then some (c - b'0') else none

abbrev pub cons_digit : Option ℕ → Option (List ℕ) → Option (List ℕ)
cons_digit (some d) (some ds) = some (d ∷ ds)
cons_digit _ _ = none

-- `ParseUint(s, 10, 64)` from the value of the digits before: `none` is a syntax error, at the first
-- character that is no digit. At the first digit with which the value leaves 64 bits it returns the
-- largest one, whatever follows.
unfoldable pub scan : ℕ → Text → Option ℕ
scan n [] = some n
scan n (c ∷ s) = elim (digit_of c) [
  | none ↦ none
  | some d ↦
      let rest = scan (n * 10 + d) s in
      if ltb (n * 10 + d) 18446744073709551616 then rest else some 18446744073709551615
]

abbrev pub parse_uint_64 : Text → Option ℕ
parse_uint_64 [] = none
parse_uint_64 (c ∷ s) = scan 0 (c ∷ s)

-- `ParseInt(s, 10, 64)`: the value and whether there is no error. A syntax error gives 0, and an
-- overflow the bound that is exceeded.
abbrev pub positive_64 : Option ℕ → ℤ × Bool
positive_64 none = (pos 0, false)
positive_64 (some n) =
    if ltb n 9223372036854775808 then (pos n, true) else (pos 9223372036854775807, false)

abbrev pub negative_64 : Option ℕ → ℤ × Bool
negative_64 none = (pos 0, false)
negative_64 (some n) =
    if n == 0
    then (pos 0, true)
    else if leb n 9223372036854775808
    then (negsuc (n - 1), true)
    else (negsuc 9223372036854775807, false)

unfoldable pub parse_int_64 : Text → ℤ × Bool
unfolding scan
parse_int_64 [] = (pos 0, false)
parse_int_64 (c ∷ s) =
    if c == b'-'
    then negative_64 (parse_uint_64 s)
    else if c == b'+'
    then positive_64 (parse_uint_64 s)
    else positive_64 (parse_uint_64 (c ∷ s))

-- What `make` does: a block of a size, a panic, or the end of the process by the runtime's fatal error
-- of no memory.
pub data Allocation : Type 0 where
  block : ℕ → Allocation
  panics : Allocation
  out_of_memory : Allocation

-- How a request ends: with the blocks that are kept and the status of the reply; by a panic, by which
-- it is aborted and the blocks stay as they were; or with the process, which no request survives.
pub data Outcome : Type 0 where
  answered : List ℕ → ℕ → Outcome
  aborted : Outcome
  dead : Outcome

-- `max_alloc` is the size above which `make` panics; it also panics at a negative size. `has_room` says
-- whether the system has memory for a block beside those kept. A block of size 0 takes none.
module _ (max_alloc : ℕ) (has_room : List ℕ → ℕ → Bool) where
  unfoldable pub make : List ℕ → ℤ → Allocation
  make leaks (pos n) =
      if leb n max_alloc
      then (if n == 0 || has_room leaks n then block n else out_of_memory)
      else panics
  make leaks (negsuc n) = panics

  abbrev pub append_leak : Allocation → List ℕ → ℕ → Outcome
  append_leak (block n) leaks status = answered (leaks ++ n ∷ []) status
  append_leak panics leaks status = aborted
  append_leak out_of_memory leaks status = dead

  -- `APIAlloc` at the text of the parameter "size", empty if it is missing.
  unfoldable pub api_alloc : Text → List ℕ → Outcome
  unfolding parse_int_64 make
  api_alloc [] leaks = answered leaks 400
  api_alloc (c ∷ size) leaks =
      let (i, good) = parse_int_64 (c ∷ size) in
      append_leak (make leaks i) leaks (if good then 200 else 400)

unfoldable pub api_clear : List ℕ → List ℕ
api_clear leaks = []
