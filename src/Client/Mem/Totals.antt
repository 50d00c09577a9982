-- ===== src/Client/Mem/Totals.antt =====
-- The rows of the memory page, before and after a load.
use kubernetes_up_running.Base.{◌≡◌, some, [], ◌∷◌}
use kubernetes_up_running.Base.Int.{ℤ, pos, ◌+ℤ◌, ◌-ℤ◌, int_laws}
use kubernetes_up_running.Js.Text.{codes}
use kubernetes_up_running.Client.Browser.{HttpResponse, fulfilled, unchecked_json}
use kubernetes_up_running.Client.Mem.{number, MemStats, Mem, on_loaded, load_settled, rows}

zero-+ℤ : (a : ℤ) → pos 0 +ℤ a ≡ a
zero-+ℤ a = omega int_laws

module _ {Json : Type 0} where
  -- A reply that parses, whatever its status, gives the four rows: the heap in use, the idle heap less
  -- what was released, the stack, and the sum of these three.
  rows_loaded :
      (s : Mem Json) (response : HttpResponse (MemStats Json)) (stats : MemStats Json)
      (alloc idle released stack : ℤ)
      → response.json ≡ some stats
      → stats.heap_alloc ≡ number alloc
      → stats.heap_idle ≡ number idle
      → stats.heap_released ≡ number released
      → stats.stack_inuse ≡ number stack
      → rows Json (load_settled Json s (fulfilled response))
        ≡ (codes "HeapAlloc", number alloc)
          ∷ (codes "HeapIdle - HeapReleased", number (idle -ℤ released))
          ∷ (codes "StackInuse", number stack)
          ∷ (codes "Total", number (alloc +ℤ (idle -ℤ released) +ℤ stack))
          ∷ []
  unfolding rows load_settled on_loaded unchecked_json
  rows_loaded s response stats alloc idle released stack parsed a i r k =
      rw (parsed, a, i, r, k, zero-+ℤ)
