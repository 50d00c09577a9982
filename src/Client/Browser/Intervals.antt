-- ===== src/Client/Browser/Intervals.antt =====
-- Clearing an interval leaves the older ones.
use kubernetes_up_running.Base.{ℕ, suc, ◌≤◌, ◌<◌, ◌≡◌, refl, some, List, [], ◌∷◌, arith, All}
use kubernetes_up_running.Client.Browser.{Timers, remove, set_interval, clear_interval}

pub remove_absent : (id : ℕ) (xs : List ℕ) → All (λ x. x < id) xs → remove id xs ≡ xs
unfolding remove
remove_absent id [] h = refl
remove_absent id (x ∷ xs) h = ground (arith, remove_absent id xs h.1)

pub All-lt_of_le : (n m : ℕ) (xs : List ℕ) → n < m → All (λ x. x ≤ n) xs → All (λ x. x < m) xs
All-lt_of_le n m [] lt h = tt
All-lt_of_le n m (x ∷ xs) lt h = (omega arith, All-lt_of_le n m xs lt h.1)

pub All-le_mono : (n m : ℕ) (xs : List ℕ) → n ≤ m → All (λ x. x ≤ n) xs → All (λ x. x ≤ m) xs
All-le_mono n m [] le h = tt
All-le_mono n m (x ∷ xs) le h = (omega arith, All-le_mono n m xs le h.1)

pub remove_first :
    (id : ℕ) (live others : List ℕ)
    → live ≡ id ∷ others
    → All (λ x. x < id) others
    → remove id live ≡ others
remove_first id live others e h = rw e (unfold remove in ground (arith, remove_absent id others h))

-- Clearing the interval that was set last undoes the setting.
pub clear-set :
    (t : Timers)
    → All (λ x. x ≤ t.last_id) t.live
    → (clear_interval (some (set_interval t).0) (set_interval t).1).live ≡ t.live
unfolding clear_interval set_interval
clear-set t h =
    remove_first (suc t.last_id) (suc t.last_id ∷ t.live) t.live refl
      (All-lt_of_le t.last_id (suc t.last_id) t.live (omega arith) h)
