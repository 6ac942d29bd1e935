-- ===== src/Blocking/Queue/Tests.antt =====
-- hpfeeds/blocking/queue.py: a queue of numbers.
use hpfeeds.Prelude.{ℕ, suc, ◌≡◌, refl, List, [], ◌∷◌}
use hpfeeds.Blocking.Queue.{
  Shared, Reach, start, next, puts_item, puts_byte, gets_byte, gets_item, Reach-ordered,
}

-- Two threads put, and one gets between the item and the byte of the second.
abbrev between : Shared ℕ
between = record {
  queue = record { items = 2 ∷ []; tokens = 0; puts = 1 };
  gets = 0;
  given = 1 ∷ 2 ∷ [];
  taken = 1 ∷ [];
}

Reach-between : Reach between
Reach-between =
    next
      (next (next (next (next start (puts_item 1)) (puts_byte 0 refl)) (puts_item 2))
        (gets_byte 0 refl))
      (gets_item 0 1 (2 ∷ []) refl refl)

Reach-ordered_example :
    (◌≡◌ {A = List ℕ} (1 ∷ 2 ∷ []) (1 ∷ 2 ∷ []))
    × ((n : ℕ)
        → ◌≡◌ {A = ℕ} 0 (suc n)
        → (m : ℕ) × (ms : List ℕ) × (◌≡◌ {A = List ℕ} (2 ∷ []) (m ∷ ms)))
    × (◌≡◌ {A = ℕ} 0 0 → ◌≡◌ {A = ℕ} 1 1)
Reach-ordered_example = Reach-ordered Reach-between
