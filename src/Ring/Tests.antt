-- ===== src/Ring/Tests.antt =====
-- Runs of a ring of four slots, and its theorems at them.
use atframe_utils.Base.{
  ℕ, ◌-◌, ◌≡◌, ◌≢◌, ◌⊎◌, ◌↔◌, refl, arith, true, none, some, [], ◌∷◌, ◌++◌, length,
}
use atframe_utils.Ring.{Ring, push_back, pop_back, push_front, pop_front, ring_size, ring_empty}
use atframe_utils.Ring.Slots.{IsRing, slots_from, slots, ring_lem}

-- The slots 3 and 0 are used.
abbrev two_used : Ring
two_used = record { start = 3; end_pos = 1 }

two_used-IsRing : IsRing 4 two_used
two_used-IsRing = record { two = omega arith; start = omega arith; end_pos = omega arith }

slots_two : slots 4 two_used ≡ 3 ∷ 0 ∷ []
unfolding ring_size slots_from
slots_two = refl

push_back_wraps : push_back 4 two_used ≡ some (1, record { start = 3; end_pos = 2 })
unfolding push_back
push_back_wraps = refl

pop_back_wraps :
    pop_back 4 (record { start = 3; end_pos = 0 }) ≡ some (3, record { start = 3; end_pos = 3 })
unfolding pop_back
pop_back_wraps = refl

ring_lem_example :
    (((push_back 4 two_used ≡ none) × (length (slots 4 two_used) ≡ 4 - 1))
      ⊎ ((i : ℕ) × (r' : Ring) × (push_back 4 two_used ≡ some (i, r'))
          × IsRing 4 r'
          × (slots 4 r' ≡ slots 4 two_used ++ i ∷ [])))
    × (((pop_front 4 two_used ≡ none) × (slots 4 two_used ≡ []))
        ⊎ ((i : ℕ) × (r' : Ring) × (pop_front 4 two_used ≡ some (i, r'))
            × IsRing 4 r'
            × (slots 4 two_used ≡ i ∷ slots 4 r')))
    × (((push_front 4 two_used ≡ none) × (length (slots 4 two_used) ≡ 4 - 1))
        ⊎ ((i : ℕ) × (r' : Ring) × (push_front 4 two_used ≡ some (i, r'))
            × IsRing 4 r'
            × (slots 4 r' ≡ i ∷ slots 4 two_used)))
    × (((pop_back 4 two_used ≡ none) × (slots 4 two_used ≡ []))
        ⊎ ((i : ℕ) × (r' : Ring) × (pop_back 4 two_used ≡ some (i, r'))
            × IsRing 4 r'
            × (slots 4 two_used ≡ slots 4 r' ++ i ∷ [])))
    × ((ring_empty two_used ≡ true) ↔ (slots 4 two_used ≢ []))
ring_lem_example = ring_lem 4 two_used two_used-IsRing
