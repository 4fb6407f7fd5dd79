-- ===== src/Querystring/Access.antt =====
-- Reading what the members of objects and arrays have stored.
use atframe_utils.Base.{ℕ, zero, suc, ◌<◌, ◌≢◌, ◌≡◌, refl, ap, arith, some}
use atframe_utils.Querystring.Items.{Item, Items, item, empty_array, append}
use atframe_utils.Querystring.Members.{get_item, set_item, pop_item, array_size}

get_item-set_item :
    (xs : Items) (i : ℕ) (y : Item) → i < array_size xs → get_item (set_item xs i y) i ≡ some y
unfolding get_item set_item array_size
get_item-set_item empty_array i y h = absurd (omega (arith, h))
get_item-set_item (item x xs) zero y h = refl
get_item-set_item (item x xs) (suc i) y h = get_item-set_item xs i y (omega (arith, h))

get_item-set_item_other :
    (xs : Items) (i j : ℕ) (y : Item) → i ≢ j → get_item (set_item xs i y) j ≡ get_item xs j
unfolding get_item set_item
get_item-set_item_other empty_array i j y h = refl
get_item-set_item_other (item x xs) zero zero y h = absurd (h refl)
get_item-set_item_other (item x xs) zero (suc j) y h = refl
get_item-set_item_other (item x xs) (suc i) zero y h = refl
get_item-set_item_other (item x xs) (suc i) (suc j) y h =
    get_item-set_item_other xs i j y (λ e. h (ap suc e))

get_item-append : (xs : Items) (x : Item) → get_item (append xs x) (array_size xs) ≡ some x
unfolding get_item append array_size
get_item-append empty_array x = refl
get_item-append (item y xs) x = get_item-append xs x

pop_item-append : (xs : Items) (x : Item) → pop_item (append xs x) ≡ xs
unfolding pop_item append
pop_item-append empty_array x = refl
pop_item-append (item y empty_array) x = refl
pop_item-append (item y (item z xs)) x = ap (item y) (pop_item-append (item z xs) x)

-- For an array and two different indexes, the first inside of it: get gives what set has written
-- at the first and leaves the second as it was, append puts an item at the index of the old size,
-- and pop_back undoes append.
array_lem :
    (xs : Items) (i j : ℕ) (x : Item)
    → i < array_size xs
    → i ≢ j
    → (get_item (set_item xs i x) i ≡ some x)
      × (get_item (set_item xs i x) j ≡ get_item xs j)
      × (get_item (append xs x) (array_size xs) ≡ some x)
      × (pop_item (append xs x) ≡ xs)
array_lem xs i j x h apart = (
  get_item-set_item xs i x h,
  get_item-set_item_other xs i j x apart,
  get_item-append xs x,
  pop_item-append xs x,
)
