-- ===== src/Querystring/Leaves.antt =====
-- What is known of the leaves of a tree that can be stored.
use atframe_utils.Base.{
  All, All-append, All-mono, ℕ, ◌<◌, ◌≡◌, refl, arith, List, [], ◌∷◌, ◌++◌, map, Bool, true, false,
}
use atframe_utils.Querystring.Items.{
  Item, item_string, item_array, item_object, item_querystring, Entries, empty_object, entry,
}
use atframe_utils.Querystring.Rebuild.{Leaf, under, leaves_of, leaves_in}
use atframe_utils.Querystring.Storable.{is_key_char, IsKey, IsStorable, AreStorable}
use atframe_utils.Querystring.Keys.{brackets}
use atframe_utils.Querystring.Records.{AreBytes}

abbrev pub IsGood : Leaf → Type 0
IsGood leaf = All IsKey leaf.0 × AreBytes leaf.1

All-under :
    (P Q : Leaf → Type 0) (key : List ℕ) (ls : List Leaf)
    → ((leaf : Leaf) → P leaf → Q (under key leaf))
    → All P ls
    → All Q (map (under key) ls)
All-under P Q key [] f h = tt
All-under P Q key (leaf ∷ ls) f h = (f leaf h.0, All-under P Q key ls f h.1)

mutual
  unfolding leaves_of IsStorable

  leaves_of-IsGood : (x : Item) → IsStorable x → All IsGood (leaves_of x)
  leaves_of-IsGood (item_string text) h = ((tt, h), tt)
  leaves_of-IsGood (item_array items) h = tt
  leaves_of-IsGood (item_object entries) h = leaves_in-IsGood entries h.1
  leaves_of-IsGood (item_querystring spliter entries) h = tt

  leaves_in-IsGood : (es : Entries) → AreStorable es → All IsGood (leaves_in es)
  leaves_in-IsGood empty_object h = tt
  leaves_in-IsGood (entry key x rest) h =
      All-append IsGood (map (under key) (leaves_of x)) (leaves_in rest)
        (All-under IsGood IsGood key (leaves_of x) (λ leaf g. ((h.0, g.0), g.1))
          (leaves_of-IsGood x h.2))
        (leaves_in-IsGood rest h.3)

-- A path of at least one key, and of at least two.
abbrev pub has_key : List (List ℕ) → Bool
has_key [] = false
has_key (key ∷ keys) = true

abbrev pub is_deep : List (List ℕ) → Bool
is_deep [] = false
is_deep (key ∷ keys) = has_key keys

abbrev pub is_object : Item → Bool
is_object (item_string text) = false
is_object (item_array items) = false
is_object (item_object entries) = true
is_object (item_querystring spliter entries) = false

-- Every entry is an object.
unfoldable pub AreObjects : Entries → Type 0
AreObjects empty_object = Unit
AreObjects (entry key x rest) = (is_object x ≡ true) × AreObjects rest

leaves_in-has_key : (es : Entries) → All (λ (leaf : Leaf). has_key leaf.0 ≡ true) (leaves_in es)
unfolding leaves_of
leaves_in-has_key empty_object = tt
leaves_in-has_key (entry key x rest) =
    All-append (λ (leaf : Leaf). has_key leaf.0 ≡ true) (map (under key) (leaves_of x))
      (leaves_in rest)
      (All-under (λ _. Unit) (λ (leaf : Leaf). has_key leaf.0 ≡ true) key (leaves_of x)
        (λ leaf _. refl) (all (leaves_of x)))
      (leaves_in-has_key rest)
  where
    all : (ls : List Leaf) → All (λ (_ : Leaf). Unit {0}) ls
    all [] = tt
    all (leaf ∷ ls) = (tt, all ls)

object-is_deep :
    (key : List ℕ) (x : Item)
    → is_object x ≡ true
    → All (λ (leaf : Leaf). is_deep leaf.0 ≡ true) (map (under key) (leaves_of x))
unfolding leaves_of
object-is_deep key (item_string text) h = absurd (ground (arith, h))
object-is_deep key (item_array items) h = tt
object-is_deep key (item_object entries) h =
    All-under (λ (leaf : Leaf). has_key leaf.0 ≡ true) (λ (leaf : Leaf). is_deep leaf.0 ≡ true) key
      (leaves_in entries) (λ leaf g. g) (leaves_in-has_key entries)
object-is_deep key (item_querystring spliter entries) h = tt

leaves_in-is_deep :
    (es : Entries) → AreObjects es → All (λ (leaf : Leaf). is_deep leaf.0 ≡ true) (leaves_in es)
unfolding leaves_of AreObjects
leaves_in-is_deep empty_object h = tt
leaves_in-is_deep (entry key x rest) h =
    All-append (λ (leaf : Leaf). is_deep leaf.0 ≡ true) (map (under key) (leaves_of x))
      (leaves_in rest) (object-is_deep key x h.0) (leaves_in-is_deep rest h.1)

-- A leaf that `decode_record` can read.
abbrev pub IsReadable : Leaf → Type 0
IsReadable leaf = (is_deep leaf.0 ≡ true) × IsGood leaf

All-both :
    (P Q : Leaf → Type 0) (ls : List Leaf) → All P ls → All Q ls → All (λ leaf. P leaf × Q leaf) ls
All-both P Q [] h k = tt
All-both P Q (leaf ∷ ls) h k = ((h.0, k.0), All-both P Q ls h.1 k.1)

pub leaves_in-IsReadable :
    (es : Entries) → AreStorable es → AreObjects es → All IsReadable (leaves_in es)
leaves_in-IsReadable es h k =
    All-both (λ (leaf : Leaf). is_deep leaf.0 ≡ true) IsGood (leaves_in es) (leaves_in-is_deep es k)
      (leaves_in-IsGood es h)

pub IsKey-AreBytes : (key : List ℕ) → IsKey key → AreBytes key
IsKey-AreBytes key h =
    All-mono (λ c. is_key_char c ≡ true) (λ c. c < 256) key (λ c e. ground (arith, e)) h.1

pub brackets-AreBytes : (keys : List (List ℕ)) → All IsKey keys → AreBytes (brackets keys)
unfolding brackets
brackets-AreBytes [] h = tt
brackets-AreBytes (key ∷ keys) h = (
  omega arith,
  All-append (λ c. c < 256) key (b']' ∷ brackets keys) (IsKey-AreBytes key h.0)
      (omega arith, brackets-AreBytes keys h.1),
)

pub path-AreBytes :
    (key : List ℕ) (keys : List (List ℕ)) → All IsKey (key ∷ keys) → AreBytes (key ++ brackets keys)
path-AreBytes key keys h =
    All-append (λ c. c < 256) key (brackets keys) (IsKey-AreBytes key h.0)
      (brackets-AreBytes keys h.1)
