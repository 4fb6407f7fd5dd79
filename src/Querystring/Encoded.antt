-- ===== src/Querystring/Encoded.antt =====
-- What `encode` writes for a tree of objects and strings: the texts of its leaves in turn.
use atframe_utils.Base.{
  All, All-append, All-mono, codes, c_str, append-nil, append_assoc, ℕ, zero, suc, ◌==◌, ◌≡◌, refl,
  sym, ap, ap₂, ◌∙◌, arith, List, [], ◌∷◌, ◌++◌, map, true, false, ◌&&◌,
}
use atframe_utils.Querystring.Items.{
  Item, item_string, item_array, item_object, item_querystring, Entries, empty_object, entry,
}
use atframe_utils.Querystring.Encode.{encode_item, encode_entries, append_to}
use atframe_utils.Querystring.Rebuild.{Leaf, under, leaves_of, leaves_in}
use atframe_utils.Querystring.Storable.{is_key_char, IsKey, IsStorable, AreStorable}
use atframe_utils.Querystring.Keys.{brackets}
use atframe_utils.Querystring.Records.{record_text, append_to-record_text}

-- The texts of the leaves, with an ampersand behind each, where the keys of a path are written
-- in a given form.
unfoldable pub written_leaves : (List (List ℕ) → List ℕ) → List Leaf → List ℕ
written_leaves path [] = []
written_leaves path (leaf ∷ leaves) =
    record_text (path leaf.0) leaf.1 ++ b'&' ∷ written_leaves path leaves

pub written_leaves-append :
    (path : List (List ℕ) → List ℕ) (ks ls : List Leaf)
    → written_leaves path (ks ++ ls) ≡ written_leaves path ks ++ written_leaves path ls
unfolding written_leaves
written_leaves-append path [] ls = refl
written_leaves-append path (leaf ∷ ks) ls =
    let text = record_text (path leaf.0) leaf.1 in
    ap (λ t. text ++ b'&' ∷ t) (written_leaves-append path ks ls)
    ∙ sym (append_assoc text (b'&' ∷ written_leaves path ks) (written_leaves path ls))

pub written_leaves-under :
    (path inner : List (List ℕ) → List ℕ) (key : List ℕ) (ls : List Leaf)
    → ((keys : List (List ℕ)) → path (key ∷ keys) ≡ inner keys)
    → written_leaves path (map (under key) ls) ≡ written_leaves inner ls
unfolding written_leaves
written_leaves-under path inner key [] h = refl
written_leaves-under path inner key (leaf ∷ ls) h =
    ap₂ (λ p t. record_text p leaf.1 ++ b'&' ∷ t) (h leaf.0)
      (written_leaves-under path inner key ls h)

abbrev pub HasNoZero : List ℕ → Type 0
HasNoZero text = All (λ c. (c == 0) ≡ false) text

pub c_str-HasNoZero : (text : List ℕ) → HasNoZero text → c_str text ≡ text
c_str-HasNoZero [] h = refl
c_str-HasNoZero (zero ∷ text) h = absurd (ground (arith, h.0))
c_str-HasNoZero (suc c ∷ text) h = ap (λ t. suc c ∷ t) (c_str-HasNoZero text h.1)

pub IsKey-HasNoZero : (key : List ℕ) → IsKey key → HasNoZero key
IsKey-HasNoZero key h =
    All-mono (λ c. is_key_char c ≡ true) (λ c. (c == 0) ≡ false) key (λ c e. ground (arith, e)) h.1

-- A prefix with one more key in brackets.
abbrev longer : List ℕ → List ℕ → List ℕ
longer prefix key = prefix ++ codes "[" ++ key ++ codes "]"

longer-HasNoZero :
    (prefix key : List ℕ) → HasNoZero prefix → IsKey key → HasNoZero (longer prefix key)
longer-HasNoZero prefix key h k =
    let P : ℕ → Type 0 = λ c. (c == 0) ≡ false in
    All-append P (prefix ++ codes "[" ++ key) (codes "]")
      (All-append P (prefix ++ codes "[") key (All-append P prefix (codes "[") h (refl, tt))
        (IsKey-HasNoZero key k))
      (refl, tt)

longer-brackets :
    (prefix key : List ℕ) (keys : List (List ℕ))
    → prefix ++ brackets (key ∷ keys) ≡ longer prefix key ++ brackets keys
unfolding brackets
longer-brackets prefix key keys = rw (
  append_assoc (prefix ++ codes "[" ++ key) (codes "]") (brackets keys),
  append_assoc (prefix ++ codes "[") key (codes "]" ++ brackets keys),
  append_assoc prefix (codes "[") (key ++ (codes "]" ++ brackets keys)),
)

mutual
  unfolding encode_item leaves_of IsStorable written_leaves brackets

  pub encode_item-written_leaves :
      (x : Item)
      → IsStorable x
      → (output prefix : List ℕ) → HasNoZero prefix
      → encode_item x output prefix
        ≡ (true, output ++ written_leaves (λ keys. prefix ++ brackets keys) (leaves_of x))
  encode_item-written_leaves (item_string text) h output prefix z =
      ap (λ p. (true, append_to output p text)) (c_str-HasNoZero prefix z)
      ∙ ap (λ t. (true, t)) (append_to-record_text output prefix text)
      ∙ ap (λ p. (true, output ++ (record_text p text ++ b'&' ∷ []))) (sym (append-nil prefix))
  encode_item-written_leaves (item_array items) h output prefix z = absurd h
  encode_item-written_leaves (item_object entries) h output prefix z =
      ap (λ p. encode_entries entries output p) (c_str-HasNoZero prefix z)
      ∙ encode_entries-written_leaves entries h.1 output prefix z
  encode_item-written_leaves (item_querystring spliter entries) h output prefix z = absurd h

  encode_entries-written_leaves :
      (es : Entries)
      → AreStorable es
      → (output prefix : List ℕ) → HasNoZero prefix
      → encode_entries es output prefix
        ≡ (true, output ++ written_leaves (λ keys. prefix ++ brackets keys) (leaves_in es))
  encode_entries-written_leaves empty_object h output prefix z =
      ap (λ t. (true, t)) (sym (append-nil output))
  encode_entries-written_leaves (entry key x rest) h output prefix z =
      let path : List (List ℕ) → List ℕ = λ keys. prefix ++ brackets keys in
      let inner : List (List ℕ) → List ℕ = λ keys. longer prefix key ++ brackets keys in
      let first =
        encode_item-written_leaves x h.2 output (longer prefix key)
          (longer-HasNoZero prefix key z h.0) in
      let others =
        encode_entries-written_leaves rest h.3 (output ++ written_leaves inner (leaves_of x)) prefix
          z in
      ap (λ r. (r.0 && (encode_entries rest r.1 prefix).0, (encode_entries rest r.1 prefix).1))
        first
      ∙ others
      ∙ ap (λ t. (true, t))
          (append_assoc output (written_leaves inner (leaves_of x))
            (written_leaves path (leaves_in rest)))
      ∙ ap (λ t. (true, output ++ (t ++ written_leaves path (leaves_in rest))))
          (sym (written_leaves-under path inner key (leaves_of x) (longer-brackets prefix key)))
      ∙ ap (λ t. (true, output ++ t))
          (sym (written_leaves-append path (map (under key) (leaves_of x)) (leaves_in rest)))
