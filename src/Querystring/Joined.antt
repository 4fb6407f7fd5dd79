-- ===== src/Querystring/Joined.antt =====
-- `tquerystring::encode`: the texts of the leaves with an ampersand between them.
use atframe_utils.Base.{
  length, length-append, last?-append, take, append-nil, append_assoc, ℕ, zero, suc, ◌-◌, ◌==◌, ◌≡◌,
  refl, sym, ap, ◌∙◌, arith, List, [], ◌∷◌, ◌++◌, map, true, false, none, some, if◌then◌else◌,
}
use atframe_utils.Querystring.Items.{Entries, empty_object, entry}
use atframe_utils.Querystring.Encode.{encode_item, encode_while, encode, strip}
use atframe_utils.Querystring.Rebuild.{Leaf, under, leaves_of, leaves_in}
use atframe_utils.Querystring.Storable.{AreStorable, IsStorable}
use atframe_utils.Querystring.Keys.{brackets}
use atframe_utils.Querystring.Records.{record_text}
use atframe_utils.Querystring.Encoded.{
  written_leaves, written_leaves-append, written_leaves-under, encode_item-written_leaves,
  c_str-HasNoZero, IsKey-HasNoZero,
}

-- The text of a path from the root on.
abbrev pub path_text : List (List ℕ) → List ℕ
path_text [] = []
path_text (key ∷ keys) = key ++ brackets keys

encode_while-written_leaves :
    (es : Entries)
    → AreStorable es
    → (output : List ℕ)
    → encode_while es output ≡ (true, output ++ written_leaves path_text (leaves_in es))
unfolding encode_item leaves_of IsStorable written_leaves
encode_while-written_leaves empty_object h output = ap (λ t. (true, t)) (sym (append-nil output))
encode_while-written_leaves (entry key x rest) h output =
    let inner : List (List ℕ) → List ℕ = λ keys. key ++ brackets keys in
    let z = IsKey-HasNoZero key h.0 in
    let first =
      ap (encode_item x output) (c_str-HasNoZero key z)
      ∙ encode_item-written_leaves x h.2 output key z in
    ap (λ r. if r.0 then encode_while rest r.1 else (false, r.1)) first
    ∙ encode_while-written_leaves rest h.3 (output ++ written_leaves inner (leaves_of x))
    ∙ ap (λ t. (true, t))
        (append_assoc output (written_leaves inner (leaves_of x))
          (written_leaves path_text (leaves_in rest)))
    ∙ ap (λ t. (true, output ++ (t ++ written_leaves path_text (leaves_in rest))))
        (sym (written_leaves-under path_text inner key (leaves_of x) (λ keys. refl)))
    ∙ ap (λ t. (true, output ++ t))
        (sym (written_leaves-append path_text (map (under key) (leaves_of x)) (leaves_in rest)))

-- The texts with an ampersand between them.
unfoldable pub joined : List Leaf → List ℕ
joined [] = []
joined (leaf ∷ []) = record_text (path_text leaf.0) leaf.1
joined (leaf ∷ next ∷ leaves) =
    record_text (path_text leaf.0) leaf.1 ++ b'&' ∷ joined (next ∷ leaves)

written_leaves-joined :
    (leaf : Leaf) (leaves : List Leaf)
    → written_leaves path_text (leaf ∷ leaves) ≡ joined (leaf ∷ leaves) ++ b'&' ∷ []
unfolding written_leaves joined
written_leaves-joined leaf [] = refl
written_leaves-joined leaf (next ∷ leaves) =
    let text = record_text (path_text leaf.0) leaf.1 in
    ap (λ t. text ++ b'&' ∷ t) (written_leaves-joined next leaves)
    ∙ sym (append_assoc text (b'&' ∷ joined (next ∷ leaves)) (b'&' ∷ []))

take-append : (s t : List ℕ) (n : ℕ) → n ≡ length s → take n (s ++ t) ≡ s
take-append [] t zero h = refl
take-append [] t (suc n) h = absurd (omega (arith, h))
take-append (c ∷ s) t zero h = absurd (omega (arith, h))
take-append (c ∷ s) t (suc n) h = ap (λ r. c ∷ r) (take-append s t n (omega (arith, h)))

pub strip-append : (s : List ℕ) → strip (s ++ b'&' ∷ []) ≡ s
unfolding strip
strip-append s =
    let all = s ++ b'&' ∷ [] in
    let size : length all - 1 ≡ length s = omega (arith, length-append s (b'&' ∷ [])) in
    ap
      (λ o. elim o as (λ _. List ℕ) [
        | none ↦ all
        | some c ↦ if c == b'&' then take (length all - 1) all else all
      ])
      (last?-append s b'&')
    ∙ take-append s (b'&' ∷ []) (length all - 1) size

strip-joined : (leaves : List Leaf) → strip (written_leaves path_text leaves) ≡ joined leaves
unfolding strip written_leaves joined
strip-joined [] = refl
strip-joined (leaf ∷ leaves) =
    ap strip (written_leaves-joined leaf leaves) ∙ strip-append (joined (leaf ∷ leaves))

-- For objects and strings that can be stored: encode succeeds and writes, for each leaf in the
-- order of the iteration, its path and its value, with an ampersand between two of them.
pub encode-joined : (es : Entries) → AreStorable es → encode es [] ≡ (true, joined (leaves_in es))
unfolding encode
encode-joined es h =
    ap (λ r. (r.0, strip r.1)) (encode_while-written_leaves es h [])
    ∙ ap (λ t. (true, t)) (strip-joined (leaves_in es))
