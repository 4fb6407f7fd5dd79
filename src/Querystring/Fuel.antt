-- ===== src/Querystring/Fuel.antt =====
-- The loops of `decode` and `decode_record` end within the fuel they are given.
use atframe_utils.Base.{
  contains, tail, length, is_empty, if-split, ℕ, zero, suc, ◌-◌, ◌≤◌, ◌==◌, ◌≡◌, refl, ap, ◌∙◌,
  arith, List, [], ◌∷◌, ◌++◌, Bool, true, not, Option, none, some,
}
use atframe_utils.Uri.{content_of, decode_uri_component}
use atframe_utils.Querystring.Decode.{
  Tquerystring, until, plain_part, inner_part, read_keys, split_record, store_value, decode_record,
  decode_loop, decode,
}
use atframe_utils.Querystring.Records.{finish_record-read}

until-le : (test : ℕ → Bool) (text : List ℕ) → length (until test text).1 ≤ length text
unfolding until
until-le test [] = omega arith
until-le test (c ∷ text) =
    if-split (λ (r : List ℕ × List ℕ). length r.1 ≤ suc (length text)) (test c) (λ _. omega arith)
      (λ _. omega (arith, until-le test text))

length-tail : (text : List ℕ) → length (tail text) ≡ length text - 1
length-tail [] = omega arith
length-tail (c ∷ text) = omega arith

tail-until :
    (test : ℕ → Bool) (c : ℕ) (text : List ℕ)
    → length (tail (until test (c ∷ text)).1) ≤ length text
tail-until test c text =
    let all : List ℕ = c ∷ text in
    let part = until-le test all in omega (arith, part, length-tail (until test all).1)

part-le :
    (c : ℕ) (text : List ℕ) → length (tail (inner_part (plain_part (c ∷ text)).1).1) ≤ length text
unfolding plain_part inner_part
part-le c text =
    let all : List ℕ = c ∷ text in
    let one = (until (λ x. not (x == b']')) all).1 in
    let two = (until (λ x. x == b'[') one).1 in
    let three = (until (λ x. x == b']') (tail two)).1 in
    let a = until-le (λ x. not (x == b']')) all in
    let b = until-le (λ x. x == b'[') one in
    let d = until-le (λ x. x == b']') (tail two) in
    omega (arith, a, b, d, length-tail two, length-tail three)

read_keys-ends :
    (fuel : ℕ) (text seg : List ℕ) (keys : List (List ℕ))
    → length text ≤ fuel
    → (r : List ℕ × List (List ℕ)) × (read_keys fuel text seg keys ≡ some r)
unfolding read_keys
read_keys-ends zero [] seg keys h = ((seg, keys), refl)
read_keys-ends zero (c ∷ text) seg keys h = absurd (omega (arith, h))
read_keys-ends (suc fuel) [] seg keys h = ((seg, keys), refl)
read_keys-ends (suc fuel) (c ∷ text) seg keys h =
    let plain = plain_part (c ∷ text) in
    let inner = inner_part plain.1 in
    let new_keys = keys ++ (seg ++ plain.0) ∷ [] in
    if-split (λ (o : Option (List ℕ × List (List ℕ))). (r : List ℕ × List (List ℕ)) × (o ≡ some r))
      (is_empty plain.1) (λ _. (([], new_keys), refl))
      (λ _. read_keys-ends fuel (tail inner.1) inner.0 new_keys (omega (arith, h, part-le c text)))

decode_record-ends :
    (text : List ℕ) (q : Tquerystring) → (r : Bool × Tquerystring) × (decode_record text q ≡ some r)
unfolding decode_record
decode_record-ends text q =
    let parts = split_record text in
    let value = decode_uri_component parts.1 (length parts.1) in
    let origin = decode_uri_component parts.0 (length parts.0) in
    let read = read_keys-ends (length origin) origin [] [] (omega arith) in
    (store_value read.0 value q, finish_record-read origin value q read.0 read.1)

decode_loop-ends :
    (fuel : ℕ) (text : List ℕ) (ret : Bool) (q : Tquerystring)
    → length text ≤ fuel
    → (r : Bool × Tquerystring) × (decode_loop fuel text ret q ≡ some r)
unfolding decode_loop
decode_loop-ends zero [] ret q h = ((ret, q), refl)
decode_loop-ends zero (c ∷ text) ret q h = absurd (omega (arith, h))
decode_loop-ends (suc fuel) [] ret q h = ((ret, q), refl)
decode_loop-ends (suc fuel) (c ∷ text) ret q h =
    let parts = until (contains q.spliter) (c ∷ text) in
    let one = decode_record-ends parts.0 q in
    let short = tail-until (contains q.spliter) c text in
    let rest = decode_loop-ends fuel (tail parts.1) one.0.0 one.0.1 (omega (arith, h, short)) in
    (
      rest.0,
      ap
            (λ o. elim o as (λ _. Option (Bool × Tquerystring)) [
              | none ↦ none
              | some r ↦ decode_loop fuel (tail parts.1) r.0 r.1
            ])
            one.1
          ∙ rest.1,
    )

-- For any text, segment, keys, result and query string, and fuel of at least the length of the
-- text: the loop of decode_record over keys and that of decode over records come to an end within
-- the fuel, which gives none when it runs out; and decode, with the fuel it takes itself, comes
-- to an end for every content, size and query string.
pub decode_total :
    (text seg : List ℕ) (keys : List (List ℕ)) (ret : Bool) (q : Tquerystring) (fuel sz : ℕ)
    → length text ≤ fuel
    → ((r : List ℕ × List (List ℕ)) × (read_keys fuel text seg keys ≡ some r))
      × ((r : Bool × Tquerystring) × (decode_loop fuel text ret q ≡ some r))
      × ((r : Bool × Tquerystring) × (decode text sz q ≡ some r))
unfolding decode
decode_total text seg keys ret q fuel sz h = (
  read_keys-ends fuel text seg keys h,
  decode_loop-ends fuel text ret q h,
  decode_loop-ends (length (content_of text sz)) (content_of text sz) true q (omega arith),
)
