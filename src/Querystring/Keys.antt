-- ===== src/Querystring/Keys.antt =====
-- `decode_record` on the text of a record: its value and the keys of its path.
use atframe_utils.Base.{
  All, All-mono, tail, length, length-append, append-nil, append_assoc, if-split, ℕ, zero, suc, ◌-◌,
  ◌≤◌, ◌==◌, ◌≡◌, refl, ap, ap₂, ◌∙◌, arith, List, [], ◌∷◌, ◌++◌, Bool, true, false, not, ◌&&◌,
  is_empty, if◌then◌else◌, Option, some,
}
use atframe_utils.Querystring.Decode.{until, plain_part, inner_part, read_keys}
use atframe_utils.Querystring.Storable.{is_key_char, IsKey}

module _ (test : ℕ → Bool) where
  until_stop : (c : ℕ) (rest : List ℕ) → test c ≡ true → until test (c ∷ rest) ≡ ([], c ∷ rest)
  unfolding until
  until_stop c rest found =
      ap (λ b. if b then ([], c ∷ rest) else (c ∷ (until test rest).0, (until test rest).1)) found

  pub until-append :
      (k : List ℕ) (c : ℕ) (rest : List ℕ)
      → All (λ x. test x ≡ false) k
      → test c ≡ true
      → until test (k ++ c ∷ rest) ≡ (k, c ∷ rest)
  unfolding until
  until-append [] c rest h found =
      ap (λ b. if b then ([], c ∷ rest) else (c ∷ (until test rest).0, (until test rest).1)) found
  until-append (x ∷ k) c rest h found =
      ap₂ (λ b r. if b then ([], x ∷ (k ++ c ∷ rest)) else (x ∷ r.0, r.1)) h.0
        (until-append k c rest h.1 found)

  pub until_all : (k : List ℕ) → All (λ x. test x ≡ false) k → until test k ≡ (k, [])
  unfolding until
  until_all [] h = refl
  until_all (x ∷ k) h = ap₂ (λ b r. if b then ([], x ∷ k) else (x ∷ r.0, r.1)) h.0 (until_all k h.1)

pub is_empty-append : (s : List ℕ) (c : ℕ) (t : List ℕ) → is_empty (s ++ c ∷ t) ≡ false
is_empty-append [] c t = refl
is_empty-append (x ∷ s) c t = refl

-- The keys behind the first one, each in brackets.
unfoldable pub brackets : List (List ℕ) → List ℕ
brackets [] = []
brackets (key ∷ keys) = b'[' ∷ (key ++ b']' ∷ brackets keys)

length-brackets : (keys : List (List ℕ)) → length keys ≤ length (brackets keys)
unfolding brackets
length-brackets [] = omega arith
length-brackets (key ∷ keys) =
    omega (arith, length-brackets keys, length-append key (b']' ∷ brackets keys))

-- A text without brackets.
abbrev is_inner : ℕ → Bool
is_inner c = not (c == b'[') && not (c == b']')

abbrev IsInner : List ℕ → Type 0
IsInner text = All (λ c. is_inner c ≡ true) text

IsKey-IsInner : (key : List ℕ) → IsKey key → IsInner key
IsKey-IsInner key h =
    All-mono (λ c. is_key_char c ≡ true) (λ c. is_inner c ≡ true) key (λ c e. ground (arith, e)) h.1

IsInner-close : (key : List ℕ) → IsInner key → All (λ c. (c == b']') ≡ false) key
IsInner-close key h =
    All-mono (λ c. is_inner c ≡ true) (λ c. (c == b']') ≡ false) key (λ c e. ground (arith, e)) h

IsInner-open : (key : List ℕ) → IsInner key → All (λ c. (c == b'[') ≡ false) key
IsInner-open key h =
    All-mono (λ c. is_inner c ≡ true) (λ c. (c == b'[') ≡ false) key (λ c e. ground (arith, e)) h

plain_part-append :
    (key rest : List ℕ) → IsInner key → plain_part (key ++ b'[' ∷ rest) ≡ (key, b'[' ∷ rest)
unfolding plain_part until
plain_part-append [] rest h = refl
plain_part-append (c ∷ key) rest h =
    let open_ : not (c == b']') ≡ true = ground (arith, h.0) in
    ap (λ r. until (λ x. x == b'[') r.1)
      (until_stop (λ x. not (x == b']')) c (key ++ b'[' ∷ rest) open_)
    ∙ until-append (λ x. x == b'[') (c ∷ key) b'[' rest (IsInner-open (c ∷ key) h) refl

inner_part-append :
    (next rest : List ℕ)
    → IsInner next
    → inner_part (b'[' ∷ (next ++ b']' ∷ rest)) ≡ (next, b']' ∷ rest)
unfolding inner_part
inner_part-append next rest h =
    until-append (λ x. x == b']') next b']' rest (IsInner-close next h) refl

-- A key and the next one in brackets are one turn of the loop.
module _ (fuel : ℕ) (seg : List ℕ) (keys : List (List ℕ)) where
  turn : List ℕ × List ℕ → List ℕ × List ℕ → Option (List ℕ × List (List ℕ))
  turn plain inner =
      let rest = read_keys fuel (tail inner.1) inner.0 (keys ++ (seg ++ plain.0) ∷ []) in
      if is_empty plain.1 then some ([], keys ++ (seg ++ plain.0) ∷ []) else rest

  read_keys-turn :
      (text : List ℕ)
      → is_empty text ≡ false
      → read_keys (suc fuel) text seg keys ≡ turn (plain_part text) (inner_part (plain_part text).1)
  unfolding read_keys turn
  read_keys-turn [] h = absurd (ground (arith, h))
  read_keys-turn (c ∷ text) h = refl

  read_keys-append :
      (key next rest : List ℕ)
      → IsInner key
      → IsInner next
      → read_keys (suc fuel) (key ++ b'[' ∷ (next ++ b']' ∷ rest)) seg keys
        ≡ read_keys fuel rest next (keys ++ (seg ++ key) ∷ [])
  unfolding turn
  read_keys-append key next rest h k =
      let text = key ++ b'[' ∷ (next ++ b']' ∷ rest) in
      let full : is_empty text ≡ false = is_empty-append key b'[' (next ++ b']' ∷ rest) in
      let plain = plain_part-append key (next ++ b']' ∷ rest) h in
      read_keys-turn text full
      ∙ ap (λ p. turn p (inner_part p.1)) plain
      ∙ ap (turn (key, b'[' ∷ (next ++ b']' ∷ rest))) (inner_part-append next rest k)

-- The loop has ended with a last segment that is not empty, behind the keys before it.
abbrev pub IsRead : Option (List ℕ × List (List ℕ)) → List (List ℕ) → Type 0
IsRead result keys =
    (r : List ℕ × List (List ℕ)) × (result ≡ some r)
    × (is_empty r.0 ≡ false)
    × (r.1 ++ (r.0 ∷ []) ≡ keys)

-- What the loop leaves for the keys in brackets behind a segment.
read_keys-brackets :
    (ks : List (List ℕ)) (fuel : ℕ) (seg : List ℕ) (keys : List (List ℕ))
    → length ks ≤ fuel
    → is_empty seg ≡ false
    → All IsKey ks
    → IsRead (read_keys fuel (brackets ks) seg keys) (keys ++ (seg ∷ ks))
unfolding brackets read_keys
read_keys-brackets [] zero seg keys enough full h = ((seg, keys), refl, full, refl)
read_keys-brackets [] (suc fuel) seg keys enough full h = ((seg, keys), refl, full, refl)
read_keys-brackets (k ∷ ks) zero seg keys enough full h = absurd (omega (arith, enough))
read_keys-brackets (k ∷ ks) (suc fuel) seg keys enough full h =
    let IH = read_keys-brackets ks fuel k (keys ++ (seg ∷ [])) (omega (arith, enough)) h.0.0 h.1 in
    let one =
      read_keys-append fuel seg keys [] k (brackets ks) tt (IsKey-IsInner k h.0)
      ∙ ap (λ s. read_keys fuel (brackets ks) k (keys ++ s ∷ [])) (append-nil seg) in
    (IH.0, one ∙ IH.1, IH.2, IH.3 ∙ append_assoc keys (seg ∷ []) (k ∷ ks))

-- A key with at least one further key in brackets is read as these keys.
pub read_keys-path :
    (k next : List ℕ) (ks : List (List ℕ))
    → IsKey k
    → All IsKey (next ∷ ks)
    → (let text = k ++ brackets (next ∷ ks) in
        IsRead (read_keys (length text) text [] []) (k ∷ next ∷ ks))
unfolding brackets
read_keys-path k next ks h hs =
    let text = k ++ brackets (next ∷ ks) in
    let f = length text - 1 in
    let sum = length-append k (brackets (next ∷ ks)) in
    let inner_sum = length-append next (b']' ∷ brackets ks) in
    let fuel : length text ≡ suc f = omega (arith, sum) in
    let enough : length ks ≤ f = omega (arith, sum, inner_sum, length-brackets ks) in
    let one =
      ap (λ n. read_keys n text [] []) fuel
      ∙ read_keys-append f [] [] k next (brackets ks) (IsKey-IsInner k h)
          (IsKey-IsInner next hs.0) in
    let rest = read_keys-brackets ks f next (k ∷ []) enough hs.0.0 hs.1 in
    (rest.0, one ∙ rest.1, rest.2, rest.3)

-- A text without an opening bracket leaves an empty segment.
until-lacks :
    (test : ℕ → Bool) (c : ℕ) (s : List ℕ)
    → All (λ x. (x == c) ≡ false) s
    → All (λ x. (x == c) ≡ false) (until test s).1
unfolding until
until-lacks test c [] h = tt
until-lacks test c (x ∷ s) h =
    if-split (λ (r : List ℕ × List ℕ). All (λ y. (y == c) ≡ false) r.1) (test x) (λ _. h)
      (λ _. until-lacks test c s h.1)

pub read_keys-plain :
    (text : List ℕ) (fuel : ℕ)
    → All (λ x. (x == b'[') ≡ false) text
    → length text ≤ fuel
    → (keys : List (List ℕ)) × (read_keys fuel text [] [] ≡ some ([], keys))
unfolding read_keys plain_part
read_keys-plain [] zero h enough = ([], refl)
read_keys-plain [] (suc fuel) h enough = ([], refl)
read_keys-plain (c ∷ text) zero h enough = absurd (omega (arith, enough))
read_keys-plain (c ∷ text) (suc fuel) h enough =
    let opened = (until (λ x. not (x == b']')) (c ∷ text)).1 in
    let none_open = until-lacks (λ x. not (x == b']')) b'[' (c ∷ text) h in
    let body : List ℕ × List ℕ → Option (List ℕ × List (List ℕ)) = λ plain.
      (let rest =
          read_keys fuel (tail (inner_part plain.1).1) (inner_part plain.1).0
            ([] ++ ([] ++ plain.0) ∷ []) in
        if is_empty plain.1 then some ([], [] ++ ([] ++ plain.0) ∷ []) else rest) in
    (opened ∷ [], ap body (until_all (λ x. x == b'[') opened none_open))

-- So does a key with a pair of brackets that is empty.
pub read_keys-array :
    (key : List ℕ) (fuel : ℕ)
    → IsKey key
    → read_keys (suc fuel) (key ++ b'[' ∷ b']' ∷ []) [] [] ≡ some ([], key ∷ [])
unfolding read_keys
read_keys-array key zero h = read_keys-append 0 [] [] key [] [] (IsKey-IsInner key h) tt
read_keys-array key (suc fuel) h =
    read_keys-append (suc fuel) [] [] key [] [] (IsKey-IsInner key h) tt
