-- ===== src/Base64/Lengths.antt =====
-- The lengths that base64 computes before it writes are those that it writes.
use atframe_utils.Base.{
  ℕ, suc, ◌+◌, ◌-◌, ◌*◌, ◌/◌, ◌%◌, ◌^◌, ◌≤◌, ◌≡◌, ◌≢◌, ◌⊎◌, ◌∙◌, ap, inl, inr, refl, sym, subst,
  arith, Bool, true, false, not, ◌&&◌, ◌==◌, ==_iff, Bool-cases, Option, none, some, Option-cases,
  List, [], ◌∷◌, length, if◌then◌else◌,
}
use atframe_utils.Base64.Tables.{Mode, dec_char}
use atframe_utils.Base64.{
  padding_char, encode_length, encode_two, encode_one, encode_groups, Scan, start_scan, scan,
  scan_char, skipped, emit, decode_length,
}
use atframe_utils.Base64.Scanning.{IsBlank, IsPadding, IsValue, IsStep, scan_char-IsStep}

-- With the padding as a variable: `encode_length` and the length of the last group.
module _ (unpadded : Bool) where
  padded_length : ℕ → ℕ
  padded_length slen =
      let n = (slen + 2) / 3 * 4 in
      if unpadded && not (slen % 3 == 0) then n - (3 - slen % 3) else n

  padded_length-next : (n : ℕ) → padded_length (suc (suc (suc n))) ≡ padded_length n + 4
  unfolding padded_length
  padded_length-next n = elim (Bool-cases unpadded) [
    | inl e ↦ rw e (ground arith)
    | inr e ↦ rw e (omega arith)
  ]

length-if :
    (b : Bool) (xs ys : List ℕ)
    → length (if b then xs else ys) ≡ (if b then length xs else length ys)
length-if true xs ys = refl
length-if false xs ys = refl

pub length-encode_groups :
    (mode : Mode) (src : List ℕ) → length (encode_groups mode src) ≡ encode_length mode (length src)
unfolding encode_groups encode_length encode_two encode_one padded_length
length-encode_groups mode [] = elim (Bool-cases (padding_char mode == 0)) [
  | inl e ↦ rw e refl
  | inr e ↦ rw e refl
]
length-encode_groups mode (c1 ∷ []) = elim (Bool-cases (padding_char mode == 0)) [
  | inl e ↦ rw e refl
  | inr e ↦ rw e refl
]
length-encode_groups mode (c1 ∷ c2 ∷ []) = elim (Bool-cases (padding_char mode == 0)) [
  | inl e ↦ rw e refl
  | inr e ↦ rw e refl
]
length-encode_groups mode (c1 ∷ c2 ∷ c3 ∷ src) =
    omega (
      arith,
      length-encode_groups mode src,
      padded_length-next (padding_char mode == 0) (length src),
    )

-- The counters while the decoder has `m` values of a group.
record IsCounted (s : Scan) (m : ℕ) : Type 0 where
  all_count : s.valid_slen ≡ s.n
  few : s.j ≤ 2
  enough : s.j ≤ s.n
  group : (s.n - s.j) % 4 ≡ m
  last : (s.j ≡ 0) ⊎ ((m ≡ 3) × (s.j ≡ 1)) ⊎ (m ≡ 2)

decode_length-IsCounted :
    (s : Scan) (m : ℕ)
    → IsCounted s m
    → (n : ℕ) → n ≡ (s.n - s.j) / 4 * 3 + (m - 1)
    → decode_length s ≡ n
unfolding decode_length
decode_length-IsCounted s m h n e = ground (arith, h.all_count, h.few, h.enough, h.group, h.last, e)

pub emit-skipped :
    (mode : Mode) (n x c : ℕ) (src : List ℕ)
    → skipped mode c ≡ true
    → emit mode n x (c ∷ src) ≡ emit mode n x src
unfolding emit
emit-skipped mode n x c src e = rw e refl

pub emit-value :
    (mode : Mode) (n x c : ℕ) (src : List ℕ)
    → skipped mode c ≡ false
    → emit mode n x (c ∷ src) ≡ (
        let x' = x * 64 % 2 ^ 64 + dec_char mode c % 64 in
        if n + 1 == 4
        then x' / 2 ^ 16 % 256 ∷ x' / 2 ^ 8 % 256 ∷ x' % 256 ∷ emit mode 0 x' src
        else emit mode (n + 1) x' src)
unfolding emit
emit-value mode n x c src e = rw e refl

or_else : {A : Type 0} → A → Option A → A
or_else a none = a
or_else a (some b) = b

some_inj : {A : Type 0} {a b : A} → some a ≡ some b → a ≡ b
unfolding or_else
some_inj {a = a} e = ap (or_else a) e

-- A pass that accepts a list accepts its first character.
scan-cons :
    (mode : Mode) (c x : ℕ) (src : List ℕ) (s s' : Scan)
    → scan mode x s (c ∷ src) ≡ some s'
    → (x' : ℕ) × (t : Scan) × (scan_char mode c x s ≡ some (x', t)) × (scan mode x' t src ≡ some s')
unfolding scan
scan-cons mode c x src s s' e = elim (Option-cases (scan_char mode c x s)) [
  | inl refused ↦ absurd (cc (refuses refused ∙ e))
  | inr (r, accepted) ↦ (r.0, r.1, accepted, accepts accepted ∙ e)
]
  where
    refuses : scan_char mode c x s ≡ none → none ≡ scan mode x s (c ∷ src)
    refuses h = rw (h, scan) refl

    accepts :
        {r : ℕ × Scan}
        → scan_char mode c x s ≡ some r
        → scan mode r.0 r.1 src ≡ scan mode x s (c ∷ src)
    accepts h = rw (h, scan) refl

IsBlank-IsCounted :
    (mode : Mode) (c m : ℕ) (s t : Scan) → IsBlank mode c s t → IsCounted s m → IsCounted t m
IsBlank-IsCounted mode c m s t b h =
    ground (arith, b.valid, b.padding, b.count, h.all_count, h.few, h.enough, h.group, h.last)

IsPadding-IsCounted :
    (mode : Mode) (c m : ℕ) (s t : Scan) → IsPadding mode c s t → IsCounted s m → IsCounted t m
IsPadding-IsCounted mode c m s t b h = record {
  all_count = omega (arith, b.valid, b.count, h.all_count);
  few = b.at_most;
  enough = omega (arith, b.padding, b.count, h.enough);
  group = omega (arith, b.padding, b.count, h.group);
  last = ground (
    arith, b.valid, b.padding, b.count, b.at_most, b.late, h.all_count, h.enough, h.group, h.last,
  );
}

IsValue-IsCounted :
    (mode : Mode) (c m : ℕ) (s t : Scan)
    → IsValue mode c s t
    → IsCounted s m
    → IsCounted t ((m + 1) % 4)
IsValue-IsCounted mode c m s t b h = record {
  all_count = omega (arith, b.valid, b.count, h.all_count);
  few = omega (arith, b.padding, h.few);
  enough = omega (arith, b.padding, b.count, h.enough);
  group = omega (arith, b.padding, b.count, b.unpadded, h.group);
  last = inl (omega (arith, b.padding, b.unpadded));
}

-- How many bytes the second pass writes for the characters that the first pass accepts.
length-emit-scan :
    (mode : Mode) (src : List ℕ) (x y m : ℕ) (s s' : Scan)
    → IsCounted s m
    → scan mode x s src ≡ some s'
    → length (emit mode m y src) + (s.n - s.j) / 4 * 3 ≡ decode_length s'
unfolding scan emit
length-emit-scan mode [] x y m s s' h e =
    subst (λ t. length (emit mode m y []) + (s.n - s.j) / 4 * 3 ≡ decode_length t) (some_inj e)
      (sym (decode_length-IsCounted s m h _ (ground (arith, h.group))))
length-emit-scan mode (c ∷ src) x y m s s' h e =
    let (x', t, accepted, later) = scan-cons mode c x src s s' e in
    elim (subst (IsStep mode c s) accepted (scan_char-IsStep mode c s x)) [
      | inl b ↦ rw (emit-skipped mode m y c src b.skip) (
          omega (
            arith,
            b.padding,
            b.count,
            length-emit-scan mode src x' y m t s' (IsBlank-IsCounted mode c m s t b h) later,
          ))
      | inr (inl b) ↦ rw (emit-skipped mode m y c src b.skip) (
          omega (
            arith,
            b.padding,
            b.count,
            length-emit-scan mode src x' y m t s' (IsPadding-IsCounted mode c m s t b h) later,
          ))
      | inr (inr b) ↦
          let y' = y * 64 % 2 ^ 64 + dec_char mode c % 64 in
          let h' = IsValue-IsCounted mode c m s t b h in
          rw (emit-value mode m y c src b.keep) (elim (Bool-cases (m + 1 == 4)) [
            | inl full ↦
                let m3 : m + 1 ≡ 4 = (==_iff (m + 1) 4).0 full in
                let ih =
                  length-emit-scan mode src x' y' 0 t s'
                    (subst (IsCounted t) (omega (arith, m3)) h') later in
                rw full (omega (arith, b.padding, b.count, b.unpadded, h.group, m3, ih))
            | inr open_group ↦
                let m3 : m + 1 ≢ 4 = λ q. ground (arith, open_group, q) in
                let ih =
                  length-emit-scan mode src x' y' (m + 1) t s'
                    (subst (IsCounted t) (omega (arith, m3, h.group)) h') later in
                rw open_group (omega (arith, b.padding, b.count, b.unpadded, h.group, m3, ih))
          ])
    ]

-- The second pass from the start.
pub length-emit :
    (mode : Mode) (src : List ℕ) (s : Scan)
    → scan mode 0 start_scan src ≡ some s
    → length (emit mode 0 0 src) ≡ decode_length s
length-emit mode src s e =
    let counted : IsCounted start_scan 0 = record {
      all_count = refl;
      few = omega arith;
      enough = omega arith;
      group = refl;
      last = inl refl;
    } in
    omega (arith, length-emit-scan mode src 0 0 0 start_scan s counted e)
