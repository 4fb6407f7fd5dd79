-- ===== src/Base64/Chars.antt =====
-- What the tables of base64 have in common, by evaluation.
use atframe_utils.Base.{
  holds_under, holds_under-lt, ℕ, ◌≤◌, ◌<◌, ◌≡◌, ◌⊎◌, inl, inr, refl, arith, Bool, true, false, not,
  ◌&&◌, ◌||◌, ltb, leb, ◌==◌,
}
use atframe_utils.Base64.Tables.{
  Mode, standard, utf7, imap_mailbox_name, url_filename_safe, enc_char, dec_char,
}
use atframe_utils.Base64.{padding_char, skipped}

-- A character of the alphabet is none that the decoder skips, and decodes to its value.
fits : Mode → ℕ → Bool
unfolding skipped
fits mode v = let c = enc_char mode v in not (skipped mode c) && leb c 127 && (dec_char mode c == v)

all_fit : (mode : Mode) → holds_under (fits mode) 64 ≡ true
unfolding holds_under fits enc_char dec_char
all_fit standard = refl
all_fit utf7 = refl
all_fit imap_mailbox_name = refl
all_fit url_filename_safe = refl

pub record IsChar (mode : Mode) (v c : ℕ) : Type 0 where
  pub kept : skipped mode c ≡ false
  pub small : c ≤ 127
  pub decoded : dec_char mode c ≡ v

fits-IsChar : (mode : Mode) (v : ℕ) → fits mode v ≡ true → IsChar mode v (enc_char mode v)
unfolding fits
fits-IsChar mode v h = record {
  kept = ground (arith, h);
  small = ground (arith, h);
  decoded = ground (arith, h);
}

pub enc_char-IsChar : (mode : Mode) (v : ℕ) → v < 64 → IsChar mode v (enc_char mode v)
enc_char-IsChar mode v h = fits-IsChar mode v (holds_under-lt (fits mode) 64 v (all_fit mode) h)

-- Every entry of a decoding table is a value of six bits or 127, and that of the padding is 127.
entry_fits : Mode → ℕ → Bool
entry_fits mode c = ltb (dec_char mode c) 64 || (dec_char mode c == 127)

entries_fit : (mode : Mode) → holds_under (entry_fits mode) 128 ≡ true
unfolding holds_under entry_fits dec_char
entries_fit standard = refl
entries_fit utf7 = refl
entries_fit imap_mailbox_name = refl
entries_fit url_filename_safe = refl

pub dec_char-lt :
    (mode : Mode) (c : ℕ) → c ≤ 127 → (dec_char mode c == 127) ≡ false → dec_char mode c < 64
unfolding entry_fits
dec_char-lt mode c h n =
    ground (arith, n, holds_under-lt (entry_fits mode) 128 c (entries_fit mode) (omega arith))

pub dec_char-padding_char : (mode : Mode) → dec_char mode (padding_char mode) ≡ 127
unfolding dec_char
dec_char-padding_char standard = refl
dec_char-padding_char utf7 = refl
dec_char-padding_char imap_mailbox_name = refl
dec_char-padding_char url_filename_safe = refl

pub padding_char-kept : (mode : Mode) → (padding_char mode ≡ 0) ⊎ (padding_char mode ≡ b'=')
padding_char-kept standard = inr refl
padding_char-kept utf7 = inl refl
padding_char-kept imap_mailbox_name = inl refl
padding_char-kept url_filename_safe = inr refl
