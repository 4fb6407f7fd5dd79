-- ===== src/Base64/Tables.antt =====
-- The tables of algorithm/base64.cpp and their choice by mode.
use atframe_utils.Base.{codes, ℕ, zero, suc, List, [], ◌∷◌}

-- `base64_mode_t::type`
pub data Mode : Type 0 where
  standard utf7 imap_mailbox_name url_filename_safe : Mode

abbrev base64_enc_map_basic : List ℕ
base64_enc_map_basic = codes "ABCDEFGHIJKLMNOPQRSTUVWXYZabcdefghijklmnopqrstuvwxyz0123456789+/"

abbrev base64_dec_map_basic : List ℕ
base64_dec_map_basic =
    127 ∷ 127 ∷ 127 ∷ 127 ∷ 127 ∷ 127 ∷ 127 ∷ 127 ∷ 127 ∷ 127 ∷ 127 ∷ 127 ∷ 127 ∷ 127 ∷ 127 ∷ 127
    ∷ 127 ∷ 127 ∷ 127 ∷ 127 ∷ 127 ∷ 127 ∷ 127 ∷ 127 ∷ 127 ∷ 127 ∷ 127 ∷ 127 ∷ 127 ∷ 127 ∷ 127 ∷ 127
    ∷ 127 ∷ 127 ∷ 127 ∷ 127 ∷ 127 ∷ 127 ∷ 127 ∷ 127 ∷ 127 ∷ 127 ∷ 127 ∷ 62 ∷ 127 ∷ 127 ∷ 127 ∷ 63
    ∷ 52 ∷ 53 ∷ 54 ∷ 55 ∷ 56 ∷ 57 ∷ 58 ∷ 59 ∷ 60 ∷ 61 ∷ 127 ∷ 127 ∷ 127 ∷ 127 ∷ 127 ∷ 127 ∷ 127 ∷ 0
    ∷ 1 ∷ 2 ∷ 3 ∷ 4 ∷ 5 ∷ 6 ∷ 7 ∷ 8 ∷ 9 ∷ 10 ∷ 11 ∷ 12 ∷ 13 ∷ 14 ∷ 15 ∷ 16 ∷ 17 ∷ 18 ∷ 19 ∷ 20 ∷ 21
    ∷ 22 ∷ 23 ∷ 24 ∷ 25 ∷ 127 ∷ 127 ∷ 127 ∷ 127 ∷ 127 ∷ 127 ∷ 26 ∷ 27 ∷ 28 ∷ 29 ∷ 30 ∷ 31 ∷ 32 ∷ 33
    ∷ 34 ∷ 35 ∷ 36 ∷ 37 ∷ 38 ∷ 39 ∷ 40 ∷ 41 ∷ 42 ∷ 43 ∷ 44 ∷ 45 ∷ 46 ∷ 47 ∷ 48 ∷ 49 ∷ 50 ∷ 51 ∷ 127
    ∷ 127 ∷ 127 ∷ 127 ∷ 127 ∷ []

abbrev base64_enc_map_imap : List ℕ
base64_enc_map_imap = codes "ABCDEFGHIJKLMNOPQRSTUVWXYZabcdefghijklmnopqrstuvwxyz0123456789+,"

abbrev base64_dec_map_imap : List ℕ
base64_dec_map_imap =
    127 ∷ 127 ∷ 127 ∷ 127 ∷ 127 ∷ 127 ∷ 127 ∷ 127 ∷ 127 ∷ 127 ∷ 127 ∷ 127 ∷ 127 ∷ 127 ∷ 127 ∷ 127
    ∷ 127 ∷ 127 ∷ 127 ∷ 127 ∷ 127 ∷ 127 ∷ 127 ∷ 127 ∷ 127 ∷ 127 ∷ 127 ∷ 127 ∷ 127 ∷ 127 ∷ 127 ∷ 127
    ∷ 127 ∷ 127 ∷ 127 ∷ 127 ∷ 127 ∷ 127 ∷ 127 ∷ 127 ∷ 127 ∷ 127 ∷ 127 ∷ 62 ∷ 63 ∷ 127 ∷ 127 ∷ 127
    ∷ 52 ∷ 53 ∷ 54 ∷ 55 ∷ 56 ∷ 57 ∷ 58 ∷ 59 ∷ 60 ∷ 61 ∷ 127 ∷ 127 ∷ 127 ∷ 127 ∷ 127 ∷ 127 ∷ 127 ∷ 0
    ∷ 1 ∷ 2 ∷ 3 ∷ 4 ∷ 5 ∷ 6 ∷ 7 ∷ 8 ∷ 9 ∷ 10 ∷ 11 ∷ 12 ∷ 13 ∷ 14 ∷ 15 ∷ 16 ∷ 17 ∷ 18 ∷ 19 ∷ 20 ∷ 21
    ∷ 22 ∷ 23 ∷ 24 ∷ 25 ∷ 127 ∷ 127 ∷ 127 ∷ 127 ∷ 127 ∷ 127 ∷ 26 ∷ 27 ∷ 28 ∷ 29 ∷ 30 ∷ 31 ∷ 32 ∷ 33
    ∷ 34 ∷ 35 ∷ 36 ∷ 37 ∷ 38 ∷ 39 ∷ 40 ∷ 41 ∷ 42 ∷ 43 ∷ 44 ∷ 45 ∷ 46 ∷ 47 ∷ 48 ∷ 49 ∷ 50 ∷ 51 ∷ 127
    ∷ 127 ∷ 127 ∷ 127 ∷ 127 ∷ []

abbrev base64_enc_map_url : List ℕ
base64_enc_map_url = codes "ABCDEFGHIJKLMNOPQRSTUVWXYZabcdefghijklmnopqrstuvwxyz0123456789-_"

abbrev base64_dec_map_url : List ℕ
base64_dec_map_url =
    127 ∷ 127 ∷ 127 ∷ 127 ∷ 127 ∷ 127 ∷ 127 ∷ 127 ∷ 127 ∷ 127 ∷ 127 ∷ 127 ∷ 127 ∷ 127 ∷ 127 ∷ 127
    ∷ 127 ∷ 127 ∷ 127 ∷ 127 ∷ 127 ∷ 127 ∷ 127 ∷ 127 ∷ 127 ∷ 127 ∷ 127 ∷ 127 ∷ 127 ∷ 127 ∷ 127 ∷ 127
    ∷ 127 ∷ 127 ∷ 127 ∷ 127 ∷ 127 ∷ 127 ∷ 127 ∷ 127 ∷ 127 ∷ 127 ∷ 127 ∷ 127 ∷ 127 ∷ 62 ∷ 127 ∷ 127
    ∷ 52 ∷ 53 ∷ 54 ∷ 55 ∷ 56 ∷ 57 ∷ 58 ∷ 59 ∷ 60 ∷ 61 ∷ 127 ∷ 127 ∷ 127 ∷ 127 ∷ 127 ∷ 127 ∷ 127 ∷ 0
    ∷ 1 ∷ 2 ∷ 3 ∷ 4 ∷ 5 ∷ 6 ∷ 7 ∷ 8 ∷ 9 ∷ 10 ∷ 11 ∷ 12 ∷ 13 ∷ 14 ∷ 15 ∷ 16 ∷ 17 ∷ 18 ∷ 19 ∷ 20 ∷ 21
    ∷ 22 ∷ 23 ∷ 24 ∷ 25 ∷ 127 ∷ 127 ∷ 127 ∷ 127 ∷ 63 ∷ 127 ∷ 26 ∷ 27 ∷ 28 ∷ 29 ∷ 30 ∷ 31 ∷ 32 ∷ 33
    ∷ 34 ∷ 35 ∷ 36 ∷ 37 ∷ 38 ∷ 39 ∷ 40 ∷ 41 ∷ 42 ∷ 43 ∷ 44 ∷ 45 ∷ 46 ∷ 47 ∷ 48 ∷ 49 ∷ 50 ∷ 51 ∷ 127
    ∷ 127 ∷ 127 ∷ 127 ∷ 127 ∷ []

-- An element of a table.
abbrev nth : List ℕ → ℕ → ℕ
nth [] i = 0
nth (x ∷ xs) zero = x
nth (x ∷ xs) (suc i) = nth xs i

-- `base64_get_enc_map`
abbrev base64_get_enc_map : Mode → List ℕ
base64_get_enc_map standard = base64_enc_map_basic
base64_get_enc_map utf7 = base64_enc_map_basic
base64_get_enc_map imap_mailbox_name = base64_enc_map_imap
base64_get_enc_map url_filename_safe = base64_enc_map_url

-- `base64_get_dec_map`
abbrev base64_get_dec_map : Mode → List ℕ
base64_get_dec_map standard = base64_dec_map_basic
base64_get_dec_map utf7 = base64_dec_map_basic
base64_get_dec_map imap_mailbox_name = base64_dec_map_imap
base64_get_dec_map url_filename_safe = base64_dec_map_url

-- `base64_get_padding_char`
abbrev pub base64_get_padding_char : Mode → ℕ
base64_get_padding_char standard = b'='
base64_get_padding_char utf7 = 0
base64_get_padding_char imap_mailbox_name = 0
base64_get_padding_char url_filename_safe = b'='

-- `base64_enc_map[v]` and `base64_dec_map[c]` of a mode.
unfoldable pub enc_char : Mode → ℕ → ℕ
enc_char mode v = nth (base64_get_enc_map mode) v

unfoldable pub dec_char : Mode → ℕ → ℕ
dec_char mode c = nth (base64_get_dec_map mode) c
