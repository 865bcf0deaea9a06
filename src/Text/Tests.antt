-- ===== src/Text/Tests.antt =====
-- The text functions on small inputs.
use zipologger.Base.{◌≡◌, refl, [], ◌∷◌, none, some}
use zipologger.Text.Base64
use zipologger.Text.Hex
use zipologger.Text.Lines.{scan, scan_lines, cut_line, drop_cr, token}

-- "Man" is "TWFu", and "Ma" is "TWE".
base64_man : Base64.encode_to_string (77 ∷ 97 ∷ 110 ∷ []) ≡ 84 ∷ 87 ∷ 70 ∷ 117 ∷ []
unfolding Base64.encode_to_string Base64.char_of
base64_man = refl

base64_ma : Base64.decode_string (84 ∷ 87 ∷ 69 ∷ []) ≡ some (77 ∷ 97 ∷ [])
unfolding Base64.decode_string Base64.decode_groups Base64.without_newlines Base64.bits_of
base64_ma = refl

-- "a-b" is not base64.
base64_bad : Base64.decode_string (97 ∷ 45 ∷ 98 ∷ []) ≡ none
unfolding Base64.decode_string Base64.decode_groups Base64.without_newlines Base64.bits_of
base64_bad = refl

-- "0aFF" is two bytes, and "0a0" is none.
hex_two : Hex.decode_string (48 ∷ 97 ∷ 70 ∷ 70 ∷ []) ≡ some (10 ∷ 255 ∷ [])
unfolding Hex.decode_string Hex.value_of
hex_two = refl

hex_odd : Hex.decode_string (48 ∷ 97 ∷ 48 ∷ []) ≡ none
unfolding Hex.decode_string Hex.value_of
hex_odd = refl

-- "a\r\n\nb": three lines, the last without a newline.
scan_three : scan (97 ∷ 13 ∷ 10 ∷ 10 ∷ 98 ∷ []) ≡ (97 ∷ []) ∷ [] ∷ (98 ∷ []) ∷ []
unfolding scan scan_lines cut_line drop_cr token
scan_three = refl
