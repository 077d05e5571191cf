-- ===== src/Log/Format/Tests.antt =====
-- Formatted messages.
use acharya_os.Base.{◌-◌, ◌≡◌, refl, arith, List, [], ◌∷◌, replicate, length, take, negsuc}
use acharya_os.Kstring.{CString, codes, text}
use acharya_os.Log.Format.{
  Arg, string, int, uint, format_message, format_loop, append_spec, append_str, append_int,
  append_uint, append_all, append_char, uint_digits,
}
use acharya_os.Log.Format.Message.{numeral, rendered, digits_of, number_from, number_from-digits_of}
use acharya_os.Log.Format.Buffer.{text-format_message}

abbrev buffer : CString
buffer = replicate 16 7

abbrev args : List Arg
args = string (codes "ata") ∷ int (negsuc 4) ∷ uint 255 ∷ []

formatted : text (format_message buffer 16 (codes "%s=%d %x 100%%") args) ≡ codes "ata=-5 ff 100%"
unfolding format_message format_loop append_spec append_str append_int append_uint append_all
    append_char uint_digits
formatted = refl

message_length : length (rendered (codes "%s=%d %x 100%%") args) ≡ 14
unfolding rendered numeral
message_length = refl

text-format_message_example :
    text (format_message buffer 16 (codes "%s=%d %x 100%%") args)
    ≡ text (take (16 - 1) (rendered (codes "%s=%d %x 100%%") args))
text-format_message_example =
    text-format_message buffer 16 (codes "%s=%d %x 100%%") args (omega arith) (omega arith) refl
      (omega (arith, message_length))

number_from-digits_of_example : number_from 0 (digits_of 40960 10) ≡ 40960
number_from-digits_of_example = number_from-digits_of 40960 (omega arith)
