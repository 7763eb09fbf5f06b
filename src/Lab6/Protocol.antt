-- ===== src/Lab6/Protocol.antt =====
-- lab6/errors/error_handler.h: the codes of the answers, and how a handler reads a message.
use mai_os.Base.{ℕ, Option, none, some, ℤ, pos, get_elem?}
use mai_os.Base.Text.{Text, codes}
use mai_os.Lab6.MqNode.{Message}

abbrev pub error_not_found : Text
error_not_found = codes "Not found"

abbrev pub code_ok : ℤ
code_ok = pos 1

abbrev pub code_error_not_found : ℤ
code_error_not_found = pos 2

abbrev pub code_error_custom : ℤ
code_error_custom = pos 3

abbrev join : Option (Option Text) → Option Text
join none = none
join (some c) = c

-- `message[i]`: a string, or NULL; a use of the string that cannot be NULL fails at NULL.
abbrev pub cell : Message → ℕ → Option Text
cell message i = join (get_elem? message i)
