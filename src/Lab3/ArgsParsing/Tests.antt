-- ===== src/Lab3/ArgsParsing/Tests.antt =====
-- Two options.
use mai_os.Base.{refl, List, [], ◌∷◌, pos}
use mai_os.Base.Text.{Text, codes}
use mai_os.Lab3.ArgsParsing.{Settings, args_parsing}
use mai_os.Lab3.ArgsParsing.Given.{IsSettled, args_parsing-IsSettled}

abbrev args : List Text
args = codes "-t" ∷ codes "2" ∷ codes "-m" ∷ codes "4096" ∷ codes "file" ∷ []

abbrev defaults : Settings
defaults = record { filename = []; max_threads = pos 4; max_memory = pos 512 }

args_parsing-IsSettled_example : IsSettled (args_parsing args defaults)
args_parsing-IsSettled_example = args_parsing-IsSettled args defaults refl refl
