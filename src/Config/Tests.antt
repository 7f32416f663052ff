-- ===== src/Config/Tests.antt =====
-- Lines that include files.
use nodeflight_fw.Base.{◌<◌, true, none, some, [], ◌∷◌, ◌++◌, ◌≡◌, refl, ◌⊎◌, replicate, pos, arith}
use nodeflight_fw.Module.Init.{Setup, given}
use nodeflight_fw.Config.{Config, Found, inc_word, cf_process_line}
use nodeflight_fw.Config.Queue.{IsQueue, count, waiting, include-waiting}
use nodeflight_fw.Base.{Bytes, map}
use nodeflight_fw.Strops.Words.{words_from, words}
use nodeflight_fw.Config.Load.{cf_lines}
use nodeflight_fw.Config.Lines.{IsLine, forget_buffer, process_words, cf_lines-words}

abbrev setup : Setup
setup = record {
  board = record { resources = []; peripherals = []; header_memory = true; rscs_memory = true };
  init_peripheral = λ iface. pos 0;
  cf_peripherals = [];
  schedulers = [];
  mutex = true;
  modules = [];
  init = λ md name args. pos 0;
}

-- Two paths, at both ends of the array.
abbrev config : Config
config = record {
  queue = some (0x61 ∷ []) ∷ replicate 14 none ++ some (0x62 ∷ []) ∷ [];
  head = 15;
  tail = 1;
  setup = setup;
  states = [];
}

config-IsQueue : IsQueue config
config-IsQueue = record { whole = refl; head = omega arith; tail = omega arith }

abbrev found : Found
found = record {
  tag = true;
  chunk = true;
  argv = true;
  path = true;
  means = record { mutex = true; memory = true; name_memory = true; task = true };
  ptr = 0;
}

include-waiting_example :
    (c' : Config) × (cf_process_line found (inc_word ∷ (0x63 ∷ []) ∷ []) config
      ≡ some (given (pos 0), c'))
    × IsQueue c'
    × (((count config < 15) × (waiting c' ≡ waiting config ++ some (0x63 ∷ []) ∷ []))
        ⊎ ((count config ≡ 15) × (waiting c' ≡ [])))
include-waiting_example = include-waiting found (0x63 ∷ []) config refl config-IsQueue

-- A file that includes another one, with a comment behind it.
abbrev include_line : Bytes
include_line = 0x69 ∷ 0x6e ∷ 0x63 ∷ 0x20 ∷ 0x61 ∷ 10 ∷ []

abbrev comment_line : Bytes
comment_line = 35 ∷ 0x20 ∷ 34 ∷ 0x78 ∷ 10 ∷ []

include_line-IsLine : IsLine include_line
unfolding words words_from
include_line-IsLine = record {
  is_string = (refl, (refl, (refl, (refl, (refl, (refl, tt))))));
  fits = omega arith;
}

comment_line-IsLine : IsLine comment_line
unfolding words words_from
comment_line-IsLine = record {
  is_string = (refl, (refl, (refl, (refl, (refl, tt)))));
  fits = omega arith;
}

cf_lines-words_example :
    forget_buffer (cf_lines (λ n. found) 0 (include_line ∷ comment_line ∷ []) [] config)
    ≡ process_words (λ n. found) 0 (map words (include_line ∷ comment_line ∷ [])) config
cf_lines-words_example =
    cf_lines-words (λ n. found) 0 (include_line ∷ comment_line ∷ []) [] config
      (include_line-IsLine, (comment_line-IsLine, tt))
