-- ===== src/Config/Load.antt =====
-- src/core/config.c: the lines of a file, and the loop over the files.
use nodeflight_fw.Base.{
  ℕ, zero, suc, Bool, Option, none, some, List, [], ◌∷◌, ◌++◌, ◌==◌, if◌then◌else◌, Bytes, length,
  drop, replicate, ◌>>=◌, ℤ, pos, negsuc, minus_one,
}
use nodeflight_fw.Map.{new_chunk}
use nodeflight_fw.Module.Init.{Setup, Result, given, failed, halted}
use nodeflight_fw.Strops.Split.{strops_split_argv}
use nodeflight_fw.Config.{Config, Found, cf_process_line, push, pop}

abbrev pub linebuf_num_args : ℕ
linebuf_num_args = 32

-- The string at a pointer; `none` is a read out of the memory.
unfoldable pub string_from : Bytes → Option Bytes
string_from [] = none
string_from (c ∷ cs) =
    let rest = string_from cs >>= λ w. some (c ∷ w) in if c == 0 then some [] else rest

unfoldable pub args_at : Bytes → ℕ → List (Option ℕ) → Option (List Bytes)
unfolding string_from
args_at mem zero argv = some []
args_at mem (suc argc) [] = none
args_at mem (suc argc) (none ∷ argv) = none
args_at mem (suc argc) (some p ∷ argv) =
    string_from (drop p mem) >>= λ w. args_at mem argc argv >>= λ ws. some (w ∷ ws)

-- One line, which is split in the buffer; with the result stands what the buffer holds then.
unfoldable pub cf_line : Found → Bytes → Config → Option (Result ℤ × (Bytes × Config))
unfolding args_at
cf_line f linebuf c = strops_split_argv linebuf (replicate linebuf_num_args none) >>= λ r.
    args_at r.1 r.0 r.2 >>= λ args. cf_process_line f args c >>= λ p. some (p.0, (r.1, p.1))

-- `f_gets` writes the line and a NUL over the buffer.
abbrev pub gets : Bytes → Bytes → Bytes
gets line linebuf = line ++ 0 ∷ drop (suc (length line)) linebuf

-- The lines so far, the result, the buffer and the configuration.
abbrev pub LinesEnd : Type 0
LinesEnd = ℕ × (Result ℤ × (Bytes × Config))

-- `< 0`, which a module that fails gives, too.
unfoldable pub after_line : ℕ → Result ℤ × (Bytes × Config) → Option LinesEnd → Option LinesEnd
after_line n (given (pos k), after) next = next
after_line n (given (negsuc k), after) next = some (n, (given minus_one, after))
after_line n (failed, after) next = some (n, (given minus_one, after))
after_line n (halted, after) next = some (n, (halted, after))

-- The loop over the lines of a file, as `f_gets` gives them; `found` is what each line finds.
unfoldable pub cf_lines : (ℕ → Found) → ℕ → List Bytes → Bytes → Config → Option LinesEnd
unfolding cf_line after_line
cf_lines found n [] linebuf c = some (n, (given (pos 0), (linebuf, c)))
cf_lines found n (line ∷ lines) linebuf c = cf_line (found n) (gets line linebuf) c >>= λ r.
    after_line n r (cf_lines found (suc n) lines r.1.0 r.1.1)

-- The files that `f_open` opens, each with its lines.
abbrev pub Files : Type 0
Files = Option Bytes → Option (List Bytes)

unfoldable pub after_file :
    LinesEnd → (ℕ → Bytes → Config → Option (Result ℤ × Config)) → Option (Result ℤ × Config)
after_file (n, (given (pos k), (linebuf, c))) next = next n linebuf c
after_file (n, (given (negsuc k), (linebuf, c))) next = some (given minus_one, c)
after_file (n, (failed, (linebuf, c))) next = some (given minus_one, c)
after_file (n, (halted, (linebuf, c))) next = some (halted, c)

-- A file that opens leaves the queue; one that does not stays there.
unfoldable pub read_file :
    (ℕ → Found)
    → Option (List Bytes)
    → ℕ
    → Bytes
    → Config
    → Config
    → (ℕ → Bytes → Config → Option (Result ℤ × Config))
    → Option (Result ℤ × Config)
unfolding cf_lines after_file
read_file found none n linebuf c c' next = some (given minus_one, c)
read_file found (some lines) n linebuf c c' next =
    cf_lines found n lines linebuf c' >>= λ r. after_file r next

abbrev pub read_popped :
    (ℕ → Found)
    → Files
    → Option (Option Bytes × Config)
    → ℕ
    → Bytes
    → Config
    → (ℕ → Bytes → Config → Option (Result ℤ × Config))
    → Option (Result ℤ × Config)
read_popped found files none n linebuf c next = some (given (pos 0), c)
read_popped found files (some (path, c')) n linebuf c next =
    read_file found (files path) n linebuf c c' next

-- The loop over the queue, on fuel, since a file that includes itself is read for ever.
unfoldable pub cf_files : (ℕ → Found) → Files → ℕ → ℕ → Bytes → Config → Option (Result ℤ × Config)
unfolding read_file
cf_files found files zero n linebuf c = none
cf_files found files (suc fuel) n linebuf c =
    pop c >>= λ p. read_popped found files p n linebuf c (cf_files found files fuel)

-- `cf_init`, with an empty queue and map; `memory` is whether `map_create` has memory, and `copied` is
-- what `strops_dup` gives.
unfoldable pub cf_init :
    Bool → (ℕ → Found) → Files → ℕ → Option Bytes → Bytes → Config → Option (Result ℤ × Config)
unfolding cf_files
cf_init memory found files fuel copied linebuf c =
    let setup' : Setup = record c.setup {
      cf_peripherals = if memory then new_chunk ∷ [] else [];
    } in
    let start : Config = record c { head = 0; tail = 0; setup = setup' } in
    push copied start >>= λ c'. cf_files found files fuel 0 linebuf c'
