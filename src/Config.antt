-- ===== src/Config.antt =====
-- kernel/config/config.c: the settings, and their text in a file.
pub mod Table
pub mod Laws
pub mod Lines
pub mod Room
pub mod Survive
pub mod Restore
mod Tests
use acharya_os.Base.{
  ℕ, zero, suc, ◌+◌, ◌-◌, List, [], ◌∷◌, ◌++◌, Bool, true, false, not, ◌&&◌, ◌||◌, Option, none,
  some, Status, ok, fail, ◌==◌, ltb, if◌then◌else◌, get_or, replicate, take, drop, modify,
  find_index, collect, count, length, maybe, min,
}
use acharya_os.Kstring.{CString, codes, copy_text, str_eq, has_text}
use acharya_os.Ata.{Drive, Disk}
use acharya_os.Fs.{Fs, ReadResult, not_read, past_buffer, loaded, read_file, write_file}
use acharya_os.Config.Table.{
  Entry, key_max, value_max, entry_max, no_entry, defaults, is_used, find_key, find_free, entry_at,
  set_entry, reset_defaults,
}

abbrev pub file_max : ℕ
file_max = 1024

-- The static variables.
pub record Config : Type 0 where
  pub entries : List Entry
  pub file_name : CString

abbrev backing_name : CString
backing_name = codes "acharyaos.cfg"

pub record Stats : Type 0 where
  pub total_entries : ℕ
  pub used_entries : ℕ
  pub backing_file : CString

pub set : Option CString → Option CString → Config → Status × Config
set none value c = (fail, c)
set (some key) none c = (fail, c)
set (some key) (some value) c =
    let (done, entries) = set_entry key value c.entries in (done, record c { entries = entries })

-- The array that receives the value, if there is one, has `out_size` characters.
pub get : Option CString → Option CString → ℕ → Config → Option CString
get none out out_size c = none
get (some key) none out_size c = none
get (some key) (some out) out_size c =
    if out_size == 0
    then none
    else maybe (find_key key c.entries) none
        λ i. some (copy_text out out_size (entry_at c.entries i).value)

pub list_entries : ℕ → Config → List Entry
list_entries max_entries c = collect is_used max_entries c.entries

pub get_stats : CString → Config → Stats
get_stats backing c = record {
  total_entries = entry_max;
  used_entries = count is_used c.entries;
  backing_file = copy_text backing 16 c.file_name;
}

-- The first loop of `config_next_line`.
unfoldable pub skip_breaks : CString → CString
skip_breaks [] = []
skip_breaks (c ∷ cs) = let rest = skip_breaks cs in if c == 13 || c == 10 then rest else c ∷ cs

-- The second loop: the line, for which there is room, and what is left of the text.
unfoldable pub line_loop : ℕ → CString → CString × CString
line_loop zero text = ([], text)
line_loop (suc room) [] = ([], [])
line_loop (suc room) (c ∷ cs) =
    let (line, rest) = line_loop room cs in
    let (same, rest') = line_loop (suc room) cs in
    if c == 0 || c == 10 then ([], c ∷ cs) else if c == 13 then (same, rest') else (c ∷ line, rest)

-- The third loop, and the step over the end of the line.
unfoldable pub skip_line : CString → CString
skip_line [] = []
skip_line (c ∷ cs) =
    let rest = skip_line cs in if c == 0 then c ∷ cs else if c == 10 then cs else rest

pub next_line : CString → ℕ → CString × CString
next_line text line_size =
    let (line, rest) = line_loop (line_size - 1) (skip_breaks text) in (line, skip_line rest)

-- The line before and behind its first '='.
unfoldable pub split_line : CString → Option (CString × CString)
split_line [] = none
split_line (c ∷ cs) =
    let rest = maybe (split_line cs) none λ (key, value). some (c ∷ key, value) in
    if c == 0 then none else if c == 61 then some ([], cs) else rest

-- What one line sets.
pub read_line : CString → List Entry → List Entry
read_line line entries =
    if not (has_text line)
    then entries
    else maybe (split_line line) entries λ (key, value). (set_entry key value entries).1

-- A round of the loop of `config_load` for each unit of fuel: every line takes one character at least.
unfoldable pub read_lines : ℕ → CString → List Entry → List Entry
read_lines zero text entries = entries
read_lines (suc fuel) text entries =
    let (line, rest) = next_line text (key_max + value_max + 2) in
    let more = read_lines fuel rest (read_line line entries) in
    if get_or text 0 0 == 0 then entries else more

-- The text in the buffer: what was read, up to the NUL that is put behind it.
abbrev pub loaded_text : List ℕ → ℕ → CString
loaded_text bytes size = take (if ltb size file_max then size else file_max - 1) bytes

abbrev pub read_text : CString → List Entry → List Entry
read_text text entries = read_lines (length text) text entries

-- A loop of `config_save`: the characters of a text, while there is room for one more behind them.
unfoldable pub put_text : CString → List ℕ → List ℕ
put_text [] buffer = buffer
put_text (c ∷ cs) buffer =
    let rest = put_text cs (buffer ++ (c ∷ [])) in
    if not (c == 0) && ltb (length buffer + 1) file_max then rest else buffer

abbrev pub is_full : List ℕ → Bool
is_full buffer = not (ltb (length buffer + 1) file_max)

unfoldable pub save_loop : List Entry → List ℕ → List ℕ
save_loop [] buffer = buffer
save_loop (e ∷ es) buffer =
    let with_key = put_text e.key buffer in
    let with_value = put_text e.value (with_key ++ (61 ∷ [])) in
    let unused = save_loop es buffer in
    let next = save_loop es (with_value ++ (10 ∷ [])) in
    if not (is_used e)
    then unused
    else if is_full with_key
    then with_key
    else if is_full with_value
    then with_value
    else next

-- The text of the file.
pub save_text : List Entry → List ℕ
save_text entries =
    let buffer = save_loop entries [] in if length buffer == 0 then 10 ∷ [] else buffer

-- The settings after the file was read. The buffer of 1024 bytes has room for the two blocks that a
-- file of its size has, so that nothing goes past its end.
abbrev pub load_result : Config → ReadResult → Config
load_result c not_read = record c { entries = reset_defaults }
load_result c past_buffer = record c { entries = reset_defaults }
load_result c (loaded bytes size) = record c {
  entries = read_text (loaded_text bytes size) reset_defaults;
}

module _ (D : Drive) where
  -- The result of `config_load` is always 0.
  pub load : Config → Fs → Disk D → Config × Disk D
  load c fs s =
      let (read, s') = read_file D (some c.file_name) (some file_max) fs s in
      (load_result c read, s')

  pub save : Config → Fs → Disk D → Status × Fs × Disk D
  save c fs s =
      let buffer = save_text c.entries in
      write_file D (some c.file_name) (some buffer) (length buffer) fs s

  pub init : Config → Fs → Disk D → Config × Disk D
  init c fs s =
      load (record { entries = reset_defaults; file_name = copy_text c.file_name 16 backing_name })
        fs s
