-- ===== src/Server/Log.antt =====
-- common/slayer_server_logging.c: `slayer_log_sanitize`, and the ring of the latest requests and errors
-- that `slayer_server_log_add_entry` and `slayer_server_log_add_error` share. The JSON text of an
-- entry is an argument: `json_serialize` makes it of an object, so that it is never empty.
pub mod Ring
pub mod Latest
pub mod Clean
use dbslayer.Prelude.{
  ℕ, zero, suc, ◌+◌, ◌-◌, ◌||◌, List, [], ◌∷◌, ◌++◌, Bytes, codes, bytes_eq, map, length, replicate,
  set, get_or, ltb, ◌==◌, if◌then◌else◌, Option, none, some,
}

abbrev pub sanitize_byte : ℕ → ℕ
sanitize_byte c = if ltb c 0x20 || c == 0x7f then b'_' else c

unfoldable pub sanitize : Bytes → Bytes
sanitize = map sanitize_byte

-- `entries` and `offset`; `nentries` is the length of `entries`, and `none` a NULL `json_view`
pub record Log : Type 0 where
  pub entries : List (Option Bytes)
  pub offset : ℕ

abbrev pub log_open : ℕ → Log
log_open nentries = record { entries = replicate nentries none; offset = 0 }

-- `offset++; if (offset == nentries) offset = 0;`
abbrev pub next_offset : ℕ → ℕ → ℕ
next_offset offset nentries = if suc offset == nentries then 0 else suc offset

unfoldable pub log_add : Bytes → Log → Log
log_add entry log =
    let offset = next_offset log.offset (length log.entries) in
    record { entries = set log.entries offset (some entry); offset = offset }

-- one round of the two loops
unfoldable pub append_entry : Bytes → Option Bytes → Bytes
append_entry text none = text
append_entry text (some entry) =
    text ++ ((if bytes_eq text (codes "[") then [] else codes ",") ++ entry)

-- the rounds from index `i` on, `n` of them
unfoldable pub entries_loop : ℕ → ℕ → List (Option Bytes) → Bytes → Bytes
unfolding append_entry
entries_loop zero i entries text = text
entries_loop (suc n) i entries text =
    entries_loop n (suc i) entries (append_entry text (get_or entries i none))

unfoldable pub get_entries : Log → Bytes
unfolding entries_loop
get_entries log =
    let rounds = length log.entries - suc log.offset in
    entries_loop (suc log.offset) 0 log.entries
      (entries_loop rounds (suc log.offset) log.entries (codes "["))
    ++ codes "]"

abbrev pub log_all : List Bytes → Log → Log
log_all [] log = log
log_all (entry ∷ es) log = log_all es (log_add entry log)
