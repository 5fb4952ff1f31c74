-- ===== src/Throttler/Keys.antt =====
-- Keys of Redis that hold numbers and may expire, with the commands of the script in
-- src/redis/redis-throttler.storage.ts as Redis documents them.
use lotus_build_server.Base.{
  ℕ, suc, ◌+◌, ◌-◌, String, Bool, true, Option, none, some, ◌==◌, ltb, if◌then◌else◌,
}
use lotus_build_server.Base.Integers.{ℤ}

-- `expires_at` is `none` for a key that does not expire
pub record Cell : Type 0 where
  pub value : ℕ
  pub expires_at : Option ℕ

abbrev pub Store : Type 0
Store = String → Option Cell

abbrev pub empty : Store
empty key = none

abbrev pub is_live : ℕ → Option ℕ → Bool
is_live now none = true
is_live now (some at) = ltb now at

abbrev pub live_cell : ℕ → Option Cell → Option Cell
live_cell now none = none
live_cell now (some cell) = if is_live now cell.expires_at then some cell else none

-- what a command finds at a key
unfoldable pub find : ℕ → String → Store → Option Cell
find now key store = live_cell now (store key)

unfoldable pub write : String → Cell → Store → Store
write key cell store other = if other == key then some cell else store other

-- the number at a key, where nothing counts as 0
abbrev pub value_of : Option Cell → ℕ
value_of none = 0
value_of (some cell) = cell.value

abbrev pub expiry_of : Option Cell → Option ℕ
expiry_of none = none
expiry_of (some cell) = cell.expires_at

-- `GET`, where nothing counts as 0
unfoldable pub get_number : ℕ → String → Store → ℕ
get_number now key store = value_of (find now key store)

abbrev time_left : ℕ → Option Cell → ℤ
time_left now none = ℤ.negsuc 1
time_left now (some cell) = left cell.expires_at
  where
    left : Option ℕ → ℤ
    left none = ℤ.negsuc 0
    left (some at) = ℤ.pos (at - now)

-- `PTTL`: -2 without the key, -1 where it does not expire
unfoldable pub pttl : ℕ → String → Store → ℤ
pttl now key store = time_left now (find now key store)

-- `INCR` keeps the expiry
unfoldable pub incr : ℕ → String → Store → ℕ × Store
incr now key store =
    let found = find now key store in
    let value = suc (value_of found) in
    (value, write key (record { value = value; expires_at = expiry_of found }) store)

abbrev expire_cell : ℕ → String → Option Cell → Store → Store
expire_cell at key none store = store
expire_cell at key (some cell) store =
    write key (record { value = cell.value; expires_at = some at }) store

-- `PEXPIRE`
unfoldable pub pexpire : ℕ → String → ℕ → Store → Store
pexpire now key ms store = expire_cell (now + ms) key (find now key store) store

-- `SET key 1 PX ms`
unfoldable pub set_px : ℕ → String → ℕ → Store → Store
set_px now key ms store = write key (record { value = 1; expires_at = some (now + ms) }) store
