-- ===== src/Throttler.antt =====
-- src/redis/redis-throttler.storage.ts with its Lua script, on the keys that it uses of Redis. Redis runs
-- a script at one moment, which is `now`, in milliseconds.
pub mod Keys
pub mod Window
pub mod Blocking
use lotus_build_server.Base.{ℕ, String, ◌<>◌, Bool, true, false, ◌&&◌, ltb, nat_eq, if◌then◌else◌}
use lotus_build_server.Base.Integers.{ℤ, is_positive, seconds_up}
use Keys.{Store, get_number, pttl, incr, pexpire, set_px}

-- the four numbers that the script returns
pub record Reply : Type 0 where
  pub hits : ℕ
  pub hits_ttl : ℤ
  pub blocked : ℕ
  pub block_ttl : ℤ

-- `if hits > limit and block_ms > 0`, and the return behind it
unfoldable pub settle : ℕ → String → String → ℕ → ℕ → ℕ → Store → Reply × Store
settle now hits_key block_key limit block_ms hits store =
    let hits_ttl = pttl now hits_key store in
    if ltb limit hits && ltb 0 block_ms
    then (
      record { hits = hits; hits_ttl = hits_ttl; blocked = 1; block_ttl = ℤ.pos block_ms },
      set_px now block_key block_ms store,
    )
    else (record { hits = hits; hits_ttl = hits_ttl; blocked = 0; block_ttl = ℤ.pos 0 }, store)

-- INCREMENT_SCRIPT
unfoldable pub increment_script : ℕ → String → String → ℕ → ℕ → ℕ → Store → Reply × Store
unfolding settle
increment_script now hits_key block_key ttl_ms limit block_ms store =
    let block_ttl = pttl now block_key store in
    let (hits, counted) = incr now hits_key store in
    let started = if nat_eq hits 1 then pexpire now hits_key ttl_ms counted else counted in
    if is_positive block_ttl
    then (
      record {
        hits = get_number now hits_key store;
        hits_ttl = pttl now hits_key store;
        blocked = 1;
        block_ttl = block_ttl;
      },
      store,
    )
    else settle now hits_key block_key limit block_ms hits started

abbrev pub hits_key_of : String → String → String
hits_key_of throttler_name key = "throttle:" <> throttler_name <> ":" <> key <> ":hits"

abbrev pub block_key_of : String → String → String
block_key_of throttler_name key = "throttle:" <> throttler_name <> ":" <> key <> ":block"

pub record ThrottlerStorageRecord : Type 0 where
  pub total_hits : ℕ
  pub time_to_expire : ℕ
  pub is_blocked : Bool
  pub time_to_block_expire : ℕ

abbrev pub record_of : Reply → ThrottlerStorageRecord
record_of reply = record {
  total_hits = reply.hits;
  time_to_expire = seconds_up reply.hits_ttl;
  is_blocked = nat_eq reply.blocked 1;
  time_to_block_expire = seconds_up reply.block_ttl;
}

-- `increment(key, ttl, limit, blockDuration, throttlerName)`
unfoldable pub increment : ℕ → String → ℕ → ℕ → ℕ → String → Store → ThrottlerStorageRecord × Store
unfolding increment_script
increment now key ttl limit block_duration throttler_name store =
    let (reply, store') =
      increment_script now (hits_key_of throttler_name key) (block_key_of throttler_name key) ttl
        limit block_duration store in
    (record_of reply, store')
