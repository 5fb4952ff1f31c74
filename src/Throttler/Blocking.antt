-- ===== src/Throttler/Blocking.antt =====
-- Which attempts src/redis/redis-throttler.storage.ts blocks within a window, which begins with the first
-- attempt.
use text.Mathlib.TextLemmas.{append_cancel_left}
use lotus_build_server.Base.{
  ℕ, ◌+◌, ◌≤◌, ◌<◌, String, ◌≡◌, ◌≢◌, inr, refl, ◌∙◌, Bool, Option, none, some, List, [], ◌∷◌,
  arith, eq_iff, leb, nat_eq, All, if◌then◌else◌,
}
use lotus_build_server.Throttler.{increment_script, increment, hits_key_of, block_key_of}
use lotus_build_server.Throttler.Keys.{Store, Cell, find, is_live, live_cell, write, incr, pexpire}
use lotus_build_server.Throttler.Window.{
  beyond, blocked_at, window_cell, Clear, Tracks, write_same, Clear-write, settled, follow,
  pttl_missing,
}

cell_later :
    (start now : ℕ) (found : Option Cell)
    → live_cell start found ≡ none
    → start ≤ now
    → live_cell now found ≡ none
cell_later start now none e late = refl
cell_later start now (some cell) e late = go cell.expires_at e
  where
    go :
        (at : Option ℕ)
        → (if is_live start at then some cell else none) ≡ none
        → (if is_live now at then some cell else none) ≡ none
    go none e = cc
    go (some at) e = ground arith

missing_later :
    (start now : ℕ) (key : String) (store : Store)
    → find start key store ≡ none
    → start ≤ now
    → find now key store ≡ none
unfolding find
missing_later start now key store e late = cell_later start now (store key) e late

incr_first :
    (start : ℕ) (key : String) (store : Store)
    → find start key store ≡ none
    → incr start key store ≡ (1, write key (record { value = 1; expires_at = none }) store)
unfolding incr
incr_first start key store e = rw e refl

pexpire_first :
    (start ttl_ms : ℕ) (key : String) (store : Store)
    → pexpire start key ttl_ms (write key (record { value = 1; expires_at = none }) store)
      ≡ write key
          (window_cell (start + ttl_ms) 1)
          (write key (record { value = 1; expires_at = none }) store)
unfolding pexpire find
pexpire_first start ttl_ms key store =
    rw (write_same key (record { value = 1; expires_at = none }) store) refl

module _ (hits_key block_key : String) (start ttl_ms limit block_ms : ℕ)
    (distinct : hits_key ≢ block_key) (blocks : 0 < block_ms) where
  clear :
      (store : Store)
      → find start block_key store ≡ none
      → Clear hits_key block_key start (start + ttl_ms) limit block_ms (
          write hits_key
            (window_cell (start + ttl_ms) 1)
            (write hits_key (record { value = 1; expires_at = none }) store))
  clear store no_block =
      Clear-write hits_key block_key start (start + ttl_ms) limit block_ms distinct blocks _ _ (
        Clear-write hits_key block_key start (start + ttl_ms) limit block_ms distinct blocks _ store
          (λ now late. missing_later start now block_key store no_block late))

  first :
      (store : Store)
      → find start hits_key store ≡ none
      → find start block_key store ≡ none
      → let (reply, store') =
          increment_script start hits_key block_key ttl_ms limit block_ms store in
        (nat_eq reply.blocked 1 ≡ leb limit 0)
        × Tracks hits_key block_key start (start + ttl_ms) limit block_ms 1 store'
  unfolding increment_script
  first store no_hits no_block =
      rw
        (
          pttl_missing hits_key block_key start (start + ttl_ms) limit block_ms distinct blocks
              start store no_block,
          incr_first start hits_key store no_hits,
          pexpire_first start ttl_ms hits_key store,
        )
        (settled hits_key block_key start (start + ttl_ms) limit block_ms distinct blocks start 0 0
          (write hits_key (window_cell (start + ttl_ms) 1)
            (write hits_key (record { value = 1; expires_at = none }) store))
          (write_same hits_key (window_cell (start + ttl_ms) 1) _)
          (inr (refl, ground arith, clear store no_block)))

  window_blocked :
      (times : List ℕ) (store : Store)
      → find start hits_key store ≡ none
      → find start block_key store ≡ none
      → All (λ now. (start ≤ now) × (now < start + ttl_ms)) times
      → blocked_at hits_key block_key limit block_ms ttl_ms (start ∷ times) store
        ≡ beyond limit 0 (start ∷ times)
  unfolding blocked_at
  window_blocked times store no_hits no_block within =
      let (flag, tracks) = first store no_hits no_block in
      let rest =
        follow hits_key block_key start (start + ttl_ms) limit block_ms distinct blocks times 1
          ttl_ms _ tracks within in
      rw (flag, rest) refl

keys-ne :
    (throttler_name key : String) → hits_key_of throttler_name key ≢ block_key_of throttler_name key
keys-ne throttler_name key e =
    let without_name =
      append_cancel_left throttler_name _ _ (append_cancel_left "throttle:" _ _ e) in
    let suffixes =
      append_cancel_left key ":hits" ":block" (append_cancel_left ":" _ _ without_name) in
    ground (arith, eq_iff ":hits" ":block")

module _ (key : String) (ttl limit block_duration : ℕ) (throttler_name : String) where
  -- What `increment` decides for attempts at these times, one after the other.
  unfoldable pub decisions : List ℕ → Store → List Bool
  decisions [] store = []
  decisions (now ∷ times) store =
      let (decision, store') = increment now key ttl limit block_duration throttler_name store in
      decision.is_blocked ∷ decisions times store'

  decisions-blocked_at :
      (times : List ℕ) (store : Store)
      → decisions times store
        ≡ blocked_at
            (hits_key_of throttler_name key)
            (block_key_of throttler_name key)
            limit
            block_duration
            ttl
            times
            store
  unfolding decisions blocked_at increment
  decisions-blocked_at [] store = refl
  decisions-blocked_at (now ∷ times) store = rw (decisions-blocked_at times _) refl

  -- Where at the first attempt no window and no block of the key is in force, the other attempts fall
  -- within the window that it begins, and blocking has a duration, the first `limit` attempts are let
  -- through and all that come behind them are blocked.
  pub decisions-beyond :
      (start : ℕ) (times : List ℕ) (store : Store)
      → 0 < block_duration
      → find start (hits_key_of throttler_name key) store ≡ none
      → find start (block_key_of throttler_name key) store ≡ none
      → All (λ now. (start ≤ now) × (now < start + ttl)) times
      → decisions (start ∷ times) store ≡ beyond limit 0 (start ∷ times)
  decisions-beyond start times store blocks no_hits no_block within =
      decisions-blocked_at (start ∷ times) store
      ∙ window_blocked (hits_key_of throttler_name key) (block_key_of throttler_name key) start ttl
          limit block_duration (keys-ne throttler_name key) blocks times store no_hits no_block
          within
