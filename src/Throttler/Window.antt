-- ===== src/Throttler/Window.antt =====
-- The count of a window in src/redis/redis-throttler.storage.ts, attempt by attempt.
use lotus_build_server.Base.{
  ℕ, suc, ◌≤◌, ◌<◌, String, ◌≡◌, ◌≢◌, ◌⊎◌, inl, inr, refl, sym, ◌∙◌, Bool, true, false, none, some,
  List, [], ◌∷◌, eq_iff, arith, ltb, leb, nat_eq, Bool-cases, All,
}
use lotus_build_server.Base.Integers.{is_positive}
use lotus_build_server.Throttler.{increment_script, settle}
use lotus_build_server.Throttler.Keys.{Store, Cell, find, write, incr, pttl, set_px}

-- Which attempts are blocked where `seen` of the window went before: those behind the first `limit`.
abbrev pub beyond : ℕ → ℕ → List ℕ → List Bool
beyond limit seen [] = []
beyond limit seen (now ∷ times) = leb limit seen ∷ beyond limit (suc seen) times

pub write_same : (key : String) (cell : Cell) (store : Store) → write key cell store key ≡ some cell
unfolding write
write_same key cell store = ground (arith, eq_iff key key)

write_other :
    (key other : String) (cell : Cell) (store : Store)
    → other ≢ key
    → write key cell store other ≡ store other
unfolding write
write_other key other cell store ne = ground (arith, eq_iff other key)

module _ (hits_key block_key : String) (limit block_ms : ℕ) where
  -- Which of the attempts at these times the script blocks, one after the other.
  unfoldable pub blocked_at : ℕ → List ℕ → Store → List Bool
  blocked_at ttl_ms [] store = []
  blocked_at ttl_ms (now ∷ times) store =
      let (reply, store') = increment_script now hits_key block_key ttl_ms limit block_ms store in
      nat_eq reply.blocked 1 ∷ blocked_at ttl_ms times store'

-- The counter of a window that ends then.
abbrev pub window_cell : ℕ → ℕ → Cell
window_cell end value = record { value = value; expires_at = some end }

module _ (hits_key block_key : String) (start end limit block_ms : ℕ) where
  -- No block is in force from the start of the window on.
  abbrev pub Clear : Store → Type 0
  Clear store = (now : ℕ) → start ≤ now → find now block_key store ≡ none

  -- The count of the window behind `seen` attempts.
  abbrev pub Tracks : ℕ → Store → Type 0
  Tracks seen store =
      (value : ℕ) × (store hits_key ≡ some (window_cell end value))
      × (((limit < value) × (limit < seen))
          ⊎ ((value ≡ seen) × (seen ≤ limit) × (0 < seen) × Clear store))

  find_live :
      (now value : ℕ) (store : Store)
      → store hits_key ≡ some (window_cell end value)
      → now < end
      → find now hits_key store ≡ some (window_cell end value)
  unfolding find
  find_live now value store e early = rw e (ground arith)

  incr_live :
      (now value : ℕ) (store : Store)
      → store hits_key ≡ some (window_cell end value)
      → now < end
      → incr now hits_key store ≡ (suc value, write hits_key (window_cell end (suc value)) store)
  unfolding incr
  incr_live now value store e early = rw (find_live now value store e early) refl

  module _ (distinct : hits_key ≢ block_key) (blocks : 0 < block_ms) where
    pub Clear-write :
        (cell : Cell) (store : Store) → Clear store → Clear (write hits_key cell store)
    unfolding find
    Clear-write cell store clear now late =
        rw (write_other hits_key block_key cell store (λ e. distinct (sym e))) (clear now late)

    blocked_flag :
        (now seen value : ℕ) (store : Store)
        → ltb limit (suc value) ≡ true
        → ((limit < value) × (limit < seen)) ⊎ ((value ≡ seen) × (seen ≤ limit) × Clear store)
        → true ≡ leb limit seen
    blocked_flag now seen value store over (inl (a, b)) = ground arith
    blocked_flag now seen value store over (inr (same, b, c)) = ground arith

    over_count :
        (seen value : ℕ) (store : Store)
        → ltb limit (suc value) ≡ true
        → ((limit < value) × (limit < seen)) ⊎ ((value ≡ seen) × (seen ≤ limit) × Clear store)
        → (limit < suc value) × (limit < suc seen)
    over_count seen value store over (inl (a, b)) = (ground arith, ground arith)
    over_count seen value store over (inr (same, b, c)) = (ground arith, ground arith)

    under_count :
        (seen value : ℕ) (store : Store)
        → ltb limit (suc value) ≡ false
        → ((limit < value) × (limit < seen)) ⊎ ((value ≡ seen) × (seen ≤ limit) × Clear store)
        → (false ≡ leb limit seen)
          × (suc value ≡ suc seen)
          × (suc seen ≤ limit)
          × (0 < suc seen)
          × Clear store
    under_count seen value store under (inl (a, b)) = absurd (ground arith)
    under_count seen value store under (inr (same, b, clear)) =
        (ground arith, ground arith, ground arith, ground arith, clear)

    -- What `settle` comes to for the attempt that was counted last.
    pub settled :
        (now seen value : ℕ) (store : Store)
        → store hits_key ≡ some (window_cell end (suc value))
        → ((limit < value) × (limit < seen)) ⊎ ((value ≡ seen) × (seen ≤ limit) × Clear store)
        → let (reply, store') = settle now hits_key block_key limit block_ms (suc value) store in
          (nat_eq reply.blocked 1 ≡ leb limit seen) × Tracks (suc seen) store'
    unfolding settle set_px
    settled now seen value store e state =
        let blocks' : ltb 0 block_ms ≡ true = ground arith in
        elim (Bool-cases (ltb limit (suc value))) [
          | inl over ↦
              rw (over, blocks')
                (
                  blocked_flag now seen value store over state,
                  (
                    suc value,
                    write_other block_key hits_key _ store distinct ∙ e,
                    inl (over_count seen value store over state),
                  ),
                )
          | inr under ↦ rw under (
              let (flag, same, most, first, clear) = under_count seen value store under state in
              (flag, (suc value, e, inr (same, most, first, clear))))
        ]

    pub pttl_missing :
        (now : ℕ) (store : Store)
        → find now block_key store ≡ none
        → is_positive (pttl now block_key store) ≡ false
    unfolding pttl
    pttl_missing now store e = rw e refl

    blocked_state :
        (now seen value : ℕ) (store : Store)
        → is_positive (pttl now block_key store) ≡ true
        → start ≤ now
        → ((limit < value) × (limit < seen))
          ⊎ ((value ≡ seen) × (seen ≤ limit) × (0 < seen) × Clear store)
        → (true ≡ leb limit seen) × (limit < value) × (limit < suc seen)
    unfolding pttl
    blocked_state now seen value store blocked late (inl (a, b)) =
        (ground arith, ground arith, ground arith)
    blocked_state now seen value store blocked late (inr (same, b, c, clear)) =
        let free = pttl_missing now store (clear now late) in cc

    later_hit :
        (seen value : ℕ) (store : Store)
        → ((limit < value) × (limit < seen))
          ⊎ ((value ≡ seen) × (seen ≤ limit) × (0 < seen) × Clear store)
        → nat_eq (suc value) 1 ≡ false
    later_hit seen value store (inl (a, b)) = ground arith
    later_hit seen value store (inr (same, b, c, clear)) = ground arith

    counted :
        (seen value : ℕ) (store : Store)
        → ((limit < value) × (limit < seen))
          ⊎ ((value ≡ seen) × (seen ≤ limit) × (0 < seen) × Clear store)
        → ((limit < value) × (limit < seen))
          ⊎ ((value ≡ seen)
              × (seen ≤ limit)
              × Clear (write hits_key (window_cell end (suc value)) store))
    counted seen value store (inl p) = inl p
    counted seen value store (inr (same, b, c, clear)) =
        inr (same, b, Clear-write (window_cell end (suc value)) store clear)

    step :
        (now seen ttl_ms : ℕ) (store : Store)
        → Tracks seen store
        → start ≤ now
        → now < end
        → let (reply, store') =
            increment_script now hits_key block_key ttl_ms limit block_ms store in
          (nat_eq reply.blocked 1 ≡ leb limit seen) × Tracks (suc seen) store'
    unfolding increment_script
    step now seen ttl_ms store (value, e, state) late early =
        elim (Bool-cases (is_positive (pttl now block_key store))) [
          | inl blocked ↦ rw blocked (
            (blocked_state now seen value store blocked late state).0,
            (
              value,
              e,
              inl (
                (blocked_state now seen value store blocked late state).1,
                (blocked_state now seen value store blocked late state).2,
              ),
            ),
          )
          | inr free ↦
              rw (free, incr_live now value store e early, later_hit seen value store state)
                (settled now seen value (write hits_key (window_cell end (suc value)) store)
                  (write_same hits_key (window_cell end (suc value)) store)
                  (counted seen value store state))
        ]

    pub follow :
        (times : List ℕ) (seen ttl_ms : ℕ) (store : Store)
        → Tracks seen store
        → All (λ now. (start ≤ now) × (now < end)) times
        → blocked_at hits_key block_key limit block_ms ttl_ms times store ≡ beyond limit seen times
    unfolding blocked_at
    follow [] seen ttl_ms store tracks within = refl
    follow (now ∷ times) seen ttl_ms store tracks ((late, early), within) =
        let (flag, tracks') = step now seen ttl_ms store tracks late early in
        let rest = follow times (suc seen) ttl_ms _ tracks' within in rw (flag, rest) refl
